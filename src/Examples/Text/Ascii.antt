-- ===== src/Examples/Text/Ascii.antt =====
-- What is printed is ASCII.
use native.Mathlib.Nat.{mod-lt}
use rust_dag_executor.Prelude.{
  ℕ, zero, suc, ◌-◌, ◌/◌, ◌%◌, ◌≤◌, ◌<◌, ◌≡◌, [], ◌∷◌, ◌++◌, Bool, true, ◌&&◌, arith, ltb, length,
  replicate, Bool-cases, inl, inr,
}
use rust_dag_executor.Prelude.Each.{Each, nil, cons}
use rust_dag_executor.Examples.Text.{Text, digit, digits, decimal, padded_hex}

abbrev pub IsAscii : ℕ → Type 0
IsAscii c = c < 128

abbrev pub all_ascii : Text → Bool
all_ascii [] = true
all_ascii (c ∷ text) = ltb c 128 && all_ascii text

pub all_ascii-IsAscii : (text : Text) → all_ascii text ≡ true → Each IsAscii text
all_ascii-IsAscii [] e = nil
all_ascii-IsAscii (c ∷ text) e =
    cons (ground (arith, e)) (all_ascii-IsAscii text (ground (arith, e)))

pub append-IsAscii : (xs ys : Text) → Each IsAscii xs → Each IsAscii ys → Each IsAscii (xs ++ ys)
append-IsAscii [] ys nil q = q
append-IsAscii (x ∷ xs) ys (cons p ps) q = cons p (append-IsAscii xs ys ps q)

digit-IsAscii : (d : ℕ) → d < 16 → IsAscii (digit d)
digit-IsAscii d lt = ground (arith, lt)

digits-IsAscii : (base fuel n : ℕ) → 0 < base → base ≤ 16 → Each IsAscii (digits base fuel n)
unfolding digits
digits-IsAscii base zero n some_base few = nil
digits-IsAscii base (suc fuel) n some_base few = elim (Bool-cases (ltb n base)) [
  | inl small ↦ rw small (cons (digit-IsAscii n (ground (arith, small, few))) nil)
  | inr large ↦ rw large (
      append-IsAscii (digits base fuel (n / base)) (digit (n % base) ∷ [])
        (digits-IsAscii base fuel (n / base) some_base few)
        (cons (digit-IsAscii (n % base) (omega (arith, mod-lt n some_base, few))) nil))
]

pub decimal-IsAscii : (n : ℕ) → Each IsAscii (decimal n)
unfolding decimal
decimal-IsAscii n = digits-IsAscii 10 (suc n) n (omega arith) (omega arith)

zeros-IsAscii : (n : ℕ) → Each IsAscii (replicate n 48)
zeros-IsAscii zero = nil
zeros-IsAscii (suc n) = cons (omega arith) (zeros-IsAscii n)

pub padded_hex-IsAscii : (w n : ℕ) → Each IsAscii (padded_hex w n)
unfolding padded_hex
padded_hex-IsAscii w n =
    append-IsAscii (replicate (w - length (digits 16 (suc n) n)) 48) (digits 16 (suc n) n)
      (zeros-IsAscii (w - length (digits 16 (suc n) n)))
      (digits-IsAscii 16 (suc n) n (omega arith) (omega arith))
