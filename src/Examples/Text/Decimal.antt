-- ===== src/Examples/Text/Decimal.antt =====
-- Numbers that print alike are the same, also before a slash.
use rust_dag_executor.Prelude.{
  ℕ, zero, suc, ◌+◌, ◌-◌, ◌*◌, ◌/◌, ◌%◌, ◌≤◌, ◌<◌, ◌≡◌, refl, ap, [], ◌∷◌, ◌++◌, arith, ltb, true,
  false, ◌≢◌, ◌==◌, get_or, Bool-cases, inl, inr,
}
use rust_dag_executor.Prelude.Each.{Each, nil, cons}
use rust_dag_executor.Examples.Text.{Text, digits, decimal}

-- The number that decimal digits mean, after `n`.
abbrev read : ℕ → Text → ℕ
read n [] = n
read n (c ∷ text) = read (n * 10 + (c - 48)) text

read_last : (n : ℕ) (text : Text) (c : ℕ) → read n (text ++ c ∷ []) ≡ read n text * 10 + (c - 48)
read_last n [] c = refl
read_last n (d ∷ text) c = read_last (n * 10 + (d - 48)) text c

read-digits : (fuel n : ℕ) → n < fuel → read 0 (digits 10 fuel n) ≡ n
unfolding digits
read-digits zero n h = absurd (omega (arith, h))
read-digits (suc fuel) n h = elim (Bool-cases (ltb n 10)) [
  | inl small ↦ ground (arith, small)
  | inr large ↦
      let least : 10 ≤ n = ground (arith, large) in
      let rest : read 0 (digits 10 fuel (n / 10)) ≡ n / 10 =
        read-digits fuel (n / 10) (omega (arith, h, least)) in
      let last : ltb (n % 10) 10 ≡ true = ground arith in
      rw (large, last, read_last 0 (digits 10 fuel (n / 10)) (48 + n % 10), rest) (omega arith)
]

-- Numbers that print alike are the same.
pub decimal-injective : (n m : ℕ) → decimal n ≡ decimal m → n ≡ m
unfolding decimal
decimal-injective n m e =
    cc (read-digits (suc n) n (omega arith), read-digits (suc m) m (omega arith), e)

-- A digit is not a slash.
abbrev IsDigit : ℕ → Type 0
IsDigit c = 48 ≤ c

Each_last : {P : ℕ → Type 0} (xs : Text) (x : ℕ) → Each P xs → P x → Each P (xs ++ x ∷ [])
Each_last [] x nil p = cons p nil
Each_last (y ∷ xs) x (cons q qs) p = cons q (Each_last xs x qs p)

digits-IsDigit : (fuel n : ℕ) → Each IsDigit (digits 10 fuel n)
unfolding digits
digits-IsDigit zero n = nil
digits-IsDigit (suc fuel) n = elim (Bool-cases (ltb n 10)) [
  | inl small ↦ rw small (cons (omega arith) nil)
  | inr large ↦
      let last : ltb (n % 10) 10 ≡ true = ground arith in
      rw (large, last)
        (Each_last (digits 10 fuel (n / 10)) (48 + n % 10) (digits-IsDigit fuel (n / 10))
          (omega arith))
]

decimal-IsDigit : (n : ℕ) → Each IsDigit (decimal n)
unfolding decimal
decimal-IsDigit n = digits-IsDigit (suc n) n

split :
    (xs ys r s : Text)
    → Each IsDigit xs
    → Each IsDigit ys
    → xs ++ 47 ∷ r ≡ ys ++ 47 ∷ s
    → (xs ≡ ys) × (r ≡ s)
split [] [] r s nil nil e = (refl, cc)
split [] (y ∷ ys) r s nil (cons d ds) e = let head : 47 ≡ y = cc in absurd (omega (arith, head, d))
split (x ∷ xs) [] r s (cons d ds) nil e = let head : x ≡ 47 = cc in absurd (omega (arith, head, d))
split (x ∷ xs) (y ∷ ys) r s (cons _ ds) (cons _ ds') e =
    let (same, rest) = split xs ys r s ds ds' (cc) in (cc, rest)

-- So are numbers that print alike before a slash, and what comes behind it.
pub decimal-slash-injective :
    (n m : ℕ) (r s : Text) → decimal n ++ 47 ∷ r ≡ decimal m ++ 47 ∷ s → (n ≡ m) × (r ≡ s)
decimal-slash-injective n m r s e =
    let (same, rest) =
      split (decimal n) (decimal m) r s (decimal-IsDigit n) (decimal-IsDigit m) e in
    (decimal-injective n m same, rest)

-- Texts that differ at a place are not the same.
pub differ : (n : ℕ) {xs ys : Text} → (get_or xs n 0 == get_or ys n 0) ≡ false → xs ≢ ys
differ n apart e = ground (arith, apart, ap (λ t. get_or t n 0) e)
