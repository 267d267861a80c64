-- ===== src/Prelude/Siblings.antt =====
-- `i ^ 1`: the other one of a pair.
use Prim.Native.Nat.{
  ℕ, zero, suc, ◌+◌, ◌-◌, ◌*◌, ◌/◌, ◌%◌, ◌≤◌, ◌<◌, bit_xor, bit_xor-bitwise, digits, differ,
}
use mathlib.Core.Path.{◌≡◌, refl, ap, ◌∙◌}
use native.Mathlib.Omega.{arith}
use rust_dag_executor.Prelude.Tests.{◌==◌, if◌then◌else◌}

differ-zero : (x : ℕ) → differ x 0 ≡ x
differ-zero zero = refl
differ-zero (suc x) = refl

digits-zero : (n a : ℕ) → a ≤ n → digits (λ b. b) differ n a 0 ≡ a
digits-zero zero a le = omega (arith, le)
digits-zero (suc n) zero le = refl
digits-zero (suc n) (suc a) le =
    let half = digits-zero n (suc a / 2) (omega (arith, le)) in
    ap (λ d. d * 2 + differ (suc a % 2) 0) half
    ∙ ap (suc a / 2 * 2 +◌) (differ-zero (suc a % 2))
    ∙ omega arith

differ-one :
    (a r : ℕ)
    → r < 2
    → (a / 2 * 2 + r ≡ a)
    → a / 2 * 2 + differ r 1 ≡ (if r == 0 then a + 1 else a - 1)
differ-one a zero lt e = omega (arith, e)
differ-one a (suc zero) lt e = omega (arith, e)
differ-one a (suc (suc r)) lt e = absurd (omega (arith, lt))

-- The other child of the parent of node `i`.
abbrev pub sibling : ℕ → ℕ
sibling i = if i % 2 == 0 then i + 1 else i - 1

pub bit_xor-one : (i : ℕ) → bit_xor i 1 ≡ sibling i
bit_xor-one zero = refl
bit_xor-one (suc a) =
    bit_xor-bitwise (suc a) 1
    ∙ ap (λ d. d * 2 + differ (suc a % 2) 1) (digits-zero a (suc a / 2) (omega arith))
    ∙ differ-one (suc a) (suc a % 2) (omega arith) (omega arith)
