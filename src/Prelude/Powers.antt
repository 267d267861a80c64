-- ===== src/Prelude/Powers.antt =====
-- Powers of two.
use Prim.Native.Nat.{ℕ, zero, suc, ◌+◌, ◌-◌, ◌*◌, ◌/◌, ◌^◌, ◌≤◌, ◌<◌}
use native.Mathlib.Nat.{pow-suc, mul_comm, mul_assoc, le-div_iff_mul-le, mul-div_cancel_left}
use mathlib.Core.Path.{◌≡◌, sym, ap, ◌∙◌, subst}
use native.Mathlib.Omega.{arith}

pub pow-pos : (n : ℕ) → ◌<◌ 0 (2 ^ n)
pow-pos zero = omega arith
pow-pos (suc n) = omega (arith, pow-pos n, pow-suc 2 n)

pub div-twice : (x m : ℕ) → 0 < m → x / (m * 2) ≡ x / m / 2
div-twice x m pos =
    let twice : 0 < m * 2 = omega (arith, pos) in
    let two : ◌<◌ 0 2 = omega arith in
    let below = (le-div_iff_mul-le two).1 (
      (le-div_iff_mul-le pos).1
        (subst (λ k. k ≤ x) (turn (x / (m * 2))) ((le-div_iff_mul-le twice).0 (omega arith)))) in
    let above = (le-div_iff_mul-le twice).1 (
      subst (λ k. k ≤ x) (sym (turn (x / m / 2)))
        ((le-div_iff_mul-le pos).0 ((le-div_iff_mul-le two).0 (omega arith)))) in
    omega (arith, below, above)
  where
    turn : (k : ℕ) → k * (m * 2) ≡ k * 2 * m
    turn k = grind arith

pub zero_add : (b : ℕ) → 0 + b ≡ b
zero_add b = omega arith

pub one_mul : (b : ℕ) → 1 * b ≡ b
one_mul b = omega arith

pub suc_add : (a b : ℕ) → suc a + b ≡ suc (a + b)
suc_add a b = omega arith

pub pow_add : (a b : ℕ) → 2 ^ (a + b) ≡ 2 ^ a * 2 ^ b
pow_add zero b = ap (2 ^◌) (zero_add b) ∙ sym (one_mul (2 ^ b))
pow_add (suc a) b =
    ap (2 ^◌) (suc_add a b)
    ∙ pow-suc 2 (a + b)
    ∙ ap (◌* 2) (pow_add a b)
    ∙ mul_assoc (2 ^ a) (2 ^ b) 2
    ∙ ap (2 ^ a *◌) (mul_comm (2 ^ b) 2)
    ∙ sym (mul_assoc (2 ^ a) 2 (2 ^ b))
    ∙ ap (◌* 2 ^ b) (sym (pow-suc 2 a))

pub pow_div : (l h : ℕ) → l ≤ h → 2 ^ h / 2 ^ l ≡ 2 ^ (h - l)
pow_div l h le =
    let whole : h ≡ l + (h - l) = omega (arith, le) in
    ap (λ n. 2 ^ n / 2 ^ l) whole
    ∙ ap (◌/ 2 ^ l) (pow_add l (h - l))
    ∙ mul-div_cancel_left (2 ^ (h - l)) (pow-pos l)
