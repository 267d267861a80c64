-- ===== src/Prelude/Count.antt =====
-- Occurrences of a number in a list, and sums over an initial range of indices.
use Prim.Native.Nat.{ℕ, zero, suc, ◌+◌, ◌≤◌, ◌<◌}
use mathlib.Core.Path.{◌≡◌, refl, ap}
use mathlib.Core.List.{List, [], ◌∷◌, ◌++◌}
use native.Mathlib.Omega.{arith}
use native.Mathlib.Decide.{dec_lt}
use rust_dag_executor.Prelude.Tests.{◌==◌, bit}

abbrev pub count : ℕ → List ℕ → ℕ
count a [] = 0
count a (x ∷ xs) = bit (x == a) + count a xs

pub count-append : (i : ℕ) (row more : List ℕ) → count i (row ++ more) ≡ count i row + count i more
count-append i [] more = omega arith
count-append i (j ∷ row) more = omega (count-append i row more, arith)

-- The indices from `k` on, `n` of them: Rust's `k..k + n`.
abbrev pub range_from : ℕ → ℕ → List ℕ
range_from k zero = []
range_from k (suc n) = k ∷ range_from (suc k) n

-- The sum of `f` over the indices below `n`.
pub total : ℕ → (ℕ → ℕ) → ℕ
total zero f = 0
total (suc n) f = total n f + f n

pub total-suc : (n : ℕ) (f : ℕ → ℕ) → total (suc n) f ≡ total n f + f n
unfolding total
total-suc n f = refl

pub total-zero : (f : ℕ → ℕ) → total 0 f ≡ 0
unfolding total
total-zero f = refl

pub total_congr : (n : ℕ) (f g : ℕ → ℕ) → ((i : ℕ) → i < n → f i ≡ g i) → total n f ≡ total n g
unfolding total
total_congr zero f g h = refl
total_congr (suc n) f g h =
    omega (arith, total_congr n f g (λ i lt. h i (omega arith)), h n (omega arith))

pub total_mono : (n : ℕ) (f g : ℕ → ℕ) → ((i : ℕ) → i < n → f i ≤ g i) → total n f ≤ total n g
unfolding total
total_mono zero f g h = omega arith
total_mono (suc n) f g h =
    omega (arith, total_mono n f g (λ i lt. h i (omega arith)), h n (omega arith))

pub total_const_zero : (n : ℕ) → total n (λ _. 0) ≡ 0
unfolding total
total_const_zero zero = refl
total_const_zero (suc n) = omega (arith, total_const_zero n)

-- A change at one index changes the sum by as much.
pub total_update :
    (n : ℕ) (f g : ℕ → ℕ) (k : ℕ)
    → k < n
    → ((i : ℕ) → (i ≡ k → ⊥) → f i ≡ g i)
    → total n f + g k ≡ total n g + f k
unfolding total
total_update zero f g k h same = elim h [ ]
total_update (suc n) f g k h same = elim (dec_lt k n) [
  | yes below ↦ omega (arith, total_update n f g k below same, same n (λ e. omega arith))
  | no last ↦
      let e : k ≡ n = omega arith in
      omega (arith, total_congr n f g (λ i lt. same i (λ e. omega arith)), ap f e, ap g e)
]

-- Equal sums of ordered terms have equal terms.
pub total_eq_terms :
    (n : ℕ) (f g : ℕ → ℕ)
    → ((i : ℕ) → i < n → f i ≤ g i)
    → total n f ≡ total n g
    → (i : ℕ) → i < n
    → f i ≡ g i
unfolding total
total_eq_terms zero f g le e i h = elim h [ ]
total_eq_terms (suc n) f g le e i h =
    let below = total_mono n f g (λ i lt. le i (omega arith)) in
    elim (dec_lt i n) [
      | yes lt ↦
          total_eq_terms n f g (λ i lt. le i (omega arith)) (omega (arith, le n (omega arith))) i lt
      | no last ↦
          let here : i ≡ n = omega arith in omega (arith, le n (omega arith), ap f here, ap g here)
    ]

pub total-le : (n : ℕ) (f : ℕ → ℕ) → ((i : ℕ) → f i ≤ 1) → total n f ≤ n
unfolding total
total-le zero f le = omega arith
total-le (suc n) f le = omega (arith, total-le n f le, le n)

pub total-lt : (n : ℕ) (f : ℕ → ℕ) (k : ℕ) → ((i : ℕ) → f i ≤ 1) → k < n → f k ≡ 0 → total n f < n
unfolding total
total-lt zero f k le h e = elim h [ ]
total-lt (suc n) f k le h e = elim (dec_lt k n) [
  | yes below ↦ omega (arith, total-lt n f k le below e, le n)
  | no last ↦ let here : k ≡ n = omega arith in omega (arith, total-le n f le, ap f here)
]

-- Where the sums of ordered terms differ, some terms do.
pub total-find :
    (n : ℕ) (f g : ℕ → ℕ)
    → ((i : ℕ) → i < n → f i ≤ g i)
    → (total n f ≡ total n g → ⊥)
    → (i : ℕ) × (i < n) × (f i < g i)
unfolding total
total-find zero f g le differ = absurd (differ refl)
total-find (suc n) f g le differ = elim (dec_lt (f n) (g n)) [
  | yes less ↦ (n, omega arith, less)
  | no same ↦
      let (i, lt, less) =
        total-find n f g (λ i lt. le i (omega arith))
          (λ e. differ (omega (arith, e, le n (omega arith)))) in
      (i, omega arith, less)
]
