-- ===== src/Prelude/Lists.antt =====
-- Lists measured and indexed by native numbers, under the library's names.
use Prim.Native.Nat.{ℕ, zero, suc, ◌+◌, ◌<◌}
use mathlib.Core.Path.{◌≡◌, refl, ap}
use mathlib.Core.Logic.{◌⊎◌, inl, inr}
use mathlib.Core.Bool.{Bool, true, false}
use mathlib.Core.List.{List, [], ◌∷◌, ◌++◌}
use mathlib.Core.Option.{Option, none, some}
use native.Mathlib.Omega.{arith}
use rust_dag_executor.Prelude.Tests.{◌==◌, if◌then◌else◌}

module _ {ℓ} {A : Type ℓ} where
  abbrev pub length : List A → ℕ
  length [] = 0
  length (x ∷ xs) = suc (length xs)

  abbrev pub is_empty : List A → Bool
  is_empty [] = true
  is_empty (x ∷ xs) = false

  abbrev pub get_elem? : List A → ℕ → Option A
  get_elem? [] i = none
  get_elem? (x ∷ xs) zero = some x
  get_elem? (x ∷ xs) (suc i) = get_elem? xs i

  abbrev pub get_or : List A → ℕ → A → A
  get_or [] i d = d
  get_or (x ∷ xs) zero d = x
  get_or (x ∷ xs) (suc i) d = get_or xs i d

  -- A write out of bounds changes nothing.
  abbrev pub set : List A → ℕ → A → List A
  set [] i v = []
  set (x ∷ xs) zero v = v ∷ xs
  set (x ∷ xs) (suc i) v = x ∷ set xs i v

  abbrev pub replicate : ℕ → A → List A
  replicate zero a = []
  replicate (suc n) a = a ∷ replicate n a

  abbrev pub take : ℕ → List A → List A
  take zero xs = []
  take (suc n) [] = []
  take (suc n) (x ∷ xs) = x ∷ take n xs

  abbrev pub drop : ℕ → List A → List A
  drop zero xs = xs
  drop (suc n) [] = []
  drop (suc n) (x ∷ xs) = drop n xs

  pub length-append : (xs ys : List A) → length (xs ++ ys) ≡ length xs + length ys
  length-append [] ys = omega arith
  length-append (x ∷ xs) ys = omega (arith, length-append xs ys)

  pub get_elem?-set_cases :
      (xs : List A) (i : ℕ) (v : A) (j : ℕ) {a : A}
      → get_elem? (set xs i v) j ≡ some a
      → ((j ≡ i) × (a ≡ v)) ⊎ (get_elem? xs j ≡ some a)
  get_elem?-set_cases [] i v j at = inr at
  get_elem?-set_cases (x ∷ xs) zero v zero at = inl (refl, cc)
  get_elem?-set_cases (x ∷ xs) zero v (suc j) at = inr at
  get_elem?-set_cases (x ∷ xs) (suc i) v zero at = inr at
  get_elem?-set_cases (x ∷ xs) (suc i) v (suc j) at = elim (get_elem?-set_cases xs i v j at) [
    | inl (here, same) ↦ inl (ap suc here, same)
    | inr before ↦ inr before
  ]

  pub length-set : (xs : List A) (i : ℕ) (v : A) → length (set xs i v) ≡ length xs
  length-set [] i v = refl
  length-set (x ∷ xs) zero v = refl
  length-set (x ∷ xs) (suc i) v = ap suc (length-set xs i v)

  pub length-replicate : (n : ℕ) (a : A) → length (replicate n a) ≡ n
  length-replicate zero a = refl
  length-replicate (suc n) a = ap suc (length-replicate n a)

  pub get_or-replicate : (n : ℕ) (d : A) (i : ℕ) → get_or (replicate n d) i d ≡ d
  get_or-replicate zero d i = refl
  get_or-replicate (suc n) d zero = refl
  get_or-replicate (suc n) d (suc i) = get_or-replicate n d i

  pub get_elem?-lt :
      (xs : List A) (i : ℕ) (d : A) → i < length xs → get_elem? xs i ≡ some (get_or xs i d)
  get_elem?-lt [] i d h = elim h [ ]
  get_elem?-lt (x ∷ xs) zero d h = refl
  get_elem?-lt (x ∷ xs) (suc i) d h = get_elem?-lt xs i d (omega arith)

  pub get_elem?-eq-some : (xs : List A) (i : ℕ) {a : A} → get_elem? xs i ≡ some a → i < length xs
  get_elem?-eq-some [] i h = ground arith
  get_elem?-eq-some (x ∷ xs) zero h = omega arith
  get_elem?-eq-some (x ∷ xs) (suc i) h = omega (arith, get_elem?-eq-some xs i h)

  pub get_or-set :
      (xs : List A) (i : ℕ) (v : A) (j : ℕ) (d : A)
      → i < length xs
      → get_or (set xs i v) j d ≡ (if i == j then v else get_or xs j d)
  get_or-set [] i v j d h = elim h [ ]
  get_or-set (x ∷ xs) zero v zero d h = refl
  get_or-set (x ∷ xs) zero v (suc j) d h = ground arith
  get_or-set (x ∷ xs) (suc i) v zero d h = ground arith
  get_or-set (x ∷ xs) (suc i) v (suc j) d h = ground (arith, get_or-set xs i v j d)

  pub get_or_of_eq-some :
      (xs : List A) (i : ℕ) (d : A) {a : A} → get_elem? xs i ≡ some a → get_or xs i d ≡ a
  get_or_of_eq-some [] i d h = ground arith
  get_or_of_eq-some (x ∷ xs) zero d h = ground arith
  get_or_of_eq-some (x ∷ xs) (suc i) d h = get_or_of_eq-some xs i d h

  pub get_elem?-append_last : (xs : List A) (a : A) → get_elem? (xs ++ a ∷ []) (length xs) ≡ some a
  get_elem?-append_last [] a = refl
  get_elem?-append_last (x ∷ xs) a = get_elem?-append_last xs a

  pub get_elem?-append_left :
      (xs ys : List A) (i : ℕ) {a : A} → get_elem? xs i ≡ some a → get_elem? (xs ++ ys) i ≡ some a
  get_elem?-append_left [] ys i h = ground arith
  get_elem?-append_left (x ∷ xs) ys zero h = h
  get_elem?-append_left (x ∷ xs) ys (suc i) h = get_elem?-append_left xs ys i h

  -- An element of `xs ++ a ∷ []` is one of `xs`, or the last.
  pub get_elem?-append_cases :
      (xs : List A) (a : A) (i : ℕ) {b : A}
      → get_elem? (xs ++ a ∷ []) i ≡ some b
      → (get_elem? xs i ≡ some b) ⊎ ((i ≡ length xs) × (a ≡ b))
  get_elem?-append_cases [] a zero h = inr (refl, ground arith)
  get_elem?-append_cases [] a (suc i) h = ground arith
  get_elem?-append_cases (x ∷ xs) a zero h = inl h
  get_elem?-append_cases (x ∷ xs) a (suc i) h = ground (arith, get_elem?-append_cases xs a i h)

  pub is_empty-eq-nil : (xs : List A) → is_empty xs ≡ true → xs ≡ []
  is_empty-eq-nil [] h = refl
  is_empty-eq-nil (x ∷ xs) h = cc

  pub get_elem?-exists : (xs : List A) (i : ℕ) → i < length xs → (a : A) × (get_elem? xs i ≡ some a)
  get_elem?-exists [] i h = elim h [ ]
  get_elem?-exists (x ∷ xs) zero h = (x, refl)
  get_elem?-exists (x ∷ xs) (suc i) h = get_elem?-exists xs i (omega arith)

pub get_or-pos-lt : (xs : List ℕ) (i : ℕ) → 0 < get_or xs i 0 → i < length xs
get_or-pos-lt [] i h = elim h [ ]
get_or-pos-lt (x ∷ xs) zero h = omega arith
get_or-pos-lt (x ∷ xs) (suc i) h = omega (arith, get_or-pos-lt xs i h)
