-- ===== src/Prelude/Slices.antt =====
-- Parts of lists: `take` and `drop`, their lengths and their elements.
use Prim.Native.Nat.{ℕ, zero, suc, ◌+◌, ◌-◌, ◌≤◌, ◌<◌}
use mathlib.Core.Path.{◌≡◌, refl, ap, ◌∙◌}
use mathlib.Core.List.{List, [], ◌∷◌, ◌++◌, map}
use mathlib.Core.Option.{some}
use native.Mathlib.Omega.{arith}
use rust_dag_executor.Prelude.Lists.{length, get_elem?, get_or, take, drop}
use rust_dag_executor.Prelude.Count.{range_from}
use rust_dag_executor.Prelude.Each.{Each, nil, cons}

module _ {A : Type 0} where
  pub drop-append : (n : ℕ) (xs ys : List A) → length xs ≡ n → drop n (xs ++ ys) ≡ ys
  drop-append zero [] ys e = refl
  drop-append zero (x ∷ xs) ys e = absurd (omega (arith, e))
  drop-append (suc n) [] ys e = absurd (omega (arith, e))
  drop-append (suc n) (x ∷ xs) ys e = drop-append n xs ys (omega (arith, e))

  pub take-append : (n : ℕ) (xs ys : List A) → length xs ≡ n → take n (xs ++ ys) ≡ xs
  take-append zero [] ys e = refl
  take-append zero (x ∷ xs) ys e = absurd (omega (arith, e))
  take-append (suc n) [] ys e = absurd (omega (arith, e))
  take-append (suc n) (x ∷ xs) ys e = ap (x ∷◌) (take-append n xs ys (omega (arith, e)))

  pub get_elem?-middle :
      (from : ℕ) (before : List A) (a : A) (behind : List A)
      → length before ≡ from
      → get_elem? (before ++ a ∷ behind) from ≡ some a
  get_elem?-middle zero [] a behind e = refl
  get_elem?-middle zero (x ∷ before) a behind e = absurd (omega (arith, e))
  get_elem?-middle (suc from) [] a behind e = absurd (omega (arith, e))
  get_elem?-middle (suc from) (x ∷ before) a behind e =
      get_elem?-middle from before a behind (omega (arith, e))

  pub length-take : (n : ℕ) (xs : List A) → n ≤ length xs → length (take n xs) ≡ n
  length-take zero xs le = refl
  length-take (suc n) [] le = absurd (omega (arith, le))
  length-take (suc n) (x ∷ xs) le = ap suc (length-take n xs (omega (arith, le)))

  pub length-drop : (n : ℕ) (xs : List A) → length (drop n xs) ≡ length xs - n
  length-drop zero xs = omega arith
  length-drop (suc n) [] = omega arith
  length-drop (suc n) (x ∷ xs) = length-drop n xs ∙ omega arith

  pub take_all : (n : ℕ) (xs : List A) → length xs ≡ n → take n xs ≡ xs
  take_all zero [] e = refl
  take_all zero (x ∷ xs) e = absurd (omega (arith, e))
  take_all (suc n) [] e = refl
  take_all (suc n) (x ∷ xs) e = ap (x ∷◌) (take_all n xs (omega (arith, e)))

  pub take-suc :
      (n : ℕ) (xs : List A) (d : A)
      → n < length xs
      → take (suc n) xs ≡ take n xs ++ get_or xs n d ∷ []
  take-suc n [] d lt = absurd (omega (arith, lt))
  take-suc zero (x ∷ xs) d lt = refl
  take-suc (suc n) (x ∷ xs) d lt = ap (x ∷◌) (take-suc n xs d (omega (arith, lt)))

  pub Each-take : {P : A → Type 0} (n : ℕ) (xs : List A) → Each P xs → Each P (take n xs)
  Each-take zero xs h = nil
  Each-take (suc n) [] h = nil
  Each-take (suc n) (x ∷ xs) (cons p h) = cons p (Each-take n xs h)

  pub Each-drop : {P : A → Type 0} (n : ℕ) (xs : List A) → Each P xs → Each P (drop n xs)
  Each-drop zero xs h = h
  Each-drop (suc n) [] h = nil
  Each-drop (suc n) (x ∷ xs) (cons p h) = Each-drop n xs h

  pub length-map : {B : Type 0} (f : B → A) (xs : List B) → length (map f xs) ≡ length xs
  length-map f [] = refl
  length-map f (x ∷ xs) = ap suc (length-map f xs)

  pub get_or-drop : (n : ℕ) (xs : List A) (d : A) → get_or (take 1 (drop n xs)) 0 d ≡ get_or xs n d
  get_or-drop zero [] d = refl
  get_or-drop zero (x ∷ xs) d = refl
  get_or-drop (suc n) [] d = refl
  get_or-drop (suc n) (x ∷ xs) d = get_or-drop n xs d

  pub get_or-map :
      {B : Type 0} (f : B → A) (xs : List B) (i : ℕ) (d : B) (e : A)
      → i < length xs
      → get_or (map f xs) i e ≡ f (get_or xs i d)
  get_or-map f [] i d e lt = absurd (omega (arith, lt))
  get_or-map f (x ∷ xs) zero d e lt = refl
  get_or-map f (x ∷ xs) (suc i) d e lt = get_or-map f xs i d e (omega (arith, lt))

  get_or-take : (n i : ℕ) (xs : List A) (d : A) → i < n → get_or (take n xs) i d ≡ get_or xs i d
  get_or-take zero i xs d lt = absurd (omega (arith, lt))
  get_or-take (suc n) i [] d lt = refl
  get_or-take (suc n) zero (x ∷ xs) d lt = refl
  get_or-take (suc n) (suc i) (x ∷ xs) d lt = get_or-take n i xs d (omega (arith, lt))

  get_or-behind :
      (from i : ℕ) (xs : List A) (d : A) → get_or (drop from xs) i d ≡ get_or xs (from + i) d
  get_or-behind zero i xs d = ap (λ k. get_or xs k d) (omega arith)
  get_or-behind (suc from) i [] d = refl
  get_or-behind (suc from) i (x ∷ xs) d =
      let next : suc (from + i) ≡ suc from + i = omega arith in
      get_or-behind from i xs d ∙ ap (λ k. get_or (x ∷ xs) k d) next

  pub get_or-slice :
      (n from i : ℕ) (xs : List A) (d : A)
      → i < n
      → get_or (take n (drop from xs)) i d ≡ get_or xs (from + i) d
  get_or-slice n from i xs d lt = get_or-take n i (drop from xs) d lt ∙ get_or-behind from i xs d

pub length-range_from : (k n : ℕ) → length (range_from k n) ≡ n
length-range_from k zero = refl
length-range_from k (suc n) = ap suc (length-range_from (suc k) n)

pub get_or-range_from : (k n i d : ℕ) → i < n → get_or (range_from k n) i d ≡ k + i
get_or-range_from k zero i d lt = absurd (omega (arith, lt))
get_or-range_from k (suc n) zero d lt = omega arith
get_or-range_from k (suc n) (suc i) d lt =
    get_or-range_from (suc k) n i d (omega (arith, lt)) ∙ omega arith
