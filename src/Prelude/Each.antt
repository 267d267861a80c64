-- ===== src/Prelude/Each.antt =====
-- A predicate of every element of a list.
use Prim.Native.Nat.{ℕ, zero, suc}
use mathlib.Core.Path.{◌≡◌, subst}
use mathlib.Core.Option.{some}
use mathlib.Core.List.{List, [], ◌∷◌, ◌++◌}
use rust_dag_executor.Prelude.Lists.{get_elem?, set, replicate}

pub data Each {ℓ κ} {A : Type ℓ} (P : A → Type κ) : List A → Type (ℓ ⊔ κ) where
  nil : Each P []
  cons : {a : A} {xs : List A} → P a → Each P xs → Each P (a ∷ xs)

module _ {ℓ κ} {A : Type ℓ} (P : A → Type κ) where
  pub Each-append : {xs ys : List A} → Each P xs → Each P ys → Each P (xs ++ ys)
  Each-append nil k = k
  Each-append (cons p h) k = cons p (Each-append h k)

  pub Each-replicate : (n : ℕ) {a : A} → P a → Each P (replicate n a)
  Each-replicate zero p = nil
  Each-replicate (suc n) p = cons p (Each-replicate n p)

  pub Each-at : {xs : List A} (i : ℕ) {a : A} → Each P xs → get_elem? xs i ≡ some a → P a
  Each-at i nil e = cc
  Each-at zero (cons p h) e = subst P (cc e) p
  Each-at (suc i) (cons p h) e = Each-at i h e

  pub Each-set : {xs : List A} (i : ℕ) {a : A} → Each P xs → P a → Each P (set xs i a)
  Each-set i nil q = nil
  Each-set zero (cons p h) q = cons q h
  Each-set (suc i) (cons p h) q = cons p (Each-set i h q)

  pub Each-head : {x : A} {xs : List A} → Each P (x ∷ xs) → P x
  Each-head (cons p h) = p

  pub Each-tail : {x : A} {xs : List A} → Each P (x ∷ xs) → Each P xs
  Each-tail (cons p h) = h
