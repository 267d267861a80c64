-- ===== src/Prelude/Result.antt =====
-- Rust's `Result`, and its `?` as a bind.
use mathlib.Core.Path.{◌≡◌, refl, ap}
use mathlib.Core.Logic.{◌⊎◌, inl, inr}
use mathlib.Core.Option.{Option, none, some}

pub data Result {ℓ κ} (A : Type ℓ) (X : Type κ) : Type (ℓ ⊔ κ) where
  ok : A → Result A X
  err : X → Result A X

infixl 5 ◌>>=◌
abbrev pub ◌>>=◌ {ℓ κ ι} :
    {A : Type ℓ} {B : Type κ} {X : Type ι} → Result A X → (A → Result B X) → Result B X
ok a >>= f = f a
err x >>= f = err x

-- `ok_or_else`
abbrev pub ok_or {ℓ κ} : {A : Type ℓ} {X : Type κ} → Option A → X → Result A X
ok_or none x = err x
ok_or (some a) x = ok a

-- Inversion of a bind.
module _ {ℓ κ ι} {A : Type ℓ} {B : Type κ} {X : Type ι} where
  pub >>=-eq-ok :
      (first : Result A X) (next : A → Result B X) {b : B}
      → (first >>= next) ≡ ok b
      → (a : A) × (first ≡ ok a) × (next a ≡ ok b)
  >>=-eq-ok (ok a) next e = (a, refl, e)
  >>=-eq-ok (err x) next e = cc

  pub >>=-eq-err :
      (first : Result A X) (next : A → Result B X) {x : X}
      → (first >>= next) ≡ err x
      → (first ≡ err x) ⊎ ((a : A) × (first ≡ ok a) × (next a ≡ err x))
  >>=-eq-err (ok a) next e = inr (a, refl, e)
  >>=-eq-err (err y) next e = inl (ap err (cc))

module _ {ℓ κ} {A : Type ℓ} {X : Type κ} where
  pub Result-cases : (m : Result A X) → ((a : A) × (m ≡ ok a)) ⊎ ((x : X) × (m ≡ err x))
  Result-cases (ok a) = inl (a, refl)
  Result-cases (err x) = inr (x, refl)
