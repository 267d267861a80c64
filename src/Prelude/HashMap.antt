-- ===== src/Prelude/HashMap.antt =====
-- `std::collections::HashMap` as far as the program uses it: `get`, `contains_key` and `insert`,
-- which overwrites. Iteration order plays no part, since the program never iterates over one.
use mathlib.Core.Path.{◌≡◌, refl, sym, ◌∙◌}
use mathlib.Core.Bool.{Bool}
use mathlib.Core.List.{List, [], ◌∷◌}
use mathlib.Core.Logic.{◌≢◌, ◌⊎◌, inl, inr, ite, if_pos, if_neg}
use mathlib.Core.Option.{Option, none, some}
use native.Mathlib.Omega.{arith}
use rust_dag_executor.Prelude.Tests.{is_some}

abbrev pub HashMap {ℓ} : Type ℓ → Type ℓ → Type ℓ
HashMap K V = List (K × V)

module _ {ℓ} {K V : Type ℓ} (eq : Discrete K) where
  unfoldable pub get : HashMap K V → K → Option V
  get [] k = none
  get ((j, v) ∷ m) k = ite (eq j k) (some v) (get m k)

  abbrev pub contains_key : HashMap K V → K → Bool
  contains_key m k = is_some (get m k)

  unfoldable pub insert : HashMap K V → K → V → HashMap K V
  insert [] k v = (k, v) ∷ []
  insert ((j, w) ∷ m) k v = ite (eq j k) ((k, v) ∷ m) ((j, w) ∷ insert m k v)

  pub get-nil : (k : K) → get [] k ≡ none
  unfolding get
  get-nil k = refl

  pub get-insert :
      (m : HashMap K V) (k : K) (v : V) (j : K)
      → get (insert m k v) j ≡ ite (eq k j) (some v) (get m j)
  unfolding get insert
  get-insert [] k v j = refl
  get-insert ((i, w) ∷ m) k v j = ground (arith, get-insert m k v j)

  pub get-insert_self :
      (m : HashMap K V) (k : K) (v : V) {j : K} → k ≡ j → get (insert m k v) j ≡ some v
  get-insert_self m k v {j} p = get-insert m k v j ∙ if_pos (eq k j) p _ _

  pub get-insert_ne :
      (m : HashMap K V) (k : K) (v : V) {j : K} → k ≢ j → get (insert m k v) j ≡ get m j
  get-insert_ne m k v {j} p = get-insert m k v j ∙ if_neg (eq k j) p _ _

  -- What a lookup after an insertion has found.
  pub get-insert_cases :
      (m : HashMap K V) (k : K) (v : V) (j : K) {w : V}
      → get (insert m k v) j ≡ some w
      → (k ≡ j) × (v ≡ w) ⊎ (k ≢ j) × (get m j ≡ some w)
  get-insert_cases m k v j h = elim (eq k j) [
    | yes p ↦ inl (p, cc (get-insert_self m k v p))
    | no p ↦ inr (p, sym (get-insert_ne m k v p) ∙ h)
  ]
