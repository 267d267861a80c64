-- ===== src/Prelude/Members.antt =====
-- Membership as evidence: the library's `Memᴰ`, and its link to counting.
use Prim.Native.Nat.{ℕ, zero, suc, ◌<◌}
use mathlib.Core.Path.{◌≡◌, sym, ap}
use mathlib.Core.Logic.{◌↔◌, ◌⊎◌, ⊎_elim}
use mathlib.Core.List.{List, [], ◌∷◌, Memᴰ}
use mathlib.Core.List.Memᴰ
use mathlib.Core.Option.{some}
use native.Mathlib.Omega.{arith}
use native.Mathlib.Decide.{ℕ_discrete}
use rust_dag_executor.Prelude.Lists.{get_elem?}
use rust_dag_executor.Prelude.Count.{count}

pub Memᴰ-cons {ℓ} : {A : Type ℓ} (a x : A) (xs : List A) → Memᴰ a (x ∷ xs) ↔ ((a ≡ x) ⊎ Memᴰ a xs)
Memᴰ-cons a x xs = (Memᴰ.cases_cons, ⊎_elim Memᴰ.head Memᴰ.tail)

pub not-Memᴰ-nil {ℓ} : {A : Type ℓ} (a : A) → Memᴰ a [] → ⊥
not-Memᴰ-nil a m = Memᴰ.not-nil m

pub count-pos_of_Memᴰ : {a : ℕ} {xs : List ℕ} → Memᴰ a xs → 0 < count a xs
count-pos_of_Memᴰ (Memᴰ.head e) = ground arith
count-pos_of_Memᴰ (Memᴰ.tail m) = omega (arith, count-pos_of_Memᴰ m)

pub Memᴰ_of_count-pos : (a : ℕ) (xs : List ℕ) → 0 < count a xs → Memᴰ a xs
Memᴰ_of_count-pos a [] h = absurd (omega arith)
Memᴰ_of_count-pos a (x ∷ xs) h = elim (ℕ_discrete x a) [
  | yes e ↦ Memᴰ.head (sym e)
  | no n ↦ Memᴰ.tail (Memᴰ_of_count-pos a xs (ground arith))
]

pub Memᴰ-get_elem? {ℓ} :
    {A : Type ℓ} {a : A} {xs : List A} → Memᴰ a xs → (i : ℕ) × (get_elem? xs i ≡ some a)
Memᴰ-get_elem? (Memᴰ.head e) = (zero, ap some (sym e))
Memᴰ-get_elem? (Memᴰ.tail m) = let (i, at) = Memᴰ-get_elem? m in (suc i, at)
