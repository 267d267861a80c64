-- ===== src/Exec/Common/Collect.antt =====
-- `collect_outputs` answers exactly the keys that were asked for, each with the value of its node.
use mathlib.Core.List.Memᴰ
use rust_dag_executor.Prelude.{
  ◌<◌, ◌≡◌, refl, sym, ap, ◌∙◌, subst, ◌⊎◌, inl, inr, List, [], ◌∷◌, none, some, length, get_or,
  Memᴰ,
}
use rust_dag_executor.Prelude.HashMap.{
  HashMap, get, insert, get-insert_self, get-insert_ne, get-insert_cases, get-nil,
}
use rust_dag_executor.Prelude.Outcome.{
  done, ◌>>=◌, Ensures, Ensures-mono, index, index-eq-done, or_fail, each_inv,
}
use rust_dag_executor.Error.{ExecError, output_missing}
use rust_dag_executor.Graph.{NodeId, Dag}
use rust_dag_executor.Graph.Semantics.{Eval}
use rust_dag_executor.Exec.Common.{NodeValues, collect_outputs}

module _ {K O E : Type 0} (eq : Discrete K) (dag : Dag K O E) (outputs : List K) where
  -- The answer to a request: a value for each key asked for, that of the key's node, and no other.
  pub record IsAnswer (out : HashMap K O) : Type 0 where
    pub sound :
        (k : K) (v : O)
        → get eq out k ≡ some v
        → Memᴰ k outputs × (i : NodeId) × (get eq dag.index k ≡ some i) × Eval dag i v
    pub full : (k : K) → Memᴰ k outputs → (v : O) × (get eq out k ≡ some v)

  module _ (Q : ExecError K E → Type 0) (vals : NodeValues O)
      (there : (k : K)
        → Memᴰ k outputs
        → (i : NodeId) × (get eq dag.index k ≡ some i)
          × (i < length vals)
          × (v : O) × (get_or vals i none ≡ some v)
          × Eval dag i v) where
    -- With the keys of `left` still to be collected.
    record IsCollected (left : List K) (out : HashMap K O) : Type 0 where
      part : (k : K) → Memᴰ k left → Memᴰ k outputs
      sound :
          (k : K) (v : O)
          → get eq out k ≡ some v
          → Memᴰ k outputs × (i : NodeId) × (get eq dag.index k ≡ some i) × Eval dag i v
      full : (k : K) → Memᴰ k outputs → Memᴰ k left ⊎ ((v : O) × (get eq out k ≡ some v))

    IsCollected-insert :
        (k : K) (left : List K) (out : HashMap K O) (i : NodeId) (v : O)
        → IsCollected (k ∷ left) out
        → get eq dag.index k ≡ some i
        → Eval dag i v
        → IsCollected left (insert eq out k v)
    IsCollected-insert k left out i v h at value = record {
      part = λ j m. h.part j (Memᴰ.tail m);
      sound = λ j w found. elim (get-insert_cases eq out k v j found) [
        | inl (same, e) ↦ (
          subst (λ k. Memᴰ k outputs) same (h.part k (Memᴰ.head refl)),
          i,
          ap (get eq dag.index) (sym same) ∙ at,
          subst (Eval dag i) e value,
        )
        | inr (_, old) ↦ h.sound j w old
      ];
      full = λ j m. elim (eq k j) [
        | yes same ↦ inr (v, get-insert_self eq out k v same)
        | no other ↦ elim (h.full j m) [
          | inl waiting ↦ elim (Memᴰ.cases_cons waiting) [
            | inl here ↦ absurd (other (sym here))
            | inr below ↦ inl below
          ]
          | inr (w, found) ↦ inr (w, get-insert_ne eq out k v other ∙ found)
        ]
      ];
    }

    collect_round :
        (k : K) (left : List K) (out : HashMap K O)
        → IsCollected (k ∷ left) out
        → Ensures (IsCollected left) Q (do
          id ← or_fail (get eq dag.index k) (output_missing k)
          v ← index vals id
          value ← or_fail v (output_missing k)
          done (insert eq out k value))
    collect_round k left out h =
        let (i, at, lt, v, found, value) = there k (h.part k (Memᴰ.head refl)) in
        rw at (
          rw (index-eq-done vals i none lt)
            (rw found (IsCollected-insert k left out i v h at value)))

    pub collect_outputs_lem : Ensures IsAnswer Q (collect_outputs eq dag vals outputs)
    unfolding collect_outputs
    collect_outputs_lem =
        Ensures-mono Q (IsCollected []) IsAnswer _
          (each_inv Q IsCollected _ collect_round outputs [] start)
          λ out h. record {
            sound = h.sound;
            full = λ k m. elim (h.full k m) [
              | inl left ↦ absurd (Memᴰ.not-nil left)
              | inr found ↦ found
            ];
          }
      where
        start : IsCollected outputs []
        start = record {
          part = λ k m. m;
          sound = λ k v found. cc (get-nil eq k);
          full = λ k m. inl m;
        }
