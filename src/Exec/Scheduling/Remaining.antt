-- ===== src/Exec/Scheduling/Remaining.antt =====
-- `remaining` lists the keys of exactly the needed nodes whose counter is not 0.
use mathlib.Core.List.Memᴰ
use rust_dag_executor.Prelude.{
  ℕ, suc, ◌<◌, ◌≡◌, sym, ap, subst, List, [], ◌∷◌, ◌++◌, true, false, inl, inr, arith, ◌==◌, length,
  get_or, Bool-cases, Memᴰ, get_elem?-exists, ℕ_discrete,
}
use rust_dag_executor.Prelude.Outcome.{Ensures, index-eq-done, index-at, range_inv}
use rust_dag_executor.Error.{ExecError}
use rust_dag_executor.Graph.{NodeId, Node, Dag}
use rust_dag_executor.Graph.Semantics.{NodeAt, NodeAt-unique}
use rust_dag_executor.Exec.Common.{NeededMask}
use rust_dag_executor.Exec.Common.Needed.{marked}
use rust_dag_executor.Exec.Scheduling.{remaining_round, remaining}

module _ {K O E : Type 0} (dag : Dag K O E) (needed : NeededMask) (indeg : List ℕ)
    (size : length needed ≡ length dag.nodes) (counters : length indeg ≡ length dag.nodes) where
  -- Node `i` is needed and still waits.
  pub record IsWaiting (i : NodeId) (node : Node K O E) : Type 0 where
    pub at : NodeAt dag i node
    pub wanted : marked needed i ≡ true
    pub waits : 0 < get_or indeg i 0

  -- With the nodes below `k` looked at.
  pub record IsListed (k : ℕ) (keys : List K) : Type 0 where
    pub sound :
        (key : K)
        → Memᴰ key keys
        → (i : NodeId) × (node : Node K O E) × IsWaiting i node × (node.key ≡ key)
    pub full : (i : NodeId) (node : Node K O E) → i < k → IsWaiting i node → Memᴰ node.key keys

  IsListed-skip :
      (k : ℕ) (keys : List K)
      → IsListed k keys
      → ((node : Node K O E) → IsWaiting k node → ⊥)
      → IsListed (suc k) keys
  IsListed-skip k keys h off = record {
    sound = h.sound;
    full = λ i node lt w. elim (ℕ_discrete i k) [
      | yes e ↦ absurd (off node (subst (λ i. IsWaiting i node) e w))
      | no n ↦ h.full i node (omega arith) w
    ];
  }

  IsListed-push :
      (k : ℕ) (keys : List K) (node : Node K O E)
      → IsListed k keys
      → IsWaiting k node
      → IsListed (suc k) (keys ++ node.key ∷ [])
  IsListed-push k keys node h w = record {
    sound = λ key m. elim (Memᴰ.append_cases keys m) [
      | inl old ↦ h.sound key old
      | inr last ↦ (k, node, w, sym (Memᴰ.eq_of_singleton last))
    ];
    full = λ i other lt w'. elim (ℕ_discrete i k) [
      | yes e ↦ Memᴰ.append_right keys (
          Memᴰ.head
            (ap (λ n. n.key) (NodeAt-unique dag k (subst (λ i. NodeAt dag i other) e w'.at) w.at)))
      | no n ↦ Memᴰ.append_left (node.key ∷ []) (h.full i other (omega arith) w')
    ];
  }

  module _ (Q : ExecError K E → Type 0) where
    remaining_round_lem :
        (k : ℕ) (keys : List K)
        → k < length needed
        → IsListed k keys
        → Ensures (IsListed (suc k)) Q (remaining_round dag needed indeg keys k)
    unfolding remaining_round
    remaining_round_lem k keys lt h = elim (Bool-cases (marked needed k)) [
      | inr off ↦
          rw (index-eq-done needed k false lt, off) (IsListed-skip k keys h (λ node w. cc w.wanted))
      | inl on ↦
          let (node, at) = get_elem?-exists dag.nodes k (omega (arith, size)) in
          rw
            (
              index-eq-done needed k false lt,
              on,
              index-eq-done indeg k 0 (omega (arith, counters, size)),
            )
            (elim (Bool-cases (get_or indeg k 0 == 0)) [
              | inl free ↦ rw free (IsListed-skip k keys h (λ node w. ground (arith, w.waits)))
              | inr waits ↦
                  rw (waits, index-at dag.nodes k at)
                    (IsListed-push k keys node h
                      (record { at = at; wanted = on; waits = ground arith }))
            ])
    ]

    pub remaining_lem : Ensures (IsListed (length needed)) Q (remaining dag needed indeg)
    unfolding remaining
    remaining_lem =
        range_inv Q (length needed) IsListed (remaining_round dag needed indeg)
          (λ k keys lt h. remaining_round_lem k keys lt h) (length needed) 0 [] (omega arith)
          (record { sound = λ key m. absurd (Memᴰ.not-nil m); full = λ i node lt w. elim lt [ ] })
