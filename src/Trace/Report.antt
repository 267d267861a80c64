-- ===== src/Trace/Report.antt =====
-- `finalize`: the report of what was recorded.
use rust_dag_executor.Prelude.{
  ℕ, zero, suc, ◌+◌, ◌-◌, ◌≤◌, ◌<◌, ◌≡◌, refl, ap, ◌∙◌, List, [], ◌∷◌, ◌++◌, true, false, none, inl,
  inr, arith, length, bit, get_or, count, Memᴰ, ◌==◌, if◌then◌else◌, get_or-set, length-set,
  Bool-cases, not, get_or-replicate, length-replicate, get_elem?-exists, ℕ_discrete,
}
use rust_dag_executor.Prelude.Outcome.{
  Ensures, Ensures-bind, Ensures-mono, each, each_inv, index-at, index-eq-done, assign-eq-done,
}
use rust_dag_executor.Graph.{NodeId, Dag}
use rust_dag_executor.Graph.WellFormed.{IsClosed}
use rust_dag_executor.Exec.Common.{NodeValues, NeededMask}
use rust_dag_executor.Exec.Common.Needed.{marked}
use rust_dag_executor.Exec.Scheduling.Waiting.{has_value}
use rust_dag_executor.Trace.{
  Duration, NodeTrace, ExecutionTrace, TraceObserver, Tally, longest_parent, finalize_round,
  finalize,
}
use rust_dag_executor.Trace.Recorded.{begin, stop, IsClock, IsRecorded}

-- The nodes that a report is about.
abbrev pub reported : {K : Type 0} → List (NodeTrace K) → List NodeId
reported [] = []
reported (n ∷ nodes) = n.node_id ∷ reported nodes

pub count-reported :
    {K : Type 0} (i : NodeId) (ns : List (NodeTrace K)) (n : NodeTrace K)
    → count i (reported (ns ++ n ∷ [])) ≡ count i (reported ns) + bit (n.node_id == i)
count-reported i [] n = omega arith
count-reported i (m ∷ ns) n = omega (arith, count-reported i ns n)

module _ {K : Type 0} where
  -- A report has each needed node once, and no other. Its critical path is not longer than the run.
  pub record IsReport (needed : NeededMask) (trace : ExecutionTrace K) : Type 0 where
    pub once : (i : NodeId) → count i (reported trace.nodes) ≡ bit (marked needed i)
    pub critical : trace.critical_path_time ≤ trace.wall_time

pub shown :
    (needed : NeededMask) (id i : NodeId) (left : List NodeId)
    → not (marked needed id) ≡ false
    → (if marked needed i then count i (id ∷ left) else 0)
      ≡ bit (id == i) + (if marked needed i then count i left else 0)
shown needed id i left take = elim (ℕ_discrete id i) [
  | yes same ↦ ground (arith, ap (marked needed) same)
  | no differ ↦ ground arith
]

has_value-lt :
    {O : Type 0} (vals : NodeValues O) (i : NodeId) → has_value vals i ≡ true → i < length vals
has_value-lt [] i e = cc
has_value-lt (x ∷ vals) zero e = omega arith
has_value-lt (x ∷ vals) (suc i) e = omega (arith, has_value-lt vals i e)

module _ {K O E : Type 0} (X : Type 0) (clock : ℕ → Duration) (mono : IsClock clock)
    (dag : Dag K O E) (closed : IsClosed dag) (needed : NeededMask)
    (size : length needed ≡ length dag.nodes) (vals : NodeValues O) (t : TraceObserver)
    (h : IsRecorded clock mono dag vals t) where
  abbrev ends : NodeId → Duration
  ends = stop t.started_at t.finished_at

  -- No path is longer than the time to the end of its last node.
  pub record IsTally (left : List NodeId) (s : Tally K) : Type 0 where
    pub paths_size : length s.longest_path ≡ length dag.nodes
    pub paths : (i : NodeId) → get_or s.longest_path i 0 ≤ ends i
    pub critical : s.critical_path_time ≤ clock t.readings
    pub rest : (i : NodeId) → count i left ≤ bit (has_value vals i)
    pub once :
        (i : NodeId)
        → count i (reported s.nodes) + (if marked needed i then count i left else 0)
          ≡ (if marked needed i then bit (has_value vals i) else 0)

  longest_parent_lem :
      (paths : List Duration) (b : Duration)
      → length paths ≡ length dag.nodes
      → (deps : List NodeId)
      → ((d : NodeId) → Memᴰ d deps → (d < length dag.nodes) × (get_or paths d 0 ≤ b))
      → Ensures {X = X} (λ p. p ≤ b) (λ _. ⊥) (longest_parent clock dag needed t paths deps)
  unfolding longest_parent
  longest_parent_lem paths b paths_size deps bounded =
      Ensures-mono (λ _. ⊥)
        (λ p.
          (p ≤ b) × ((d : NodeId) → Memᴰ d [] → (d < length dag.nodes) × (get_or paths d 0 ≤ b)))
        (λ p. p ≤ b) (longest_parent clock dag needed t paths deps)
        (each_inv (λ _. ⊥)
          (λ left p.
            (p ≤ b)
            × ((d : NodeId) → Memᴰ d left → (d < length dag.nodes) × (get_or paths d 0 ≤ b)))
          _
          (λ d left p k.
            let (lt, le) = k.1 d (Memᴰ.head refl) in
            let rest : (e : NodeId)
                → Memᴰ e left
                → (e < length dag.nodes) × (get_or paths e 0 ≤ b) =
              λ e m. k.1 e (Memᴰ.tail m) in
            rw (index-eq-done needed d false (omega (arith, lt, size)))
              (elim (Bool-cases (not (marked needed d))) [
                | inl skip ↦ rw skip (k.0, rest)
                | inr take ↦
                    rw (take, index-eq-done paths d 0 (omega (arith, lt, paths_size)))
                      (ground (arith, k.0, le), rest)
              ]))
          deps 0 (omega arith, bounded))
        λ p k. k.0

  finalize_round_lem :
      (id : NodeId) (left : List NodeId) (s : Tally K)
      → IsTally (id ∷ left) s
      → Ensures {X = X} (IsTally left) (λ _. ⊥) (finalize_round clock dag needed t s id)
  unfolding finalize_round
  finalize_round_lem id left s k =
      let met : has_value vals id ≡ true = ground (arith, k.rest id) in
      let lt : id < length dag.nodes = omega (arith, has_value-lt vals id met, h.values) in
      let fewer : (i : NodeId) → count i left ≤ bit (has_value vals i) =
        λ i. omega (arith, k.rest i) in
      let (node, at) = get_elem?-exists dag.nodes id lt in
      rw (index-eq-done needed id false (omega (arith, lt, size)))
        (elim (Bool-cases (not (marked needed id))) [
          | inl skip ↦ rw skip (record {
            paths_size = k.paths_size;
            paths = k.paths;
            critical = k.critical;
            rest = fewer;
            once = λ i. ground (arith, k.once i, skip);
          })
          | inr take ↦
              rw
                (
                  take,
                  index-eq-done t.started_at id none (omega (arith, lt, h.started_size)),
                  index-eq-done t.finished_at id none (omega (arith, lt, h.finished_size)),
                  index-at dag.nodes id at,
                )
                (Ensures-bind (λ _. ⊥) (λ p. p ≤ begin t.started_at id) (IsTally left)
                  (longest_parent clock dag needed t s.longest_path node.deps) _
                  (longest_parent_lem s.longest_path (begin t.started_at id) k.paths_size node.deps
                    λ d m. (
                      closed.bounded id at d m,
                      omega (arith, k.paths d, (h.after id at met d m).1),
                    ))
                  λ p le.
                    rw
                      (
                        assign-eq-done s.longest_path id (p + (ends id - begin t.started_at id))
                            (omega (arith, lt, k.paths_size)),
                        index-eq-done t.ready_at id none (omega (arith, lt, h.ready_size)),
                        index-eq-done t.worker_id id none (omega (arith, lt, h.worker_size)),
                      )
                      (let short : p + (ends id - begin t.started_at id) ≤ ends id =
                          omega (arith, le, h.ordered id) in
                        record {
                          paths_size = length-set s.longest_path id _ ∙ k.paths_size;
                          paths = λ i. ground (
                            arith,
                            get_or-set s.longest_path id (p + (ends id - begin t.started_at id)) i 0
                                (omega (arith, lt, k.paths_size)),
                            k.paths i,
                            short,
                          );
                          critical = ground (arith, k.critical, short, h.past id);
                          rest = fewer;
                          once = λ i. omega (
                            arith,
                            count-reported i s.nodes _,
                            k.once i,
                            shown needed id i left take,
                          );
                        }))
        ])

  -- The report of a run that found the values of the needed nodes, and of no other.
  pub finalize_lem :
      ((i : NodeId) → has_value vals i ≡ marked needed i)
      → Ensures {X = X} (IsReport needed) (λ _. ⊥) (finalize clock dag needed t)
  unfolding finalize
  finalize_lem exact =
      Ensures-bind (λ _. ⊥) (IsTally []) (IsReport needed)
        (each (finalize_round clock dag needed t) _ t.execution_order) _
        (each_inv (λ _. ⊥) IsTally (finalize_round clock dag needed t)
          (λ id left s k. finalize_round_lem id left s k) t.execution_order _
          (record {
            paths_size = length-replicate _ _;
            paths = λ i. omega (arith, get_or-replicate {A = ℕ} (length dag.nodes) 0 i);
            critical = omega arith;
            rest = λ i. omega (arith, h.listed i);
            once = λ i. ground (arith, h.listed i);
          }))
        λ s k. (record { once = λ i. ground (arith, k.once i, exact i); critical = k.critical })
