-- ===== src/Exec/Sequential/Observed.antt =====
-- What an observer of the sequential executor can rely on: an invariant of its state and of the values
-- that is kept where a node gets ready, and where a node runs, holds after the call.
use rust_dag_executor.Prelude.{
  ℕ, zero, suc, ◌<◌, ◌≡◌, sym, ap, ◌∙◌, subst, List, true, none, some, inl, inr, arith, length,
  is_empty, replicate, set, Memᴰ, Bool-cases, List-cases, ◌==◌, length-set, not, get_elem?-eq-some,
  range_from,
}
use rust_dag_executor.Prelude.Outcome.{
  index, assign, decrement, Ensures-done, Partial, Partial-bind, Partial-done, index-done,
  assign-done, each-Partial,
}
use rust_dag_executor.Error.{ExecError}
use rust_dag_executor.Graph.{NodeId, Node, Dag}
use rust_dag_executor.Graph.Semantics.{NodeAt}
use rust_dag_executor.Graph.WellFormed.{IsClosed, IsWellFormed}
use rust_dag_executor.Exec.Observe.{ExecObserver}
use rust_dag_executor.Exec.Common.{NodeValues, NeededMask, mark_needed, build_kahn_metadata}
use rust_dag_executor.Exec.Common.Needed.{IsNeededMask, IsMissing, mark_needed_lem}
use rust_dag_executor.Exec.Common.Counters.{IsMetadata, build_kahn_metadata_lem}
use rust_dag_executor.Exec.Scheduling.{
  Frontier, push_ready, seed_round, seed, release_round, release_dependents, remaining,
}
use rust_dag_executor.Exec.Scheduling.Waiting.{has_value}
use rust_dag_executor.Exec.Sequential.{Loop, Execution, compute, process, loop, finish, execute}
use rust_dag_executor.Exec.Sequential.Valued.{Valued, compute-Valued}

module _ {K O E R : Type 0} (dag : Dag K O E) (watch : ExecObserver R)
    (Seen : NodeValues O → R → Type 0) where
  pub record IsKept : Type 0 where
    pub ready :
        (vals : NodeValues O) (r : R) (i : NodeId) (w : ℕ)
        → i < length dag.nodes
        → Seen vals r
        → Seen vals (watch.mark_ready r i w)
    pub ran :
        (vals : NodeValues O) (r : R) (i : NodeId) (v : O) (node : Node K O E)
        → NodeAt dag i node
        → ((d : NodeId) → Memᴰ d node.deps → has_value vals d ≡ true)
        → Seen vals r
        → Seen (set vals i (some v)) (watch.mark_finish (watch.mark_start r i none) i)

  module _ (kept : IsKept) where
    abbrev Holds : NodeValues O → Frontier R → Type 0
    Holds vals f = (length f.indeg ≡ length dag.nodes) × Seen vals f.observer

    push_ready-Holds :
        (vals : NodeValues O) (f : Frontier R) (i : NodeId)
        → i < length dag.nodes
        → Holds vals f
        → Holds vals (push_ready watch f i)
    unfolding push_ready
    push_ready-Holds vals f i lt h = (h.0, kept.ready vals f.observer i _ lt h.1)

    seed_round-Holds :
        (X : Type 0) (needed : NeededMask) (vals : NodeValues O) (f : Frontier R) (i : NodeId)
        → Holds vals f
        → Partial {X = X} (Holds vals) (seed_round watch needed f i)
    unfolding seed_round
    seed_round-Holds X needed vals f i h = Partial-bind (Holds vals) (index needed i) _ λ on _.
        elim (Bool-cases (not on)) [
          | inl skip ↦ rw skip h
          | inr take ↦ rw take (
              Partial-bind (Holds vals) (index f.indeg i) _ λ d e. elim (Bool-cases (d == 0)) [
                | inl is_zero ↦ rw is_zero (
                    push_ready-Holds vals f i
                      (omega
                        (arith, h.0, get_elem?-eq-some f.indeg i (index-done {X = X} f.indeg i e)))
                      h)
                | inr more ↦ rw more h
              ])
        ]

    pub seed-Holds :
        (X : Type 0) (needed : NeededMask) (vals : NodeValues O) (f : Frontier R)
        → Holds vals f
        → Partial {X = X} (Holds vals) (seed watch needed f)
    unfolding seed
    seed-Holds X needed vals f h =
        each-Partial (Holds vals) (seed_round watch needed)
          (λ s i k. seed_round-Holds X needed vals s i k) (range_from 0 (length needed)) f h

    release_round-Holds :
        (X : Type 0) (vals : NodeValues O) (f : Frontier R) (i : NodeId)
        → Holds vals f
        → Partial {X = X} (Holds vals) (release_round watch f i)
    unfolding release_round
    release_round-Holds X vals f i h = Partial-bind (Holds vals) (index f.indeg i) _ λ d _.
        Partial-bind (Holds vals) (decrement d) _ λ left _.
          Partial-bind (Holds vals) (assign f.indeg i left) _ λ indeg e.
            let (same, lt) = assign-done f.indeg i left e in
            let size : length indeg ≡ length dag.nodes =
              ap length same ∙ length-set f.indeg i left ∙ h.0 in
            elim (Bool-cases (left == 0)) [
              | inl is_zero ↦ rw is_zero (
                  push_ready-Holds vals (record f { indeg = indeg }) i (omega (arith, lt, h.0))
                    (size, h.1))
              | inr more ↦ rw more (size, h.1)
            ]

    pub release_dependents-Holds :
        (X : Type 0) (vals : NodeValues O) (released : List NodeId) (f : Frontier R)
        → Holds vals f
        → Partial {X = X} (Holds vals) (release_dependents watch released f)
    unfolding release_dependents
    release_dependents-Holds X vals released f h =
        each-Partial (Holds vals) (release_round watch) (λ s i k. release_round-Holds X vals s i k)
          released f h

    abbrev HoldsLoop : Loop O R → Type 0
    HoldsLoop s = Holds s.vals s.frontier

    process-Holds :
        IsClosed dag
        → (dependents : List (List NodeId)) (s : Loop O R) (id : NodeId) (rest : List NodeId)
        → HoldsLoop s
        → Partial {X = ExecError K E} HoldsLoop (process dag watch dependents s id rest)
    unfolding process
    process-Holds closed dependents s id rest h =
        Partial-bind HoldsLoop (index dag.nodes id) _ λ node e.
          let at = index-done {X = ExecError K E} dag.nodes id e in
          Partial-bind HoldsLoop (compute dag node.key node.deps s.vals node.kind) _ λ v computed.
            let valued =
              Partial-done (λ _. Valued dag closed s.vals node.deps)
                (compute dag node.key node.deps s.vals node.kind)
                (compute-Valued dag closed s.vals id node at) computed in
            Partial-bind HoldsLoop (assign s.vals id (some v)) _ λ vals written.
              let same : set s.vals id (some v) ≡ vals =
                sym (assign-done {X = ExecError K E} s.vals id (some v) written).0 in
              Partial-bind HoldsLoop (index dependents id) _ λ released _.
                Partial-bind HoldsLoop (release_dependents watch released _) _ λ f after.
                  Partial-done (Holds vals) _
                    (release_dependents-Holds (ExecError K E) vals released _ (
                      h.0,
                      subst
                          (λ vals.
                            Seen vals (watch.mark_finish (watch.mark_start s.observer id none) id))
                          same (kept.ran s.vals s.observer id v node at valued h.1),
                    ))
                    after

    loop-Holds :
        IsClosed dag
        → (dependents : List (List NodeId)) (fuel : ℕ) (s : Loop O R) → HoldsLoop s
        → Partial {X = ExecError K E} HoldsLoop (loop dag watch dependents fuel s)
    unfolding loop
    loop-Holds closed dependents zero s h = elim (List-cases s.ready) [
      | inl e ↦ rw (e, loop) h
      | inr (_, _, e) ↦ rw (e, loop) tt
    ]
    loop-Holds closed dependents (suc fuel) s h = elim (List-cases s.ready) [
      | inl e ↦ rw (e, loop) h
      | inr (id, rest, e) ↦
          rw (e, loop)
            (Partial-bind HoldsLoop (process dag watch dependents s id rest) _ λ t went.
              loop-Holds closed dependents fuel t (
                Partial-done HoldsLoop (process dag watch dependents s id rest)
                  (process-Holds closed dependents s id rest h) went))
    ]

    -- On a well-formed graph, what the observer has seen holds of the values that `execute` returns.
    pub execute-Seen :
        (eq : Discrete K) (wf : IsWellFormed eq dag) (outputs : List K) (r : R)
        → Seen (replicate (length dag.nodes) none) r
        → Partial (λ e. Seen e.vals e.observer) (execute eq dag watch outputs r)
    unfolding execute finish
    execute-Seen eq wf outputs r h = elim (Bool-cases (is_empty outputs)) [
      | inl none_asked ↦ rw none_asked tt
      | inr some_asked ↦ rw some_asked (
          Partial-bind Good (mark_needed eq dag outputs) _ λ needed marked.
            let mask =
              Ensures-done (IsNeededMask eq dag wf outputs) (IsMissing eq dag outputs)
                (mark_needed eq dag outputs) (mark_needed_lem eq dag wf outputs) marked in
            Partial-bind Good (build_kahn_metadata dag needed) _ λ m built.
              let counted =
                Ensures-done (IsMetadata dag wf.closed needed mask.size) (λ _. ⊥)
                  (build_kahn_metadata dag needed)
                  (build_kahn_metadata_lem dag wf.closed needed mask.size (λ _. ⊥)) built in
              Partial-bind Good (seed watch needed _) _ λ f seeded.
                Partial-bind Good (loop dag watch m.dependents (length dag.nodes) _) _ λ s looped.
                  let end =
                    Partial-done HoldsLoop _
                      (loop-Holds wf.closed m.dependents (length dag.nodes) _ (
                        Partial-done (Holds (replicate (length dag.nodes) none)) _
                          (seed-Holds (ExecError K E) needed (replicate (length dag.nodes) none) _
                            (counted.counters, h))
                          seeded))
                      looped in
                  elim (Bool-cases (s.processed == m.needed_count)) [
                    | inl all ↦ rw all (end.1)
                    | inr some_left ↦
                        rw some_left
                          (Partial-bind Good (remaining dag needed s.indeg) _ λ keys _. tt)
                  ])
    ]
      where
        Good : Execution O R → Type 0
        Good e = Seen e.vals e.observer
