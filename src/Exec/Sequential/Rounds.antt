-- ===== src/Exec/Sequential/Rounds.antt =====
-- The `while` loop of the sequential scheduler: a round keeps the invariant and finishes one more
-- node, so the loop ends within as many rounds as there are nodes.
use rust_dag_executor.Prelude.{
  ℕ, zero, suc, ◌+◌, ◌≤◌, ◌<◌, ◌≡◌, refl, sym, ap, ◌∙◌, List, [], ◌∷◌, true, none, some, inl, inr,
  arith, length, set, get_elem?-exists, List-cases,
}
use rust_dag_executor.Prelude.Result.{Result-cases}
use rust_dag_executor.Prelude.Outcome.{
  done, ◌>>=◌, Ensures, Ensures-bind, index-eq-done, index-at, assign-eq-done,
}
use rust_dag_executor.Graph.{NodeId, Node, Dag}
use rust_dag_executor.Graph.Semantics.{NodeAt, Eval, of_source, of_task}
use rust_dag_executor.Graph.Values.{NodeKind-cases}
use rust_dag_executor.Graph.WellFormed.{IsWellFormed}
use rust_dag_executor.Exec.Observe.{ExecObserver}
use rust_dag_executor.Exec.Common.{NodeValues, NeededMask, KahnMetadata}
use rust_dag_executor.Exec.Common.Needed.{marked, Needed-lt, IsNeededMask}
use rust_dag_executor.Exec.Common.Counters.{deps_at-eq, row, IsMetadata}
use rust_dag_executor.Exec.Scheduling.{Frontier, release_dependents}
use rust_dag_executor.Exec.Scheduling.Waiting.{undone, IsFrontier, release_dependents_lem}
use rust_dag_executor.Exec.Scheduling.Moving.{
  IsHeld, held, take_ready, settle, finished, finished-set, finished-lt, with_busy, HoldsValues,
  HoldsValues-set,
}
use rust_dag_executor.Exec.Scheduling.Finish.{IsFailure}
use rust_dag_executor.Exec.Scheduling.Arguments.{collect_args_lem}
use rust_dag_executor.Exec.Sequential.{Loop, compute, process, loop}

module _ {K O E : Type 0} (eq : Discrete K) (dag : Dag K O E) (wf : IsWellFormed eq dag)
    (outputs : List K) where
  module _ (needed : NeededMask) (mask : IsNeededMask eq dag wf outputs needed) where
    marked-lt : {i : NodeId} → marked needed i ≡ true → i < length dag.nodes
    marked-lt {i} on = Needed-lt eq dag wf outputs ((mask.exact i).0 on)

    -- The value of a node whose dependencies all have theirs.
    compute_lem :
        (id : NodeId) (node : Node K O E) (vals : NodeValues O)
        → NodeAt dag id node
        → HoldsValues dag vals
        → IsHeld dag needed vals id
        → Ensures
            (Eval dag id)
            (IsFailure eq dag outputs)
            (compute dag node.key node.deps vals node.kind)
    unfolding compute
    compute_lem id node vals at h held = elim (NodeKind-cases node.kind) [
      | inl (v, e) ↦ rw (e, compute) (of_source at e)
      | inr (f, e) ↦
          let (args, all, collected) =
            collect_args_lem dag vals h.sound node.deps
              (λ d m. omega (arith, wf.closed.bounded id at d m, h.size))
              (ap (undone vals) (sym (deps_at-eq dag id at)) ∙ held.free) in
          rw (e, compute, collected)
            (elim (Result-cases (f args)) [
              | inl (v, r) ↦ rw r (of_task at e all r)
              | inr (x, r) ↦ rw r (record {
                id = id;
                error = x;
                needed = (mask.exact id).0 held.wanted;
                fails = record {
                  node = node;
                  at = at;
                  function = f;
                  is_task = e;
                  args = args;
                  evaluated = all;
                  returns = r;
                };
                same = refl;
              })
            ])
    ]

    module _ {R : Type 0} (watch : ExecObserver R) (m : KahnMetadata)
        (counted : IsMetadata dag wf.closed needed mask.size m) where
      pub record IsRound (s : Loop O R) : Type 0 where
        pub frontier : IsFrontier dag needed s.vals (λ _. 0) [] s.frontier
        pub values : HoldsValues dag s.vals
        pub processed : s.processed ≡ finished (length dag.nodes) s.vals

      abbrev RoundAfter : Loop O R → Loop O R → Type 0
      RoundAfter s t = IsRound t × (t.processed ≡ s.processed + 1)

      process_lem :
          (s : Loop O R) (id : NodeId) (rest : List NodeId)
          → s.ready ≡ id ∷ rest
          → IsRound s
          → Ensures
              (RoundAfter s)
              (IsFailure eq dag outputs)
              (process dag watch m.dependents s id rest)
      unfolding process
      process_lem s id rest e h =
          let (node, at) = get_elem?-exists dag.nodes id lt in
          rw (index-at dag.nodes id at) (
            Ensures-bind (IsFailure eq dag outputs) (Eval dag id) (RoundAfter s)
              (compute dag node.key node.deps s.vals node.kind) _
              (compute_lem id node s.vals at h.values grip)
              λ v value.
                rw
                  (
                    assign-eq-done s.vals id (some v) (omega (arith, lt, h.values.size)),
                    index-eq-done m.dependents id [] (omega (arith, lt, counted.rows)),
                  )
                  (Ensures-bind (IsFailure eq dag outputs)
                    (IsFrontier dag needed (set s.vals id (some v)) (λ _. 0) []) (RoundAfter s)
                    (release_dependents watch (row m.dependents id) after) _
                    (release_dependents_lem dag needed watch (IsFailure eq dag outputs)
                      (row m.dependents id) after
                      (settle dag needed (λ _. 0) id v m.dependents after
                        (omega (arith, lt, h.values.size)) (counted.dependents id) taken))
                    λ frontier released. (
                      record {
                        frontier = released;
                        values = HoldsValues-set dag s.vals id v h.values lt value;
                        processed = omega (
                          arith,
                          h.processed,
                          finished-set (length dag.nodes) s.vals id v h.values.size lt grip.new,
                        );
                      },
                      refl,
                    )))
        where
          after : Frontier R
          after = record {
            indeg = s.indeg;
            ready = rest;
            observer = watch.mark_finish (watch.mark_start s.observer id none) id;
          }

          taken : IsFrontier dag needed s.vals (with_busy id (λ _. 0)) [] after
          taken = take_ready dag needed (λ _. 0) id rest s.frontier e h.frontier _

          grip : IsHeld dag needed s.vals id
          grip = held dag needed (λ _. 0) id after taken

          lt : id < length dag.nodes
          lt = marked-lt grip.wanted

      loop-empty :
          (fuel : ℕ) (s : Loop O R) → s.ready ≡ [] → loop dag watch m.dependents fuel s ≡ done s
      unfolding loop
      loop-empty zero s e = simp (e, loop)
      loop-empty (suc fuel) s e = simp (e, loop)

      loop-cons :
          (fuel : ℕ) (s : Loop O R) (id : NodeId) (rest : List NodeId)
          → s.ready ≡ id ∷ rest
          → loop dag watch m.dependents (suc fuel) s
            ≡ (process dag watch m.dependents s id rest >>= loop dag watch m.dependents fuel)
      unfolding loop
      loop-cons fuel s id rest e = simp (e, loop)

      -- A node that is ready is not finished.
      ready-new :
          (s : Loop O R) (id : NodeId) (rest : List NodeId)
          → s.ready ≡ id ∷ rest
          → IsRound s
          → s.processed < length dag.nodes
      ready-new s id rest e h =
          let taken = take_ready dag needed (λ _. 0) id rest s.frontier e h.frontier s.observer in
          let grip = held dag needed (λ _. 0) id _ taken in
          omega (
            arith,
            h.processed,
            finished-lt (length dag.nodes) s.vals id (marked-lt grip.wanted) grip.new,
          )

      -- With fuel for the nodes that are not finished the loop ends with an empty queue.
      pub loop_lem :
          (fuel : ℕ) (s : Loop O R)
          → IsRound s
          → length dag.nodes ≤ s.processed + fuel
          → Ensures
              (λ t. IsRound t × (t.ready ≡ []))
              (IsFailure eq dag outputs)
              (loop dag watch m.dependents fuel s)
      loop_lem zero s h enough = elim (List-cases s.ready) [
        | inl e ↦ rw (loop-empty zero s e) (h, e)
        | inr (id, rest, e) ↦ absurd (omega (arith, ready-new s id rest e h))
      ]
      loop_lem (suc fuel) s h enough = elim (List-cases s.ready) [
        | inl e ↦ rw (loop-empty (suc fuel) s e) (h, e)
        | inr (id, rest, e) ↦ rw (loop-cons fuel s id rest e) (
            Ensures-bind (IsFailure eq dag outputs) (RoundAfter s) (λ t. IsRound t × (t.ready ≡ []))
              (process dag watch m.dependents s id rest) (loop dag watch m.dependents fuel)
              (process_lem s id rest e h) λ t k. loop_lem fuel t k.0 (omega (arith, k.1)))
      ]
