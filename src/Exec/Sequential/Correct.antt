-- ===== src/Exec/Sequential/Correct.antt =====
-- The sequential executor from end to end: what a request comes to.
use rust_dag_executor.Prelude.{
  ◌<◌, ◌≡◌, ◌≢◌, refl, sym, ◌∙◌, List, [], Option, none, some, inl, inr, arith, length, is_empty,
  is_empty-eq-nil, replicate, get_or, Bool-cases, Memᴰ, ◌==◌, get_or-replicate, length-replicate,
}
use rust_dag_executor.Prelude.HashMap.{get}
use rust_dag_executor.Prelude.Outcome.{◌>>=◌, Ensures, Ensures-bind, Ensures-weaken}
use rust_dag_executor.Error.{ExecError, cycle, internal_invariant}
use rust_dag_executor.Graph.{NodeId, Dag}
use rust_dag_executor.Graph.Semantics.{Needed, root, Eval}
use rust_dag_executor.Graph.WellFormed.{IsWellFormed}
use rust_dag_executor.Exec.Observe.{ExecObserver, noop_observer}
use rust_dag_executor.Exec.Common.{
  NodeValues, NeededMask, KahnMetadata, mark_needed, build_kahn_metadata,
}
use rust_dag_executor.Exec.Common.Needed.{IsNeededMask, IsMissing, mark_needed_lem, Needed-lt}
use rust_dag_executor.Exec.Common.Counters.{IsMetadata, build_kahn_metadata_lem}
use rust_dag_executor.Exec.Common.Collect.{IsAnswer, collect_outputs_lem}
use rust_dag_executor.Exec.Scheduling.{Frontier, seed, remaining}
use rust_dag_executor.Exec.Scheduling.Waiting.{IsFrontier}
use rust_dag_executor.Exec.Scheduling.Moving.{finished-replicate}
use rust_dag_executor.Exec.Scheduling.Seeding.{seed_lem}
use rust_dag_executor.Exec.Scheduling.Remaining.{IsListed, remaining_lem}
use rust_dag_executor.Exec.Scheduling.Finish.{IsFailure, IsCycle, IsComplete, complete, stuck}
use rust_dag_executor.Exec.Sequential.{Loop, Execution, loop, finish, execute, run}
use rust_dag_executor.Exec.Sequential.Rounds.{IsRound, loop_lem}

module _ {K O E : Type 0} (eq : Discrete K) (dag : Dag K O E) (outputs : List K) where
  -- The errors of a request, each with what it means.
  pub data IsExecError (x : ExecError K E) : Type 0 where
    no_outputs : outputs ≡ [] → x ≡ internal_invariant "outputs must be non-empty" → IsExecError x
    missing : IsMissing eq dag outputs x → IsExecError x
    failure : IsFailure eq dag outputs x → IsExecError x
    cyclic : (keys : List K) → IsCycle eq dag outputs keys → x ≡ cycle keys → IsExecError x

  module _ (wf : IsWellFormed eq dag) {R : Type 0} (watch : ExecObserver R) where
    -- A run that succeeds has the values of exactly the needed nodes, and their mask.
    abbrev pub Succeeds : Execution O R → Type 0
    Succeeds e = IsNeededMask eq dag wf outputs e.needed × IsComplete eq dag outputs e.vals

    finish_lem :
        (needed : NeededMask) (mask : IsNeededMask eq dag wf outputs needed) (m : KahnMetadata)
        (counted : IsMetadata dag wf.closed needed mask.size m) (s : Loop O R)
        → IsRound eq dag wf outputs needed mask watch m counted s
        → s.ready ≡ []
        → Ensures Succeeds IsExecError (finish eq dag watch needed m.needed_count s)
    unfolding finish
    finish_lem needed mask m counted s h empty = elim (Bool-cases (s.processed == m.needed_count)) [
      | inl same ↦
          let all : s.processed ≡ m.needed_count = ground arith in
          rw same (
            mask,
            complete eq dag outputs wf needed mask s.vals h.values s.frontier h.frontier
                (sym h.processed ∙ all ∙ counted.needed_count),
          )
      | inr differ ↦
          let some_left : s.processed ≢ m.needed_count = ground arith in
          rw differ (
            Ensures-bind IsExecError
              (IsListed dag needed s.indeg mask.size h.frontier.counters (length needed)) Succeeds
              (remaining dag needed s.indeg) _
              (remaining_lem dag needed s.indeg mask.size h.frontier.counters IsExecError)
              λ keys listed.
                cyclic keys
                  (stuck eq dag outputs wf needed mask s.vals h.values s.frontier h.frontier empty
                    keys listed (λ all. some_left (h.processed ∙ all ∙ sym counted.needed_count)))
                  refl)
    ]

    -- The loop starts with no value, and nothing processed.
    abbrev initial : Frontier R → Loop O R
    initial f = record { frontier = f; vals = replicate (length dag.nodes) none; processed = 0 }

    module _ (needed : NeededMask) (mask : IsNeededMask eq dag wf outputs needed) (m : KahnMetadata)
        (counted : IsMetadata dag wf.closed needed mask.size m) where
      abbrev Drained : Loop O R → Type 0
      Drained t = IsRound eq dag wf outputs needed mask watch m counted t × (t.ready ≡ [])

      run_loop :
          (f : Frontier R)
          → IsFrontier dag needed (replicate (length dag.nodes) none) (λ _. 0) [] f
          → Ensures Succeeds IsExecError (
              loop dag watch m.dependents (length dag.nodes) (initial f)
              >>= finish eq dag watch needed m.needed_count)
      run_loop f h =
          Ensures-bind IsExecError Drained Succeeds
            (loop dag watch m.dependents (length dag.nodes) (initial f))
            (finish eq dag watch needed m.needed_count)
            (Ensures-weaken Drained (IsFailure eq dag outputs) IsExecError
              (loop dag watch m.dependents (length dag.nodes) (initial f))
              (loop_lem eq dag wf outputs needed mask watch m counted (length dag.nodes) (initial f)
                (record {
                  frontier = h;
                  values = record {
                    size = length-replicate _ _;
                    sound = λ i v e. cc (get_or-replicate {A = Option O} (length dag.nodes) none i);
                  };
                  processed = sym (finished-replicate O (length dag.nodes));
                })
                (omega arith))
              (λ x e. failure e))
            λ s k. finish_lem needed mask m counted s k.0 k.1

    -- On a well-formed graph `execute` ends and never panics, whatever observes it: it succeeds
    -- with the values of exactly the needed nodes, or with an error that is true.
    pub execute_lem : (r : R) → Ensures Succeeds IsExecError (execute eq dag watch outputs r)
    unfolding execute
    execute_lem r = elim (Bool-cases (is_empty outputs)) [
      | inl e ↦ rw e (no_outputs (is_empty-eq-nil outputs e) refl)
      | inr e ↦ rw e (
          Ensures-bind IsExecError (IsNeededMask eq dag wf outputs) Succeeds
            (mark_needed eq dag outputs) _
            (Ensures-weaken (IsNeededMask eq dag wf outputs) (IsMissing eq dag outputs) IsExecError
              (mark_needed eq dag outputs) (mark_needed_lem eq dag wf outputs) (λ x. missing))
            λ needed mask.
              Ensures-bind IsExecError (IsMetadata dag wf.closed needed mask.size) Succeeds
                (build_kahn_metadata dag needed) _
                (build_kahn_metadata_lem dag wf.closed needed mask.size IsExecError)
                λ m counted.
                  Ensures-bind IsExecError
                    (IsFrontier dag needed (replicate (length dag.nodes) none) (λ _. 0) []) Succeeds
                    (seed watch needed _) _
                    (seed_lem dag watch needed m.indeg mask.size counted.counters counted.indeg
                      IsExecError r)
                    λ f h. run_loop needed mask m counted f h)
    ]

  -- The vals of a complete run hold what `collect_outputs` asks for.
  module _ (wf : IsWellFormed eq dag) where
    pub values_there :
        (needed : NeededMask) (vals : NodeValues O)
        → IsNeededMask eq dag wf outputs needed
        → IsComplete eq dag outputs vals
        → (k : K) → Memᴰ k outputs
        → (i : NodeId) × (get eq dag.index k ≡ some i)
          × (i < length vals)
          × (v : O) × (get_or vals i none ≡ some v)
          × Eval dag i v
    values_there needed vals mask h k m =
        let (i, at) = mask.found k m in
        let n : Needed dag eq outputs i = root (k, m, at) in
        let (v, e, value) = h.values i n in
        (i, at, omega (arith, h.size, Needed-lt eq dag wf outputs n), v, e, value)

    -- On a well-formed graph a request always comes to an end, with no panic: it is answered, or
    -- it ends with an error that is true.
    pub run_lem : Ensures (IsAnswer eq dag outputs) IsExecError (run eq dag outputs)
    unfolding run
    run_lem =
        Ensures-bind IsExecError (Succeeds wf noop_observer) (IsAnswer eq dag outputs)
          (execute eq dag noop_observer outputs tt) _ (execute_lem wf noop_observer tt)
          λ e k.
            collect_outputs_lem eq dag outputs IsExecError e.vals
              (values_there e.needed e.vals k.0 k.1)
