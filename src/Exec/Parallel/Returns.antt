-- ===== src/Exec/Parallel/Returns.antt =====
-- The parallel executor returns: a schedule of enough rounds, in each of which everybody has a turn.
use rust_dag_executor.Prelude.{
  ◌+◌, ◌<◌, ◌≤◌, sym, ap, subst, List, [], none, arith, length, replicate, flatten,
}
use rust_dag_executor.Prelude.Outcome.{Ensures, Ensures-bind, Ensures-weaken}
use rust_dag_executor.Prelude.Each.{Each}
use rust_dag_executor.Error.{ExecError}
use rust_dag_executor.Graph.{ExecutorConfig, Dag}
use rust_dag_executor.Graph.WellFormed.{IsWellFormed}
use rust_dag_executor.Exec.Observe.{ExecObserver, noop_observer}
use rust_dag_executor.Exec.Common.{NeededMask, KahnMetadata}
use rust_dag_executor.Exec.Common.Needed.{IsNeededMask}
use rust_dag_executor.Exec.Common.Counters.{IsMetadata}
use rust_dag_executor.Exec.Common.Collect.{IsAnswer, collect_outputs_lem}
use rust_dag_executor.Exec.Scheduling.{Frontier}
use rust_dag_executor.Exec.Scheduling.Waiting.{IsFrontier}
use rust_dag_executor.Exec.Sequential.{Execution}
use rust_dag_executor.Exec.Sequential.Correct.{values_there}
use rust_dag_executor.Exec.Pool.Effort.{effort, effort-spawn}
use rust_dag_executor.Exec.Pool.{WorkerPool, spawn}
use rust_dag_executor.Exec.Parallel.{
  Scheduler, Progress, going, returned, Actor, follow, initial, answer, run_until,
  run_with_observer, run,
}
use rust_dag_executor.Exec.Parallel.Machine.{IsConfig, initial-IsMachine}
use rust_dag_executor.Exec.Parallel.Measure.{
  weight, weight-le, to_dispatch, to_dispatch-le, enough_rounds,
}
use rust_dag_executor.Exec.Parallel.Correct.{IsLoopError, Holds, follow_lem}
use rust_dag_executor.Exec.Parallel.Fair.{IsFair, measure, follow-returns}
use rust_dag_executor.Exec.Parallel.Requests.{
  IsParallelError, in_loop, P, run_until_rule, run_with_observer_rule,
}

module _ {K O E : Type 0} (eq : Discrete K) (dag : Dag K O E) (cfg : ExecutorConfig)
    (outputs : List K) (wf : IsWellFormed eq dag) (rounds : List (List Actor))
    (fair : Each (IsFair cfg) rounds) (enough : enough_rounds dag cfg ≤ length rounds) where
  abbrev Err : ExecError K E → Type 0
  Err = IsParallelError eq dag cfg outputs

  module _ {R : Type 0} (watch : ExecObserver R) where
    abbrev Good : Execution O R → Type 0
    Good = P eq dag cfg outputs wf watch

    abbrev HasReturned : Progress (ExecError K E) (Scheduler O E R) (Execution O R) → Type 0
    HasReturned (going s) = ⊥
    HasReturned (returned r) = Ensures Good Err r

    follow-HasReturned :
        (config : IsConfig cfg) (needed : NeededMask) (mask : IsNeededMask eq dag wf outputs needed)
        (m : KahnMetadata) (counted : IsMetadata dag wf.closed needed mask.size m) (f : Frontier R)
        → IsFrontier dag needed (replicate (length dag.nodes) none) (λ _. 0) [] f
        → HasReturned (
            follow dag cfg watch needed m.dependents m.needed_count
              (flatten rounds)
              (initial dag cfg f))
    unfolding enough_rounds
    follow-HasReturned config needed mask m counted f h =
        let pool : WorkerPool O E = spawn cfg.max_workers cfg.worker_queue_cap in
        let start = initial-IsMachine dag cfg needed f h in
        let few : measure eq dag outputs wf needed mask m counted cfg config watch
              (initial dag cfg f)
            < enough_rounds dag cfg =
          omega (
            arith,
            weight-le cfg.max_workers
                (to_dispatch (length dag.nodes) needed (replicate (length dag.nodes) none) pool)
                (length dag.nodes) (effort pool) (cfg.max_workers + 6)
                (to_dispatch-le (length dag.nodes) needed (replicate (length dag.nodes) none) pool),
            ap (λ e. weight cfg.max_workers (length dag.nodes) e (cfg.max_workers + 6))
                (effort-spawn O E cfg.max_workers cfg.worker_queue_cap),
          ) in
        let (r, e) =
          follow-returns eq dag outputs wf needed mask m counted cfg config watch rounds
            (initial dag cfg f) fair start (omega (arith, few, enough)) in
        subst HasReturned (sym e) (
          Ensures-weaken Good (IsLoopError eq dag outputs) Err r
            (subst (Holds eq dag outputs wf needed mask m counted cfg config watch) e (
              follow_lem eq dag outputs wf needed mask m counted cfg config watch (flatten rounds)
                (initial dag cfg f) start))
            λ x. in_loop)

    answer-HasReturned :
        (p : Progress (ExecError K E) (Scheduler O E R) (Execution O R))
        → HasReturned p
        → Ensures Good Err (answer eq dag cfg watch p)
    answer-HasReturned (going s) h = absurd h
    answer-HasReturned (returned r) h = h

    -- On a well-formed graph, under every schedule of enough rounds in each of which the scheduler and
    -- every worker has a turn, the scheduler returns, without a panic: the values of exactly the
    -- needed nodes, or one of the errors.
    pub run_with_observer_returns :
        (r : R) → Ensures Good Err (run_with_observer eq dag cfg watch (flatten rounds) outputs r)
    run_with_observer_returns r =
        run_with_observer_rule eq dag cfg outputs wf watch (Ensures Good Err) (flatten rounds) r
          (λ x e. e)
          λ config.
            Ensures-bind Err HasReturned Good
              (run_until eq dag cfg watch (flatten rounds) outputs r) (answer eq dag cfg watch)
              (run_until_rule eq dag cfg outputs wf watch HasReturned (flatten rounds) r
                (follow-HasReturned config))
              answer-HasReturned

  -- On a well-formed graph, under every schedule of enough rounds in each of which the scheduler and
  -- every worker has a turn, the parallel executor returns, without a panic: a value for each key
  -- asked for, that of the key's node, and no other, or one of the errors.
  pub run_parallel_returns :
      Ensures (IsAnswer eq dag outputs) Err (run eq dag cfg (flatten rounds) outputs)
  unfolding run
  run_parallel_returns =
      Ensures-bind Err (Good noop_observer) (IsAnswer eq dag outputs)
        (run_with_observer eq dag cfg noop_observer (flatten rounds) outputs tt) _
        (run_with_observer_returns noop_observer tt)
        λ e k.
          collect_outputs_lem eq dag outputs Err e.vals
            (values_there eq dag outputs wf e.needed e.vals k.0 k.1)
