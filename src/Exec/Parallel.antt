-- ===== src/Exec/Parallel.antt =====
-- exec/parallel.rs, the scheduler: a machine whose steps are the scheduler's actions between which a
-- worker can act. A schedule lists who acts, the scheduler or a worker, one action at a time.
pub mod Machine
pub mod Measure
pub mod Fewer
pub mod Decline
pub mod Last
pub mod Steps
pub mod Exchange
pub mod Receive
pub mod Capacity
pub mod Correct
pub mod Fair
pub mod Requests
pub mod Returns
pub mod Agreement
pub mod Answers
pub mod Observed
pub mod Watched
pub mod Closing
pub mod RoundRobin
use rust_dag_executor.Prelude.{
  ℕ, zero, suc, ◌+◌, ◌-◌, ◌*◌, ◌^◌, ◌%◌, List, [], ◌∷◌, Option, none, some, length, is_empty,
  replicate, if◌then◌else◌, ltb, ◌==◌,
}
use rust_dag_executor.Prelude.HashMap.{HashMap}
use rust_dag_executor.Prelude.Result.{Result, ok, err}
use rust_dag_executor.Prelude.Outcome.{
  Outcome, done, fail, panic, out_of_fuel, ◌>>=◌, index, assign, decrement,
}
use rust_dag_executor.Error.{ExecError, cycle, task_failed, internal_invariant}
use rust_dag_executor.Graph.{NodeId, ExecutorConfig, TaskFn, NodeKind, source, task, Node, Dag}
use rust_dag_executor.Exec.Observe.{ExecObserver, noop_observer}
use rust_dag_executor.Exec.Common.{
  NodeValues, NeededMask, mark_needed, build_kahn_metadata, collect_outputs,
}
use rust_dag_executor.Exec.Scheduling.{Frontier, seed, release_dependents, collect_args, remaining}
use rust_dag_executor.Exec.Sequential.{Execution}
use rust_dag_executor.Exec.Pool.{Task, TaskResult, WorkerPool, spawn, try_send, advance}
use rust_dag_executor.Trace
use rust_dag_executor.Trace.{Duration, TracedExecution, TraceObserver, trace_observer, finalize}

-- Where the scheduler is: before the test of the outer or the inner `while`, in a round of
-- `dispatch_task_try` with so many rounds to go, before the test of `in_flight`, or in `recv`.
pub data Phase (O E : Type 0) : Type 0 where
  outer : Phase O E
  inner : Phase O E
  sending : (rounds : ℕ) → Task O E → Phase O E
  checking : Phase O E
  receiving : Phase O E

-- The variables of `run_with_observer` that change, and the pool.
pub record Scheduler (O E R : Type 0) : Type 0 where
  pub phase : Phase O E
  pub frontier : Frontier R
  pub open frontier use *
  pub vals : NodeValues O
  pub processed : ℕ
  pub in_flight : ℕ
  pub next_worker : ℕ
  pub pending : Option (Task O E)
  pub pool : WorkerPool O E

-- `usize` arithmetic that stops at the greatest number.
abbrev pub saturate : ℕ → ℕ
saturate a = if ltb a (2 ^ 64) then a else 2 ^ 64 - 1

unfoldable pub effective_cap : ExecutorConfig → ℕ
effective_cap cfg =
    let physical_max = saturate (cfg.max_workers * saturate (cfg.worker_queue_cap + 1)) in
    if ltb physical_max cfg.max_in_flight then physical_max else cfg.max_in_flight

-- What one step of the scheduler comes to: the machine goes on, or the call returns.
pub data Progress (X S A : Type 0) : Type 0 where
  going : S → Progress X S A
  returned : Outcome X A → Progress X S A

-- An error value, or a panic, ends the call.
abbrev pub onward : {X S A : Type 0} → Outcome X S → Progress X S A
onward (done s) = going s
onward (fail x) = returned (fail x)
onward panic = returned panic
onward out_of_fuel = returned out_of_fuel

-- `debug_assert!(slot.is_none())`
abbrev pub assert_none : {X O : Type 0} → Option O → Outcome X (Unit {0})
assert_none none = done tt
assert_none (some _) = panic

-- Who acts next.
pub data Actor : Type 0 where
  scheduler : Actor
  worker : ℕ → Actor

module _ {K O E R : Type 0} (dag : Dag K O E) (cfg : ExecutorConfig) (watch : ExecObserver R)
    (needed : NeededMask) (dependents : List (List NodeId)) (needed_count : ℕ) where
  abbrev pub n_workers : Scheduler O E R → ℕ
  n_workers s = length s.pool.workers

  -- The value of `id` is there: record it and release what waited for it.
  unfoldable pub propagate :
      Phase O E → Scheduler O E R → NodeId → O → R → Outcome (ExecError K E) (Scheduler O E R)
  propagate next s id value observer = do
    vals ← assign s.vals id (some value)
    released ← index dependents id
    frontier ← release_dependents watch released (record s.frontier { observer = observer })
    done (record s { phase = next; frontier = frontier; vals = vals; processed = s.processed + 1 })

  -- The node `id` left the queue: a source has its value at once, a task is to be dispatched.
  unfoldable pub start :
      Scheduler O E R
      → NodeId
      → Node K O E
      → NodeKind O E
      → Outcome (ExecError K E) (Scheduler O E R)
  start s id node (source v) =
      propagate inner s id v (watch.mark_finish (watch.mark_start s.observer id none) id)
  start s id node (task f) = do
    args ← collect_args dag s.vals node.deps
    done (record s { phase = sending (n_workers s) (record { id = id; func = f; args = args }) })

  -- The body of the inner `while`, up to the call of `dispatch_task_try`.
  unfoldable pub dispatch : Scheduler O E R → Outcome (ExecError K E) (Scheduler O E R)
  dispatch s = elim s.pending [
    | some job ↦ done (record s { phase = sending (n_workers s) job; pending = none })
    | none ↦ elim s.ready [
      | [] ↦ done (record s { phase = checking })
      | id ∷ rest ↦ do
        node ← index dag.nodes id
        start (record s { frontier = record s.frontier { ready = rest } }) id node node.kind
    ]
  ]

  -- A round of `dispatch_task_try`, and what the caller does with the result.
  unfoldable pub dispatch_task_try : Scheduler O E R → ℕ → Task O E → Scheduler O E R
  dispatch_task_try s zero job = record s { phase = checking; pending = some job }
  dispatch_task_try s (suc rounds) job =
      let idx = s.next_worker % n_workers s in
      elim (try_send s.pool idx job) [
        | none ↦ record s { phase = sending rounds job; next_worker = idx + 1 }
        | some pool ↦ record s {
          phase = inner;
          frontier = record s.frontier { observer = watch.mark_start s.observer job.id (some idx) };
          in_flight = s.in_flight + 1;
          next_worker = idx + 1;
          pool = pool;
        }
      ]

  -- A result that was received.
  unfoldable pub receive :
      Scheduler O E R → NodeId → Result O E → R → Outcome (ExecError K E) (Scheduler O E R)
  receive s id (ok value) observer = do
    slot ← index s.vals id
    _ ← assert_none slot
    propagate outer s id value observer
  receive s id (err e) observer = do node ← index dag.nodes id; fail (task_failed node.key e)

  -- `recv`, which waits as long as there is no result.
  unfoldable pub recv : Scheduler O E R → Outcome (ExecError K E) (Scheduler O E R)
  recv s = elim s.pool.results [
    | [] ↦ done s
    | r ∷ results ↦ do
      in_flight ← decrement s.in_flight
      receive (record s { in_flight = in_flight; pool = record s.pool { results = results } }) r.id
          r.out (watch.mark_finish s.observer r.id)
  ]

  -- The scheduler's next action.
  unfoldable pub step :
      Scheduler O E R → Phase O E → Progress (ExecError K E) (Scheduler O E R) (Execution O R)
  step s outer =
      if ltb s.processed needed_count
      then going (record s { phase = inner })
      else returned (done (record { vals = s.vals; needed = needed; observer = s.observer }))
  step s inner =
      if ltb s.in_flight (effective_cap cfg)
      then onward (dispatch s)
      else going (record s { phase = checking })
  step s (sending rounds job) = going (dispatch_task_try s rounds job)
  step s checking =
      if s.in_flight == 0
      then returned (do keys ← remaining dag needed s.indeg; fail (cycle keys))
      else going (record s { phase = receiving })
  step s receiving = onward (recv s)

  unfoldable pub act :
      Scheduler O E R → Actor → Progress (ExecError K E) (Scheduler O E R) (Execution O R)
  act s scheduler = step s s.phase
  act s (worker w) = going (record s { pool = advance s.pool w })

  -- The machine under a schedule; what is left of it after the return plays no part.
  unfoldable pub follow :
      List Actor → Scheduler O E R → Progress (ExecError K E) (Scheduler O E R) (Execution O R)
  follow [] s = going s
  follow (actor ∷ schedule) s = elim (act s actor) [
    | going s' ↦ follow schedule s'
    | returned r ↦ returned r
  ]

module _ {K O E R : Type 0} (dag : Dag K O E) (cfg : ExecutorConfig) where
  -- The machine before its first step.
  abbrev pub initial : Frontier R → Scheduler O E R
  initial frontier = record {
    phase = outer;
    frontier = frontier;
    vals = replicate (length dag.nodes) none;
    processed = 0;
    in_flight = 0;
    next_worker = 0;
    pending = none;
    pool = spawn cfg.max_workers cfg.worker_queue_cap;
  }

module _ {K O E R : Type 0} (eq : Discrete K) (dag : Dag K O E) (cfg : ExecutorConfig)
    (watch : ExecObserver R) where
  -- Out of fuel is a schedule that ends before the call returns.
  abbrev pub answer :
      Progress (ExecError K E) (Scheduler O E R) (Execution O R)
      → Outcome (ExecError K E) (Execution O R)
  answer (going s) = out_of_fuel
  answer (returned r) = r

  -- The call behind the tests of its arguments, as far as the schedule takes it.
  unfoldable pub run_until :
      List Actor
      → List K
      → R
      → Outcome (ExecError K E) (Progress (ExecError K E) (Scheduler O E R) (Execution O R))
  run_until schedule out_keys observer = do
    needed ← mark_needed eq dag out_keys
    m ← build_kahn_metadata dag needed
    frontier ← seed watch needed (record { indeg = m.indeg; ready = []; observer = observer })
    done (
        follow dag cfg watch needed m.dependents m.needed_count schedule (initial dag cfg frontier))

  unfoldable pub run_with_observer :
      List Actor → List K → R → Outcome (ExecError K E) (Execution O R)
  run_with_observer schedule out_keys observer =
      if is_empty out_keys
      then fail (internal_invariant "outputs must be non-empty")
      else if cfg.max_workers == 0
      then fail (internal_invariant "max_workers must be > 0")
      else if cfg.max_in_flight == 0
      then fail (internal_invariant "max_in_flight must be > 0")
      else if cfg.worker_queue_cap == 0
      then fail (internal_invariant "worker_queue_cap must be > 0")
      else run_until schedule out_keys observer >>= answer

unfoldable pub run :
    {K O E : Type 0} (eq : Discrete K)
    → Dag K O E
    → ExecutorConfig
    → List Actor
    → List K
    → Outcome (ExecError K E) (HashMap K O)
run eq dag cfg schedule out_keys = do
  e ← run_with_observer eq dag cfg noop_observer schedule out_keys tt
  collect_outputs eq dag e.vals out_keys

unfoldable pub run_traced :
    {K O E : Type 0} (eq : Discrete K)
    → Dag K O E
    → ExecutorConfig
    → (clock : ℕ → Duration) → List Actor
    → List K
    → Outcome (ExecError K E) (TracedExecution K O)
run_traced eq dag cfg clock schedule out_keys = do
  e ←
      run_with_observer eq dag cfg (trace_observer clock) schedule out_keys
        (done (Trace.new (length dag.nodes)))
  observer ← e.observer
  outputs ← collect_outputs eq dag e.vals out_keys
  trace ← finalize clock dag e.needed observer
  done (record { outputs = outputs; trace = trace })
