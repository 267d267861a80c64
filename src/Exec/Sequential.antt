-- ===== src/Exec/Sequential.antt =====
-- exec/sequential.rs: Kahn's algorithm over the needed subgraph, on the calling thread.
pub mod Rounds
pub mod Correct
pub mod Requests
pub mod Valued
pub mod Observed
use rust_dag_executor.Prelude.{
  ℕ, zero, suc, ◌+◌, List, [], ◌∷◌, Bool, Option, none, some, length, is_empty, replicate,
  if◌then◌else◌, ◌==◌,
}
use rust_dag_executor.Prelude.HashMap.{HashMap}
use rust_dag_executor.Prelude.Result.{Result, ok, err}
use rust_dag_executor.Prelude.Outcome.{
  Outcome, done, fail, panic, out_of_fuel, ◌>>=◌, index, assign,
}
use rust_dag_executor.Error.{ExecError, cycle, task_failed, internal_invariant}
use rust_dag_executor.Graph.{NodeId, TaskFn, NodeKind, source, task, Node, Dag}
use rust_dag_executor.Exec.Observe.{ExecObserver, noop_observer}
use rust_dag_executor.Exec.Common.{
  NodeValues, NeededMask, mark_needed, KahnMetadata, build_kahn_metadata, collect_outputs,
}
use rust_dag_executor.Exec.Scheduling.{Frontier, seed, release_dependents, collect_args, remaining}
use rust_dag_executor.Trace
use rust_dag_executor.Trace.{Duration, TracedExecution, TraceObserver, trace_observer, finalize}

-- The variables of the `while` loop.
pub record Loop (O R : Type 0) : Type 0 where
  pub frontier : Frontier R
  pub open frontier use *
  pub vals : NodeValues O
  pub processed : ℕ

pub record Execution (O R : Type 0) : Type 0 where
  pub vals : NodeValues O
  pub needed : NeededMask
  pub observer : R

-- `f(&args)`, with its error named after the task.
abbrev pub run_task : {K O E : Type 0} → K → Result O E → Outcome (ExecError K E) O
run_task key (ok out) = done out
run_task key (err e) = fail (task_failed key e)

module _ {K O E : Type 0} (dag : Dag K O E) where
  -- The value of a node of this kind, from the values that are there.
  unfoldable pub compute : K → List NodeId → NodeValues O → NodeKind O E → Outcome (ExecError K E) O
  compute key deps vals (source v) = done v
  compute key deps vals (task f) = do args ← collect_args dag vals deps; run_task key (f args)

  module _ {R : Type 0} (watch : ExecObserver R) (dependents : List (List NodeId)) where
    -- The body of the loop, after `id` left the queue and `rest` is what the queue has left.
    unfoldable pub process : Loop O R → NodeId → List NodeId → Outcome (ExecError K E) (Loop O R)
    process s id rest = do
      let started = watch.mark_start s.observer id none
      node ← index dag.nodes id
      value ← compute node.key node.deps s.vals node.kind
      vals ← assign s.vals id (some value)
      let finished = watch.mark_finish started id
      released ← index dependents id
      frontier ←
          release_dependents watch released
            (record { indeg = s.indeg; ready = rest; observer = finished })
      done (record { frontier = frontier; vals = vals; processed = s.processed + 1 })

    -- `while let Some(id) = q.pop_front()`
    unfoldable pub loop : ℕ → Loop O R → Outcome (ExecError K E) (Loop O R)
    loop zero s = elim s.ready [ [] ↦ done s | _ ∷ _ ↦ out_of_fuel ]
    loop (suc fuel) s = elim s.ready [ [] ↦ done s | id ∷ rest ↦ process s id rest >>= loop fuel ]

module _ {K O E R : Type 0} (eq : Discrete K) (dag : Dag K O E) (watch : ExecObserver R) where
  -- The test after the loop.
  unfoldable pub finish : NeededMask → ℕ → Loop O R → Outcome (ExecError K E) (Execution O R)
  finish needed needed_count s =
      if s.processed == needed_count
      then done (record { vals = s.vals; needed = needed; observer = s.observer })
      else do keys ← remaining dag needed s.indeg; fail (cycle keys)

  -- Every round processes another node, so the fuel is the number of nodes.
  unfoldable pub execute : List K → R → Outcome (ExecError K E) (Execution O R)
  execute out_keys observer =
      if is_empty out_keys then fail (internal_invariant "outputs must be non-empty") else do
        needed ← mark_needed eq dag out_keys
        m ← build_kahn_metadata dag needed
        frontier ← seed watch needed (record { indeg = m.indeg; ready = []; observer = observer })
        s ← loop dag watch m.dependents (length dag.nodes) (record {
          frontier = frontier;
          vals = replicate (length dag.nodes) none;
          processed = 0;
        })
        finish needed m.needed_count s

-- Compute only the requested outputs (and their transitive deps).
unfoldable pub run :
    {K O E : Type 0} (eq : Discrete K) → Dag K O E → List K → Outcome (ExecError K E) (HashMap K O)
run eq dag out_keys = do
  e ← execute eq dag noop_observer out_keys tt
  collect_outputs eq dag e.vals out_keys

unfoldable pub run_traced :
    {K O E : Type 0} (eq : Discrete K)
    → Dag K O E
    → (clock : ℕ → Duration) → List K
    → Outcome (ExecError K E) (TracedExecution K O)
run_traced eq dag clock out_keys = do
  e ← execute eq dag (trace_observer clock) out_keys (done (Trace.new (length dag.nodes)))
  observer ← e.observer
  outputs ← collect_outputs eq dag e.vals out_keys
  trace ← finalize clock dag e.needed observer
  done (record { outputs = outputs; trace = trace })
