-- ===== src/Trace/Threads.antt =====
-- A traced run of the parallel executor.
use rust_dag_executor.Prelude.{ℕ, ◌≤◌, List, length, flatten, Bool}
use rust_dag_executor.Prelude.Each.{Each}
use rust_dag_executor.Prelude.Outcome.{
  Outcome, done, ◌>>=◌, Ensures, Ensures-bind, Ensures-both, Ensures-weaken,
}
use rust_dag_executor.Error.{ExecError}
use rust_dag_executor.Graph.{ExecutorConfig, Dag}
use rust_dag_executor.Graph.WellFormed.{IsWellFormed}
use rust_dag_executor.Exec.Common.{collect_outputs}
use rust_dag_executor.Exec.Common.Needed.{IsNeededMask}
use rust_dag_executor.Exec.Common.Collect.{IsAnswer, collect_outputs_lem}
use rust_dag_executor.Exec.Sequential.{Execution}
use rust_dag_executor.Exec.Sequential.Correct.{Succeeds, values_there}
use rust_dag_executor.Exec.Parallel
use rust_dag_executor.Exec.Parallel.{Actor, run_with_observer}
use rust_dag_executor.Exec.Parallel.Measure.{enough_rounds}
use rust_dag_executor.Exec.Parallel.Fair.{IsFair}
use rust_dag_executor.Exec.Parallel.Requests.{IsParallelError}
use rust_dag_executor.Exec.Parallel.Returns.{run_with_observer_returns}
use rust_dag_executor.Exec.Parallel.Observed.{IsWatched}
use rust_dag_executor.Exec.Parallel.Watched.{run_with_observer-Seen}
use rust_dag_executor.Trace
use rust_dag_executor.Trace.{
  Duration, TracedExecution, TraceObserver, mark_ready, mark_start, mark_finish, trace_observer,
  finalize,
}
use rust_dag_executor.Trace.Tidy.{
  IsTidy, new-IsTidy, mark_ready-IsTidy, mark_start-IsTidy, mark_finish-IsTidy,
}
use rust_dag_executor.Trace.Listing.{IsListing, finalize-IsListing}

module _ {K O E : Type 0} (eq : Discrete K) (dag : Dag K O E) (cfg : ExecutorConfig)
    (outputs : List K) (wf : IsWellFormed eq dag) (clock : ℕ → Duration) where
  abbrev X : Type 0
  X = ExecError K E

  abbrev Seen : Outcome X TraceObserver → Type 0
  Seen r = Ensures (IsTidy (length dag.nodes)) (λ _. ⊥) r

  -- One more call of a method.
  onto :
      (r : Outcome X TraceObserver) (f : TraceObserver → Outcome X TraceObserver)
      → Seen r
      → ((t : TraceObserver) → IsTidy (length dag.nodes) t → Seen (f t))
      → Seen (r >>= f)
  onto r f h k =
      Ensures-bind (λ _. ⊥) (IsTidy (length dag.nodes)) (IsTidy (length dag.nodes)) r f h k

  watched : IsWatched dag (trace_observer clock) Seen
  watched = record {
    ready = λ r i w lt h.
        onto r (λ t. mark_ready clock t i w) h
          λ t k. mark_ready-IsTidy (length dag.nodes) X clock t k i lt w;
    start = λ r i by lt h.
        onto r (λ t. mark_start clock t i by) h
          λ t k. mark_start-IsTidy (length dag.nodes) X clock t k i by lt;
    finish = λ r i lt h.
        onto r (λ t. mark_finish clock t i) h
          λ t k. mark_finish-IsTidy (length dag.nodes) X clock t k i lt;
  }

  -- What a traced run returns: the answer to the request, and a report on needed nodes.
  pub record IsTraced (te : TracedExecution K O) : Type 0 where
    pub answer : IsAnswer eq dag outputs te.outputs
    pub needed : List Bool
    pub mask : IsNeededMask eq dag wf outputs needed
    pub report : IsListing needed te.trace

  abbrev Err : X → Type 0
  Err = IsParallelError eq dag cfg outputs

  abbrev Good : Execution O (Outcome X TraceObserver) → Type 0
  Good e = Succeeds eq dag outputs wf (trace_observer clock) e × Seen e.observer

  finish :
      (e : Execution O (Outcome X TraceObserver))
      → Good e
      → Ensures IsTraced Err (do
        observer ← e.observer
        out ← collect_outputs eq dag e.vals outputs
        trace ← finalize clock dag e.needed observer
        done (record { outputs = out; trace = trace }))
  finish e ((mask, complete), seen) =
      Ensures-bind Err (IsTidy (length dag.nodes)) IsTraced e.observer _
        (Ensures-weaken (IsTidy (length dag.nodes)) (λ _. ⊥) Err e.observer seen
          λ x no_error. absurd no_error)
        λ t tidy.
          Ensures-bind Err (IsAnswer eq dag outputs) IsTraced
            (collect_outputs eq dag e.vals outputs) _
            (collect_outputs_lem eq dag outputs Err e.vals
              (values_there eq dag outputs wf e.needed e.vals mask complete))
            λ out answer.
              Ensures-bind Err (IsListing e.needed) IsTraced (finalize clock dag e.needed t) _
                (Ensures-weaken (IsListing e.needed) (λ _. ⊥) Err (finalize clock dag e.needed t)
                  (finalize-IsListing X clock dag wf.closed e.needed mask.size t tidy)
                  λ x no_error. absurd no_error)
                λ trace report. record {
                  answer = answer;
                  needed = e.needed;
                  mask = mask;
                  report = report;
                }

  -- On a well-formed graph, under every schedule of enough rounds in each of which the scheduler and every
  -- worker has a turn, a traced run of the parallel executor returns, without a panic: one of the errors,
  -- or the value of each key asked for, with a report that has needed nodes only, each once at most.
  pub run_traced_returns :
      (rounds : List (List Actor))
      → Each (IsFair cfg) rounds
      → enough_rounds dag cfg ≤ length rounds
      → Ensures IsTraced Err (Parallel.run_traced eq dag cfg clock (flatten rounds) outputs)
  unfolding Parallel.run_traced
  run_traced_returns rounds fair enough =
      Ensures-bind Err Good IsTraced
        (run_with_observer eq dag cfg (trace_observer clock) (flatten rounds) outputs
          (done (Trace.new (length dag.nodes))))
        _
        (Ensures-both (Succeeds eq dag outputs wf (trace_observer clock)) (λ e. Seen e.observer) Err
          _
          (run_with_observer_returns eq dag cfg outputs wf rounds fair enough (trace_observer clock)
            (done (Trace.new (length dag.nodes))))
          (run_with_observer-Seen eq dag cfg outputs wf (trace_observer clock) Seen watched
            (flatten rounds) (done (Trace.new (length dag.nodes))) (new-IsTidy (length dag.nodes))))
        finish
