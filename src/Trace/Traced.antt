-- ===== src/Trace/Traced.antt =====
-- A traced run of the sequential executor: its answer, and its report.
use rust_dag_executor.Prelude.{
  ℕ, ◌<◌, ◌≡◌, List, true, none, some, length, Memᴰ, Bool-cases, inl, inr, ap, is_some, sym, ◌∙◌,
  get_elem?-eq-some, set,
}
use rust_dag_executor.Prelude.Outcome.{
  Outcome, done, fail, panic, out_of_fuel, ◌>>=◌, Ensures, Ensures-bind, Ensures-both,
  Ensures-weaken,
}
use rust_dag_executor.Error.{ExecError}
use rust_dag_executor.Graph.{NodeId, Node, Dag}
use rust_dag_executor.Graph.Semantics.{NodeAt}
use rust_dag_executor.Graph.WellFormed.{IsWellFormed}
use rust_dag_executor.Exec.Common.{NodeValues, NeededMask, collect_outputs}
use rust_dag_executor.Exec.Common.Needed.{marked, IsNeededMask}
use rust_dag_executor.Exec.Common.Collect.{IsAnswer, collect_outputs_lem}
use rust_dag_executor.Exec.Scheduling.Waiting.{has_value}
use rust_dag_executor.Exec.Scheduling.Finish.{IsComplete}
use rust_dag_executor.Exec.Sequential.{Execution, execute, run_traced}
use rust_dag_executor.Exec.Sequential.Correct.{Succeeds, IsExecError, execute_lem, values_there}
use rust_dag_executor.Exec.Sequential.Observed.{IsKept, execute-Seen}
use rust_dag_executor.Trace.{
  Duration, TracedExecution, TraceObserver, new, mark_ready, mark_start, mark_finish,
  trace_observer, finalize,
}
use rust_dag_executor.Trace.Recorded.{IsClock, Sees, new-IsRecorded, mark_ready-IsRecorded}
use rust_dag_executor.Trace.Ran.{ran-IsRecorded}
use rust_dag_executor.Trace.Report.{IsReport, finalize_lem}

module _ {K O E : Type 0} (eq : Discrete K) (dag : Dag K O E) (wf : IsWellFormed eq dag)
    (clock : ℕ → Duration) (mono : IsClock clock) (outputs : List K) where
  abbrev X : Type 0
  X = ExecError K E

  abbrev Seen : NodeValues O → Outcome X TraceObserver → Type 0
  Seen = Sees clock mono dag

  ready :
      (vals : NodeValues O) (r : Outcome X TraceObserver) (i : NodeId) (w : ℕ)
      → i < length dag.nodes
      → Seen vals r
      → Seen vals (r >>= λ t. mark_ready clock t i w)
  ready vals (done t) i w lt h = mark_ready-IsRecorded clock mono dag vals t h X i w lt
  ready vals (fail x) i w lt h = absurd h
  ready vals panic i w lt h = absurd h
  ready vals out_of_fuel i w lt h = absurd h

  ran :
      (vals : NodeValues O) (r : Outcome X TraceObserver) (i : NodeId) (v : O) (node : Node K O E)
      → NodeAt dag i node
      → ((d : NodeId) → Memᴰ d node.deps → has_value vals d ≡ true)
      → Seen vals r
      → Seen
          (set vals i (some v))
          (r >>= (λ t. mark_start clock t i none) >>= λ t. mark_finish clock t i)
  ran vals (done t) i v node at deps h =
      ran-IsRecorded clock mono dag vals t h X i v node at (get_elem?-eq-some dag.nodes i at) deps
  ran vals (fail x) i v node at deps h = absurd h
  ran vals panic i v node at deps h = absurd h
  ran vals out_of_fuel i v node at deps h = absurd h

  kept : IsKept dag (trace_observer clock) Seen
  kept = record { ready = ready; ran = ran }

  abbrev Good : Execution O (Outcome X TraceObserver) → Type 0
  Good e = Succeeds eq dag outputs wf (trace_observer clock) e × Seen e.vals e.observer

  exact :
      (needed : NeededMask) (vals : NodeValues O)
      → IsNeededMask eq dag wf outputs needed
      → IsComplete eq dag outputs vals
      → (i : NodeId) → has_value vals i ≡ marked needed i
  exact needed vals mask h i = elim (Bool-cases (marked needed i)) [
    | inl on ↦ let (v, e, _) = h.values i ((mask.exact i).0 on) in ap is_some e ∙ sym on
    | inr off ↦ elim (Bool-cases (has_value vals i)) [
      | inl there ↦ let on = (mask.exact i).1 (h.pruned i there) in cc
      | inr absent ↦ absent ∙ sym off
    ]
  ]

  -- What a traced run returns: the answer to the request, and a report of the run.
  pub record IsTraced (te : TracedExecution K O) : Type 0 where
    pub answer : IsAnswer eq dag outputs te.outputs
    pub needed : NeededMask
    pub mask : IsNeededMask eq dag wf outputs needed
    pub report : IsReport needed te.trace

  -- On a well-formed graph and with a clock that does not go back, a traced run always comes to an end,
  -- with no panic. It reports an error that is true, or it returns the value of
  -- each key asked for, with a report that has each needed node once, no other node, and a critical path that is
  -- not longer than the run.
  pub run_traced_lem :
      Ensures IsTraced (IsExecError eq dag outputs) (run_traced eq dag clock outputs)
  unfolding run_traced
  run_traced_lem =
      Ensures-bind Err Good IsTraced
        (execute eq dag (trace_observer clock) outputs (done (new (length dag.nodes)))) _
        (Ensures-both (Succeeds eq dag outputs wf (trace_observer clock))
          (λ e. Seen e.vals e.observer) Err _
          (execute_lem eq dag outputs wf (trace_observer clock) (done (new (length dag.nodes))))
          (execute-Seen dag (trace_observer clock) Seen kept eq wf outputs
            (done (new (length dag.nodes))) (new-IsRecorded clock mono dag)))
        λ e k. finish e k e.observer k.1
    where
      Err : X → Type 0
      Err = IsExecError eq dag outputs

      finish :
          (e : Execution O (Outcome X TraceObserver))
          → Good e
          → (r : Outcome X TraceObserver) → Seen e.vals r
          → Ensures IsTraced Err (
              r >>= λ observer. do
                outputs ← collect_outputs eq dag e.vals outputs
                trace ← finalize clock dag e.needed observer
                done (record { outputs = outputs; trace = trace }))
      finish e k (done t) h =
          let ((mask, complete), _) = k in
          Ensures-bind Err (IsAnswer eq dag outputs) IsTraced
            (collect_outputs eq dag e.vals outputs) _
            (collect_outputs_lem eq dag outputs Err e.vals
              (values_there eq dag outputs wf e.needed e.vals mask complete))
            λ out answer.
              Ensures-bind Err (IsReport e.needed) IsTraced (finalize clock dag e.needed t) _
                (Ensures-weaken (IsReport e.needed) (λ _. ⊥) Err (finalize clock dag e.needed t)
                  (finalize_lem X clock mono dag wf.closed e.needed mask.size e.vals t h
                    (exact e.needed e.vals mask complete))
                  λ x no_error. absurd no_error)
                λ trace report. record {
                  answer = answer;
                  needed = e.needed;
                  mask = mask;
                  report = report;
                }
      finish e k (fail x) h = absurd h
      finish e k panic h = absurd h
      finish e k out_of_fuel h = absurd h
