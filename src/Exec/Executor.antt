-- ===== src/Exec/Executor.antt =====
-- exec.rs: the facade over the two schedulers. Outputs that come as an iterator are the list of them.
use rust_dag_executor.Prelude.{ℕ, List}
use rust_dag_executor.Prelude.HashMap.{HashMap}
use rust_dag_executor.Prelude.Outcome.{Outcome}
use rust_dag_executor.Error.{ExecError}
use rust_dag_executor.Graph.{ExecutorConfig, Dag}
use rust_dag_executor.Exec.Sequential
use rust_dag_executor.Exec.Parallel
use rust_dag_executor.Exec.Parallel.{Actor}
use rust_dag_executor.Trace.{Duration, TracedExecution}

pub record Executor : Type 0 where
  pub cfg : ExecutorConfig

abbrev pub new : ExecutorConfig → Executor
new cfg = record { cfg = cfg }

module _ {K O E : Type 0} (eq : Discrete K) (executor : Executor) (dag : Dag K O E) where
  abbrev pub run_sequential : List K → Outcome (ExecError K E) (HashMap K O)
  run_sequential outputs = Sequential.run eq dag outputs

  abbrev pub run_parallel : List Actor → List K → Outcome (ExecError K E) (HashMap K O)
  run_parallel schedule outputs = Parallel.run eq dag executor.cfg schedule outputs

  abbrev pub run_sequential_traced :
      (clock : ℕ → Duration) → List K → Outcome (ExecError K E) (TracedExecution K O)
  run_sequential_traced clock outputs = Sequential.run_traced eq dag clock outputs

  abbrev pub run_parallel_traced :
      (clock : ℕ → Duration) → List Actor → List K → Outcome (ExecError K E) (TracedExecution K O)
  run_parallel_traced clock schedule outputs =
      Parallel.run_traced eq dag executor.cfg clock schedule outputs
