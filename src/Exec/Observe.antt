-- ===== src/Exec/Observe.antt =====
-- exec/observe.rs: what the scheduler tells an observer. A `&mut self` method returns the new state.
use rust_dag_executor.Prelude.{ℕ, Option}
use rust_dag_executor.Graph.{NodeId}

pub record ExecObserver (R : Type 0) : Type 0 where
  pub mark_ready : R → NodeId → (frontier_width : ℕ) → R
  pub mark_start : R → NodeId → (worker_id : Option ℕ) → R
  pub mark_finish : R → NodeId → R

-- `NoopObserver`, with the trait's default methods.
abbrev pub noop_observer : ExecObserver (Unit {0})
noop_observer = record {
  mark_ready = λ r id frontier_width. r;
  mark_start = λ r id worker_id. r;
  mark_finish = λ r id. r;
}
