-- ===== src/Graph.antt =====
-- graph.rs: the compiled graph and the executor's configuration.
-- `Arc<O>` is the value that it shares: a value is never changed once it is made.
pub mod Semantics
pub mod Values
pub mod WellFormed
use rust_dag_executor.Prelude.{ℕ, ◌*◌, List, Option}
use mathlib.Core.Option
use rust_dag_executor.Prelude.HashMap.{HashMap}
use rust_dag_executor.Prelude.Result.{Result}

-- Dense node identifier: the wrapped `usize` itself.
abbrev pub NodeId : Type 0
NodeId = ℕ

pub record ExecutorConfig : Type 0 where
  pub max_workers : ℕ
  pub max_in_flight : ℕ
  pub worker_queue_cap : ℕ

-- `ExecutorConfig::default`, over the answer of `std::thread::available_parallelism`.
pub default_config : Option ℕ → ExecutorConfig
default_config parallelism =
    let max_workers = Option.get_or parallelism 4 in
    record { max_workers = max_workers; max_in_flight = max_workers * 2; worker_queue_cap = 2 }

-- A task is a function of its arguments: what a closure does besides is not modelled.
abbrev pub TaskFn : Type 0 → Type 0 → Type 0
TaskFn O E = List O → Result O E

pub data NodeKind (O E : Type 0) : Type 0 where
  source : O → NodeKind O E
  task : TaskFn O E → NodeKind O E

pub record Node (K O E : Type 0) : Type 0 where
  pub key : K
  pub deps : List NodeId
  pub kind : NodeKind O E

-- A compiled DAG: nodes indexed densely and accessible by key.
pub record Dag (K O E : Type 0) : Type 0 where
  pub nodes : List (Node K O E)
  pub index : HashMap K NodeId
