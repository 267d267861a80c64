-- ===== src/Trace.antt =====
-- trace.rs: the report of a traced run, and the observer that gathers it.
-- A `Duration` is a number of nanoseconds since the observer was made. The clock is a parameter: its
-- answer at each reading, in order. An index out of bounds panics, so the state that the scheduler
-- passes to the methods is the outcome of the calls before.
pub mod Recorded
pub mod Written
pub mod Ran
pub mod Report
pub mod Traced
pub mod Tidy
pub mod Listing
pub mod Threads
use rust_dag_executor.Prelude.{
  ℕ, ◌+◌, ◌-◌, List, [], ◌∷◌, ◌++◌, Option, none, some, length, replicate, if◌then◌else◌, not, ltb,
}
use rust_dag_executor.Prelude.HashMap.{HashMap}
use rust_dag_executor.Prelude.Outcome.{
  Outcome, done, fail, panic, out_of_fuel, ◌>>=◌, index, assign, each,
}
use rust_dag_executor.Graph.{NodeId, NodeKind, Node, Dag}
use rust_dag_executor.Exec.Observe.{ExecObserver}
use rust_dag_executor.Exec.Common.{NeededMask}

abbrev pub Duration : Type 0
Duration = ℕ

abbrev pub max : ℕ → ℕ → ℕ
max a b = if ltb a b then b else a

abbrev pub unwrap_or {ℓ} : {A : Type ℓ} → Option A → A → A
unwrap_or none d = d
unwrap_or (some a) d = a

pub data TraceNodeKind : Type 0 where
  source_node : TraceNodeKind
  task_node : TraceNodeKind

pub record NodeTrace (K : Type 0) : Type 0 where
  pub node_id : NodeId
  pub key : K
  pub kind : TraceNodeKind
  pub deps : List NodeId
  pub ready_at : Duration
  pub started_at : Duration
  pub finished_at : Duration
  pub run_duration : Duration
  pub worker_id : Option ℕ

pub record ExecutionTrace (K : Type 0) : Type 0 where
  pub nodes : List (NodeTrace K)
  pub wall_time : Duration
  pub critical_path_time : Duration
  pub max_frontier_width : ℕ
  pub executed_nodes : ℕ

pub record TracedExecution (K O : Type 0) : Type 0 where
  pub outputs : HashMap K O
  pub trace : ExecutionTrace K

-- `readings` counts how often the clock was read; it stands for the instant `started`.
pub record TraceObserver : Type 0 where
  pub readings : ℕ
  pub ready_at : List (Option Duration)
  pub started_at : List (Option Duration)
  pub finished_at : List (Option Duration)
  pub worker_id : List (Option ℕ)
  pub execution_order : List NodeId
  pub max_frontier_width : ℕ

unfoldable pub new : ℕ → TraceObserver
new node_count = record {
  readings = 0;
  ready_at = replicate node_count none;
  started_at = replicate node_count none;
  finished_at = replicate node_count none;
  worker_id = replicate node_count none;
  execution_order = [];
  max_frontier_width = 0;
}

-- The variables of the loop of `finalize`.
pub record Tally (K : Type 0) : Type 0 where
  pub nodes : List (NodeTrace K)
  pub longest_path : List Duration
  pub critical_path_time : Duration

abbrev pub trace_kind : {O E : Type 0} → NodeKind O E → TraceNodeKind
trace_kind (NodeKind.source v) = source_node
trace_kind (NodeKind.task f) = task_node

module _ (clock : ℕ → Duration) where
  -- `elapsed`
  abbrev pub elapsed : TraceObserver → Duration
  elapsed t = clock t.readings

  module _ {X : Type 0} where
    unfoldable pub mark_ready : TraceObserver → NodeId → ℕ → Outcome X TraceObserver
    mark_ready t id frontier_width = do
      at ← index t.ready_at id
      t' ← elim at [
        | some _ ↦ done t
        | none ↦ do
          ready_at ← assign t.ready_at id (some (elapsed t))
          done (record t { readings = t.readings + 1; ready_at = ready_at })
      ]
      done (record t' { max_frontier_width = max t'.max_frontier_width frontier_width })

    -- The first half of `mark_start`.
    unfoldable pub mark_started : TraceObserver → NodeId → Outcome X TraceObserver
    mark_started t id = do
      at ← index t.started_at id
      elim at [
        | some _ ↦ done t
        | none ↦ do
          started_at ← assign t.started_at id (some (elapsed t))
          done (record t {
            readings = t.readings + 1;
            started_at = started_at;
            execution_order = t.execution_order ++ id ∷ [];
          })
      ]

    unfoldable pub mark_start : TraceObserver → NodeId → Option ℕ → Outcome X TraceObserver
    mark_start t id worker_id = do
      t' ← mark_started t id
      by ← index t'.worker_id id
      elim by [
        | some _ ↦ done t'
        | none ↦ do
          workers ← assign t'.worker_id id worker_id
          done (record t' { worker_id = workers })
      ]

    unfoldable pub mark_finish : TraceObserver → NodeId → Outcome X TraceObserver
    mark_finish t id = do
      at ← index t.finished_at id
      elim at [
        | some _ ↦ done t
        | none ↦ do
          finished_at ← assign t.finished_at id (some (elapsed t))
          done (record t { readings = t.readings + 1; finished_at = finished_at })
      ]

    -- `impl ExecObserver for TraceObserver`
    abbrev pub trace_observer : ExecObserver (Outcome X TraceObserver)
    trace_observer = record {
      mark_ready = λ r id frontier_width. r >>= λ t. mark_ready t id frontier_width;
      mark_start = λ r id worker_id. r >>= λ t. mark_start t id worker_id;
      mark_finish = λ r id. r >>= λ t. mark_finish t id;
    }

  module _ {K O E X : Type 0} (dag : Dag K O E) (needed : NeededMask) (t : TraceObserver) where
    -- `parent_cp`: the longest path to a needed dependency.
    unfoldable pub longest_parent : List Duration → List NodeId → Outcome X Duration
    longest_parent longest_path =
        each
          (λ longest dep. do
            is_needed ← index needed dep
            if not is_needed
                then done longest
                else do path ← index longest_path dep; done (max longest path))
          0

    unfoldable pub finalize_round : Tally K → NodeId → Outcome X (Tally K)
    finalize_round s id = do
      is_needed ← index needed id
      if not is_needed then done s else do
        started ← index t.started_at id
        finished ← index t.finished_at id
        let started_at = unwrap_or started 0
        let finished_at = unwrap_or finished started_at
        let run_duration = finished_at - started_at
        node ← index dag.nodes id
        parent_cp ← longest_parent s.longest_path node.deps
        let path = parent_cp + run_duration
        longest_path ← assign s.longest_path id path
        ready ← index t.ready_at id
        worker ← index t.worker_id id
        done (record {
          nodes =
              s.nodes
              ++ record {
                node_id = id;
                key = node.key;
                kind = trace_kind node.kind;
                deps = node.deps;
                ready_at = unwrap_or ready 0;
                started_at = started_at;
                finished_at = finished_at;
                run_duration = run_duration;
                worker_id = worker;
              }
                ∷ [];
          longest_path = longest_path;
          critical_path_time = max s.critical_path_time path;
        })

    unfoldable pub finalize : Outcome X (ExecutionTrace K)
    finalize = do
      s ←
          each finalize_round
            (record {
              nodes = [];
              longest_path = replicate (length dag.nodes) 0;
              critical_path_time = 0;
            })
            t.execution_order
      done (record {
        nodes = s.nodes;
        wall_time = elapsed t;
        critical_path_time = s.critical_path_time;
        max_frontier_width = t.max_frontier_width;
        executed_nodes = length s.nodes;
      })
