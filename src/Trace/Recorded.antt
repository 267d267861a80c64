-- ===== src/Trace/Recorded.antt =====
-- What the trace observer has recorded while the sequential executor has found some of the values.
use rust_dag_executor.Prelude.{
  ℕ, ◌+◌, ◌≤◌, ◌<◌, ◌≡◌, refl, ap, ◌∙◌, List, true, Option, none, some, inl, inr, arith, length,
  is_some, bit, get_or, replicate, count, Memᴰ, length-set, Option-cases, get_or-replicate,
  length-replicate,
}
use rust_dag_executor.Prelude.Outcome.{Outcome, Ensures, index-eq-done, assign-eq-done}
use rust_dag_executor.Graph.{NodeId, Node, Dag}
use rust_dag_executor.Graph.Semantics.{NodeAt}
use rust_dag_executor.Exec.Common.{NodeValues}
use rust_dag_executor.Exec.Scheduling.Waiting.{has_value}
use rust_dag_executor.Trace.{Duration, unwrap_or, TraceObserver, new, mark_ready}

abbrev pub begin : List (Option Duration) → NodeId → Duration
begin started i = unwrap_or (get_or started i none) 0

-- When node `i` finished, as `finalize` reads it.
abbrev pub stop : List (Option Duration) → List (Option Duration) → NodeId → Duration
stop started finished i = unwrap_or (get_or finished i none) (begin started i)

-- The clock does not go back.
abbrev pub IsClock : (ℕ → Duration) → Type 0
IsClock clock = (i j : ℕ) → i ≤ j → clock i ≤ clock j

module _ {K O E : Type 0} (clock : ℕ → Duration) (mono : IsClock clock) (dag : Dag K O E) where
  -- The nodes with a value have started and finished, the others have not. Each is listed once, did
  -- not finish before it started, nor start before what it depends on had finished.
  pub record IsRecorded (vals : NodeValues O) (t : TraceObserver) : Type 0 where
    pub values : length vals ≡ length dag.nodes
    pub ready_size : length t.ready_at ≡ length dag.nodes
    pub started_size : length t.started_at ≡ length dag.nodes
    pub finished_size : length t.finished_at ≡ length dag.nodes
    pub worker_size : length t.worker_id ≡ length dag.nodes
    pub started : (i : NodeId) → is_some (get_or t.started_at i none) ≡ has_value vals i
    pub finished : (i : NodeId) → is_some (get_or t.finished_at i none) ≡ has_value vals i
    pub listed : (i : NodeId) → count i t.execution_order ≡ bit (has_value vals i)
    pub ordered : (i : NodeId) → begin t.started_at i ≤ stop t.started_at t.finished_at i
    pub past : (i : NodeId) → stop t.started_at t.finished_at i ≤ clock t.readings
    pub after :
        (i : NodeId) {node : Node K O E}
        → NodeAt dag i node
        → has_value vals i ≡ true
        → (d : NodeId) → Memᴰ d node.deps
        → (has_value vals d ≡ true) × (stop t.started_at t.finished_at d ≤ begin t.started_at i)

  -- Of the observer's state.
  abbrev pub Sees : {X : Type 0} → NodeValues O → Outcome X TraceObserver → Type 0
  Sees vals r = Ensures (IsRecorded vals) (λ _. ⊥) r

  blank :
      (A : Type 0) (i : ℕ) → get_or {A = Option A} (replicate (length dag.nodes) none) i none ≡ none
  blank A i = get_or-replicate (length dag.nodes) none i

  pub new-IsRecorded : IsRecorded (replicate (length dag.nodes) none) (new (length dag.nodes))
  unfolding new
  new-IsRecorded = record {
    values = length-replicate _ _;
    ready_size = length-replicate _ _;
    started_size = length-replicate _ _;
    finished_size = length-replicate _ _;
    worker_size = length-replicate _ _;
    started = λ i. rw (blank Duration i, blank O i) refl;
    finished = λ i. rw (blank Duration i, blank O i) refl;
    listed = λ i. rw (blank O i) refl;
    ordered = λ i. rw (blank Duration i) (omega arith);
    past = λ i. rw (blank Duration i) (omega arith);
    after = λ i at on. absurd (cc (ap is_some (blank O i)));
  }

  module _ (vals : NodeValues O) (t : TraceObserver) (h : IsRecorded vals t) where
    pub mark_ready-IsRecorded :
        (X : Type 0) (id : NodeId) (w : ℕ)
        → id < length dag.nodes
        → Sees {X = X} vals (mark_ready clock t id w)
    unfolding mark_ready
    mark_ready-IsRecorded X id w lt = elim (Option-cases (get_or t.ready_at id none)) [
      | inl e ↦
          rw
            (
              index-eq-done t.ready_at id none (omega (arith, lt, h.ready_size)),
              e,
              assign-eq-done t.ready_at id (some (clock t.readings))
                  (omega (arith, lt, h.ready_size)),
            )
            (record {
              values = h.values;
              ready_size = length-set t.ready_at id _ ∙ h.ready_size;
              started_size = h.started_size;
              finished_size = h.finished_size;
              worker_size = h.worker_size;
              started = h.started;
              finished = h.finished;
              listed = h.listed;
              ordered = h.ordered;
              past = λ i. omega (arith, h.past i, mono t.readings (t.readings + 1) (omega arith));
              after = h.after;
            })
      | inr (a, e) ↦
          rw (index-eq-done t.ready_at id none (omega (arith, lt, h.ready_size)), e)
            (record {
              values = h.values;
              ready_size = h.ready_size;
              started_size = h.started_size;
              finished_size = h.finished_size;
              worker_size = h.worker_size;
              started = h.started;
              finished = h.finished;
              listed = h.listed;
              ordered = h.ordered;
              past = h.past;
              after = h.after;
            })
    ]
