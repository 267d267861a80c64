-- ===== src/Trace/Ran.antt =====
-- A node that runs is recorded with its value: it starts, it finishes, and its value is there.
use rust_dag_executor.Prelude.{
  ℕ, ◌+◌, ◌<◌, ◌≡◌, sym, ap, ◌∙◌, List, true, false, Option, none, some, inl, inr, arith, length,
  is_some, get_or, set, Memᴰ, length-set, Option-cases,
}
use rust_dag_executor.Prelude.Outcome.{
  Outcome, done, ◌>>=◌, index, assign, index-eq-done, assign-eq-done,
}
use rust_dag_executor.Graph.{NodeId, Node, Dag}
use rust_dag_executor.Graph.Semantics.{NodeAt}
use rust_dag_executor.Exec.Common.{NodeValues}
use rust_dag_executor.Exec.Scheduling.Waiting.{has_value}
use rust_dag_executor.Trace.{Duration, TraceObserver, mark_started, mark_start, mark_finish}
use rust_dag_executor.Trace.Recorded.{IsClock, IsRecorded, Sees}
use rust_dag_executor.Trace.Written.{fresh_run, run_again}

module _ {K O E : Type 0} (clock : ℕ → Duration) (mono : IsClock clock) (dag : Dag K O E)
    (vals : NodeValues O) (t : TraceObserver) (h : IsRecorded clock mono dag vals t) where
  module _ (X : Type 0) (id : NodeId) (v : O) (node : Node K O E) (at : NodeAt dag id node)
      (lt : id < length dag.nodes)
      (deps : (d : NodeId) → Memᴰ d node.deps → has_value vals d ≡ true) where
    abbrev ran : Outcome X TraceObserver
    ran = mark_start clock t id none >>= λ t. mark_finish clock t id

    read_at :
        {A : Type 0} (xs : List (Option A))
        → length xs ≡ length dag.nodes
        → index {X = X} xs id ≡ done (get_or xs id none)
    read_at xs size = index-eq-done xs id none (omega (arith, lt, size))

    write_at :
        {A : Type 0} (xs : List (Option A)) (a : Option A)
        → length xs ≡ length dag.nodes
        → assign {X = X} xs id a ≡ done (set xs id a)
    write_at xs a size = assign-eq-done xs id a (omega (arith, lt, size))

    ran-fresh :
        get_or t.started_at id none ≡ none
        → get_or t.finished_at id none ≡ none
        → has_value vals id ≡ false
        → Sees clock mono dag (set vals id (some v)) ran
    unfolding mark_start mark_started mark_finish
    ran-fresh e e' unmet = elim (Option-cases (get_or t.worker_id id none)) [
      | inl w ↦
          rw
            (
              read_at t.started_at h.started_size,
              e,
              write_at t.started_at (some (clock t.readings)) h.started_size,
              read_at t.worker_id h.worker_size,
              w,
              write_at t.worker_id none h.worker_size,
              read_at t.finished_at h.finished_size,
              e',
              write_at t.finished_at (some (clock (t.readings + 1))) h.finished_size,
            )
            (fresh_run clock mono dag vals t h id v node at lt deps (set t.worker_id id none)
              (length-set t.worker_id id _ ∙ h.worker_size) unmet)
      | inr (_, w) ↦
          rw
            (
              read_at t.started_at h.started_size,
              e,
              write_at t.started_at (some (clock t.readings)) h.started_size,
              read_at t.worker_id h.worker_size,
              w,
              read_at t.finished_at h.finished_size,
              e',
              write_at t.finished_at (some (clock (t.readings + 1))) h.finished_size,
            )
            (fresh_run clock mono dag vals t h id v node at lt deps t.worker_id h.worker_size unmet)
    ]

    ran-again :
        {a b : Duration}
        → get_or t.started_at id none ≡ some a
        → get_or t.finished_at id none ≡ some b
        → has_value vals id ≡ true
        → Sees clock mono dag (set vals id (some v)) ran
    unfolding mark_start mark_started mark_finish
    ran-again e e' met = elim (Option-cases (get_or t.worker_id id none)) [
      | inl w ↦
          rw
            (
              read_at t.started_at h.started_size,
              e,
              read_at t.worker_id h.worker_size,
              w,
              write_at t.worker_id none h.worker_size,
              read_at t.finished_at h.finished_size,
              e',
            )
            (run_again clock mono dag vals t h id v node at lt deps (set t.worker_id id none)
              (length-set t.worker_id id _ ∙ h.worker_size) met)
      | inr (_, w) ↦
          rw
            (
              read_at t.started_at h.started_size,
              e,
              read_at t.worker_id h.worker_size,
              w,
              read_at t.finished_at h.finished_size,
              e',
            )
            (run_again clock mono dag vals t h id v node at lt deps t.worker_id h.worker_size met)
    ]

    -- A node that starts and finishes gets its value.
    pub ran-IsRecorded : Sees clock mono dag (set vals id (some v)) ran
    ran-IsRecorded = elim (Option-cases (get_or t.started_at id none)) [
      | inl e ↦
          let unmet : has_value vals id ≡ false = sym (h.started id) ∙ ap is_some e in
          elim (Option-cases (get_or t.finished_at id none)) [
            | inl e' ↦ ran-fresh e e' unmet
            | inr (b, e') ↦ cc (ap is_some e', h.finished id, unmet)
          ]
      | inr (a, e) ↦
          let met : has_value vals id ≡ true = sym (h.started id) ∙ ap is_some e in
          elim (Option-cases (get_or t.finished_at id none)) [
            | inl e' ↦ cc (ap is_some e', h.finished id, met)
            | inr (b, e') ↦ ran-again e e' met
          ]
    ]
