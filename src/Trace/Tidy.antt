-- ===== src/Trace/Tidy.antt =====
-- The trace observer under any scheduler: it does not panic, and lists a node once, when it starts.
use rust_dag_executor.Prelude.{
  ℕ, ◌<◌, ◌≡◌, sym, ap, ◌∙◌, [], ◌∷◌, Option, none, some, inl, inr, arith, length, is_some, bit,
  get_or, count, get_or-set, length-set, count-append, Option-cases, get_or-replicate,
  length-replicate,
}
use rust_dag_executor.Prelude.Outcome.{Ensures, Ensures-bind, index-eq-done, assign-eq-done}
use rust_dag_executor.Graph.{NodeId}
use rust_dag_executor.Trace.{
  Duration, TraceObserver, new, mark_ready, mark_started, mark_start, mark_finish,
}

module _ (n : ℕ) where
  pub record IsTidy (t : TraceObserver) : Type 0 where
    pub ready_size : length t.ready_at ≡ n
    pub started_size : length t.started_at ≡ n
    pub finished_size : length t.finished_at ≡ n
    pub worker_size : length t.worker_id ≡ n
    pub listed :
        (i : NodeId) → count i t.execution_order ≡ bit (is_some (get_or t.started_at i none))

  pub new-IsTidy : IsTidy (new n)
  unfolding new
  new-IsTidy = record {
    ready_size = length-replicate _ _;
    started_size = length-replicate _ _;
    finished_size = length-replicate _ _;
    worker_size = length-replicate _ _;
    listed =
        λ i. ap (λ at. bit (is_some at)) (sym (get_or-replicate {A = Option Duration} n none i));
  }

  module _ (X : Type 0) (clock : ℕ → Duration) (t : TraceObserver) (h : IsTidy t) (id : NodeId)
      (lt : id < n) where
    pub mark_ready-IsTidy : (w : ℕ) → Ensures {X = X} IsTidy (λ _. ⊥) (mark_ready clock t id w)
    unfolding mark_ready
    mark_ready-IsTidy w =
        rw (index-eq-done {X = X} t.ready_at id none (omega (arith, lt, h.ready_size)))
          (elim (Option-cases (get_or t.ready_at id none)) [
            | inr (a, e) ↦ rw e (record {
              ready_size = h.ready_size;
              started_size = h.started_size;
              finished_size = h.finished_size;
              worker_size = h.worker_size;
              listed = h.listed;
            })
            | inl e ↦
                rw
                  (
                    e,
                    assign-eq-done {X = X} t.ready_at id (some (clock t.readings))
                        (omega (arith, lt, h.ready_size)),
                  )
                  (record {
                    ready_size = length-set t.ready_at id _ ∙ h.ready_size;
                    started_size = h.started_size;
                    finished_size = h.finished_size;
                    worker_size = h.worker_size;
                    listed = h.listed;
                  })
          ])

    pub mark_finish-IsTidy : Ensures {X = X} IsTidy (λ _. ⊥) (mark_finish clock t id)
    unfolding mark_finish
    mark_finish-IsTidy =
        rw (index-eq-done {X = X} t.finished_at id none (omega (arith, lt, h.finished_size)))
          (elim (Option-cases (get_or t.finished_at id none)) [
            | inr (a, e) ↦ rw e h
            | inl e ↦
                rw
                  (
                    e,
                    assign-eq-done {X = X} t.finished_at id (some (clock t.readings))
                        (omega (arith, lt, h.finished_size)),
                  )
                  (record {
                    ready_size = h.ready_size;
                    started_size = h.started_size;
                    finished_size = length-set t.finished_at id _ ∙ h.finished_size;
                    worker_size = h.worker_size;
                    listed = h.listed;
                  })
          ])

    mark_started-IsTidy : Ensures {X = X} IsTidy (λ _. ⊥) (mark_started clock t id)
    unfolding mark_started
    mark_started-IsTidy =
        rw (index-eq-done {X = X} t.started_at id none (omega (arith, lt, h.started_size)))
          (elim (Option-cases (get_or t.started_at id none)) [
            | inr (a, e) ↦ rw e h
            | inl e ↦
                rw
                  (
                    e,
                    assign-eq-done {X = X} t.started_at id (some (clock t.readings))
                        (omega (arith, lt, h.started_size)),
                  )
                  (record {
                    ready_size = h.ready_size;
                    started_size = length-set t.started_at id _ ∙ h.started_size;
                    finished_size = h.finished_size;
                    worker_size = h.worker_size;
                    listed = λ i. ground (
                      arith,
                      count-append i t.execution_order (id ∷ []),
                      h.listed i,
                      e,
                      get_or-set t.started_at id (some (clock t.readings)) i none
                          (omega (arith, lt, h.started_size)),
                    );
                  })
          ])

  pub mark_start-IsTidy :
      (X : Type 0) (clock : ℕ → Duration) (t : TraceObserver)
      → IsTidy t
      → (id : NodeId) (by : Option ℕ) → id < n
      → Ensures {X = X} IsTidy (λ _. ⊥) (mark_start clock t id by)
  unfolding mark_start
  mark_start-IsTidy X clock t h id by lt =
      Ensures-bind (λ _. ⊥) IsTidy IsTidy (mark_started clock t id) _
        (mark_started-IsTidy X clock t h id lt)
        λ u k.
          rw (index-eq-done {X = X} u.worker_id id none (omega (arith, lt, k.worker_size)))
            (elim (Option-cases (get_or u.worker_id id none)) [
              | inr (a, e) ↦ rw e k
              | inl e ↦
                  rw
                    (e, assign-eq-done {X = X} u.worker_id id by (omega (arith, lt, k.worker_size)))
                    (record {
                      ready_size = k.ready_size;
                      started_size = k.started_size;
                      finished_size = k.finished_size;
                      worker_size = length-set u.worker_id id _ ∙ k.worker_size;
                      listed = k.listed;
                    })
            ])
