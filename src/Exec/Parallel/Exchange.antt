-- ===== src/Exec/Parallel/Exchange.antt =====
-- What the scheduler sends to the workers, and a worker's move, keep the invariant.
use rust_dag_executor.Prelude.{
  ℕ, zero, suc, ◌%◌, ◌≡◌, ap, ◌∙◌, subst, List, arith, length, Option-cases, inl, inr,
}
use rust_dag_executor.Graph.{ExecutorConfig, Dag}
use rust_dag_executor.Graph.WellFormed.{IsWellFormed}
use rust_dag_executor.Exec.Observe.{ExecObserver}
use rust_dag_executor.Exec.Common.{NeededMask, KahnMetadata}
use rust_dag_executor.Exec.Common.Needed.{IsNeededMask}
use rust_dag_executor.Exec.Common.Counters.{IsMetadata}
use rust_dag_executor.Exec.Pool.{Task, try_send, advance}
use rust_dag_executor.Exec.Pool.Load.{
  in_hand, load-try_send, load-pos, try_send-size, advance-size, load-advance,
}
use rust_dag_executor.Exec.Pool.Jobs.{try_send-IsPool, advance-IsPool}
use rust_dag_executor.Exec.Parallel.{
  Phase, outer, inner, sending, checking, receiving, Scheduler, dispatch_task_try,
}
use rust_dag_executor.Exec.Parallel.Machine.{
  is, each_one, IsConfig, IsJob, sent_away, AtPhase, IsMachine, regrip,
}

module _ {K O E : Type 0} (eq : Discrete K) (dag : Dag K O E) (wf : IsWellFormed eq dag)
    (outputs : List K) (needed : NeededMask) (mask : IsNeededMask eq dag wf outputs needed)
    (m : KahnMetadata) (counted : IsMetadata dag wf.closed needed mask.size m)
    (cfg : ExecutorConfig) (config : IsConfig cfg) {R : Type 0} (watch : ExecObserver R) where
  abbrev S : Type 0
  S = Scheduler O E R

  abbrev Machine : S → Type 0
  Machine = IsMachine dag cfg needed

  abbrev try : S → ℕ → Task O E → S
  try = dispatch_task_try dag cfg watch needed m.dependents m.needed_count

  -- A round of `dispatch_task_try`.
  pub dispatch_task_try_lem :
      (s : S) (rounds : ℕ) (job : Task O E)
      → Machine s
      → s.phase ≡ sending rounds job
      → Machine (try s rounds job)
  unfolding dispatch_task_try
  dispatch_task_try_lem s zero job h here =
      let (is_job, room, none_pending, left, unfinished) =
        subst (AtPhase dag cfg needed s) here h.at_phase in
      record {
        frontier =
            regrip dag needed
              (λ i. omega (arith, ap (sent_away i) here, ap (in_hand (is i)) none_pending))
              h.frontier;
        values = h.values;
        processed = h.processed;
        pooled = record {
          jobs = h.pooled.jobs;
          queue_cap = h.pooled.queue_cap;
          n_workers = h.pooled.n_workers;
          counted = h.pooled.counted;
          within = h.pooled.within;
          waiting = λ t e. subst (IsJob dag) (cc e) is_job;
        };
        at_phase = (λ idle. absurd (omega (arith, left idle)), unfinished);
      }
  dispatch_task_try_lem s (suc rounds) job h here =
      let (is_job, room, none_pending, left, unfinished) =
        subst (AtPhase dag cfg needed s) here h.at_phase in
      let idx = s.next_worker % length s.pool.workers in
      elim (Option-cases (try_send s.pool idx job)) [
        | inl full ↦
            rw (full, dispatch_task_try)
              (record {
                frontier = regrip dag needed (λ i. omega (arith, ap (sent_away i) here)) h.frontier;
                values = h.values;
                processed = h.processed;
                pooled = h.pooled;
                at_phase = (
                  is_job,
                  room,
                  none_pending,
                  λ idle. absurd (
                      omega (
                        arith,
                        idle,
                        h.pooled.counted,
                        load-pos each_one s.pool idx job (λ _. omega arith)
                            (omega (arith, h.pooled.n_workers, config.max_workers))
                            (omega (arith, h.pooled.queue_cap, config.worker_queue_cap)) full,
                      )),
                  unfinished,
                );
              })
        | inr (pool, sent) ↦
            rw (sent, dispatch_task_try)
              (record {
                frontier =
                    let moved =
                      regrip dag needed
                        (λ i.
                          omega (
                            arith,
                            ap (sent_away i) here,
                            load-try_send (is i) s.pool idx job sent,
                          ))
                        h.frontier in
                    record {
                      counters = moved.counters;
                      waits = moved.waits;
                      places = moved.places;
                    };
                values = h.values;
                processed = h.processed;
                pooled = record {
                  jobs = try_send-IsPool (IsJob dag) s.pool idx job is_job h.pooled.jobs sent;
                  queue_cap = (try_send-size s.pool idx job sent).0 ∙ h.pooled.queue_cap;
                  n_workers = (try_send-size s.pool idx job sent).1 ∙ h.pooled.n_workers;
                  counted =
                      omega (arith, h.pooled.counted, load-try_send each_one s.pool idx job sent);
                  within = omega (arith, room);
                  waiting = h.pooled.waiting;
                };
                at_phase = unfinished;
              })
      ]

  AtPhase-advance :
      (s : S) (w : ℕ) (phase : Phase O E)
      → AtPhase dag cfg needed s phase
      → AtPhase dag cfg needed (record s { pool = advance s.pool w }) phase
  AtPhase-advance s w outer h = h
  AtPhase-advance s w inner h = h
  AtPhase-advance s w (sending rounds job) h = h
  AtPhase-advance s w checking h = h
  AtPhase-advance s w receiving h = h

  -- A worker's move.
  pub advance_lem : (s : S) (w : ℕ) → Machine s → Machine (record s { pool = advance s.pool w })
  advance_lem s w h = record {
    frontier = regrip dag needed (λ i. omega (arith, load-advance (is i) s.pool w)) h.frontier;
    values = h.values;
    processed = h.processed;
    pooled = record {
      jobs = advance-IsPool (IsJob dag) s.pool w h.pooled.jobs;
      queue_cap = (advance-size s.pool w).0 ∙ h.pooled.queue_cap;
      n_workers = (advance-size s.pool w).1 ∙ h.pooled.n_workers;
      counted = omega (arith, h.pooled.counted, load-advance each_one s.pool w);
      within = h.pooled.within;
      waiting = h.pooled.waiting;
    };
    at_phase = AtPhase-advance s w s.phase h.at_phase;
  }
