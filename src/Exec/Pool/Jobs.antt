-- ===== src/Exec/Pool/Jobs.antt =====
-- The invariant of a pool: queues stay within their bound, every task in it is one that was meant to
-- be sent, and a result is what its task returns.
use rust_dag_executor.Prelude.{
  ℕ, ◌≤◌, ◌≡◌, refl, sym, subst, [], ◌∷◌, some, arith, inl, inr, length, length-append, get_elem?,
  Option-cases, List-cases,
}
use rust_dag_executor.Prelude.Each.{
  Each, nil, cons, Each-append, Each-replicate, Each-at, Each-set, Each-head, Each-tail,
}
use rust_dag_executor.Exec.Pool.{
  Task, TaskResult, Worker, WorkerPool, spawn, try_send, work, advance,
}
use rust_dag_executor.Exec.Pool.Load.{try_send-eq-some}

module _ {O E : Type 0} (IsJob : Task O E → Type 0) where
  pub record IsResult (r : TaskResult O E) : Type 0 where
    pub of : Task O E
    pub job : IsJob of
    pub id : r.id ≡ of.id
    pub out : r.out ≡ of.func of.args

  pub record IsWorker (bound : ℕ) (worker : Worker O E) : Type 0 where
    pub bounded : length worker.queue ≤ bound
    pub queued : Each IsJob worker.queue
    pub in_hand : (t : Task O E) → worker.running ≡ some t → IsJob t

  pub record IsPool (pool : WorkerPool O E) : Type 0 where
    pub workers : Each (IsWorker pool.per_worker_cap) pool.workers
    pub results : Each IsResult pool.results

  work-IsWorker :
      (bound : ℕ) (w : Worker O E)
      → IsWorker bound w
      → IsWorker bound (work w).0 × Each IsResult (work w).1
  unfolding work
  work-IsWorker bound w h = elim (Option-cases w.running) [
    | inr (t, e) ↦
        rw (e, work)
          (
            record { bounded = h.bounded; queued = h.queued; in_hand = λ u e. cc },
            cons (record { of = t; job = h.in_hand t e; id = refl; out = refl }) nil,
          )
    | inl e ↦ elim (List-cases w.queue) [
      | inl q ↦ rw (e, q, work) (h, nil)
      | inr (t, ts, q) ↦
          let queued : Each IsJob (t ∷ ts) = subst (Each IsJob) q h.queued in
          let bounded : length (t ∷ ts) ≤ bound = subst (λ q. length q ≤ bound) q h.bounded in
          rw (e, q, work)
            (
              record {
                bounded = omega arith;
                queued = Each-tail IsJob queued;
                in_hand = λ u e. subst IsJob (cc e) (Each-head IsJob queued);
              },
              nil,
            )
    ]
  ]

  pub spawn-IsPool : (n bound : ℕ) → IsPool (spawn n bound)
  unfolding spawn
  spawn-IsPool n bound = record {
    workers =
        Each-replicate (IsWorker bound) n
          (record { bounded = omega arith; queued = nil; in_hand = λ t e. cc });
    results = nil;
  }

  -- A worker's move keeps the invariant.
  pub advance-IsPool : (pool : WorkerPool O E) (w : ℕ) → IsPool pool → IsPool (advance pool w)
  unfolding advance
  advance-IsPool pool w h = elim (Option-cases (get_elem? pool.workers w)) [
    | inl e ↦ rw (e, advance) h
    | inr (worker, e) ↦
        let P = IsWorker pool.per_worker_cap in
        let (kept, sent) = work-IsWorker pool.per_worker_cap worker (Each-at P w h.workers e) in
        rw (e, advance)
          (record {
            workers = Each-set P w h.workers kept;
            results = Each-append IsResult h.results sent;
          })
  ]

  -- So does the dispatch of a job.
  pub try_send-IsPool :
      (pool : WorkerPool O E) (idx : ℕ) (t : Task O E) {pool' : WorkerPool O E}
      → IsJob t
      → IsPool pool
      → try_send pool idx t ≡ some pool'
      → IsPool pool'
  try_send-IsPool pool idx t job h sent =
      let P = IsWorker pool.per_worker_cap in
      let (worker, e, room, same) = try_send-eq-some pool idx t sent in
      let before = Each-at P idx h.workers e in
      subst IsPool (sym same) (record {
        workers = Each-set P idx h.workers (record {
          bounded = omega (arith, length-append worker.queue (t ∷ []));
          queued = Each-append IsJob before.queued (cons job nil);
          in_hand = before.in_hand;
        });
        results = h.results;
      })
