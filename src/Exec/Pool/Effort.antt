-- ===== src/Exec/Pool/Effort.antt =====
-- The actions that a pool has still to make: a queued task is taken, sent and received, one in a
-- worker's hands is sent and received, a result is received. A worker that can act lowers it, and one
-- that cannot leaves the pool as it is.
use rust_dag_executor.Prelude.{
  ℕ, zero, suc, ◌+◌, ◌*◌, ◌<◌, ◌≡◌, refl, ap, ◌∙◌, List, [], ◌∷◌, ◌++◌, none, some, arith, inl, inr,
  ◌⊎◌, bit, is_some, length, length-append, get_elem?, set, Option-cases, List-cases, dec_lt,
}
use mathlib.Core.List.{append-nil}
use rust_dag_executor.Exec.Pool.{
  Task, TaskResult, Worker, WorkerPool, spawn, try_send, work, advance,
}
use rust_dag_executor.Exec.Pool.Load.{
  tasks, in_hand, with_task, try_send-eq-some, workers, worker_load,
}

module _ {O E : Type 0} where
  abbrev pub worker_effort : Worker O E → ℕ
  worker_effort w = 3 * length w.queue + 2 * bit (is_some w.running)

  abbrev pub workers_effort : List (Worker O E) → ℕ
  workers_effort [] = 0
  workers_effort (w ∷ ws) = worker_effort w + workers_effort ws

  abbrev pub effort : WorkerPool O E → ℕ
  effort pool = workers_effort pool.workers + length pool.results

  workers_effort-set :
      (ws : List (Worker O E)) (i : ℕ) {w : Worker O E} (w' : Worker O E)
      → get_elem? ws i ≡ some w
      → workers_effort (set ws i w') + worker_effort w ≡ workers_effort ws + worker_effort w'
  workers_effort-set [] i w' e = cc
  workers_effort-set (v ∷ ws) zero {w} w' e =
      let same : v ≡ w = cc in omega (arith, ap worker_effort same)
  workers_effort-set (v ∷ ws) (suc i) w' e = omega (arith, workers_effort-set ws i w' e)

  set-get_elem? :
      (ws : List (Worker O E)) (i : ℕ) {w : Worker O E} → get_elem? ws i ≡ some w → set ws i w ≡ ws
  set-get_elem? [] i e = refl
  set-get_elem? (v ∷ ws) zero e = cc
  set-get_elem? (v ∷ ws) (suc i) e = ap (λ t. v ∷ t) (set-get_elem? ws i e)

  -- A worker acts, or has nothing in its hands and an empty queue.
  work_lem :
      (w : Worker O E)
      → (worker_effort (work w).0 + length (work w).1 + 1 ≡ worker_effort w)
        ⊎ ((work w ≡ (w, [])) × (w.queue ≡ []) × (w.running ≡ none))
  unfolding work
  work_lem w = elim (Option-cases w.running) [
    | inr (t, e) ↦ inl (rw (e, work) (omega arith))
    | inl e ↦ elim (List-cases w.queue) [
      | inl q ↦ inr (simp (e, q, work), q, e)
      | inr (t, ts, q) ↦ inl (rw (e, q, work) (omega (arith)))
    ]
  ]

  idle_pool :
      (pool : WorkerPool O E) (w : ℕ) (worker : Worker O E)
      → get_elem? pool.workers w ≡ some worker
      → (worker' : Worker O E) (sent : List (TaskResult O E)) → worker' ≡ worker
      → sent ≡ []
      → record pool { workers = set pool.workers w worker'; results = pool.results ++ sent } ≡ pool
  idle_pool pool w worker e worker' sent same nothing =
      let ws : set pool.workers w worker' ≡ pool.workers =
        ap (set pool.workers w) same ∙ set-get_elem? pool.workers w e in
      let rs : pool.results ++ sent ≡ pool.results =
        ap (λ t. pool.results ++ t) nothing ∙ append-nil pool.results in
      λ i. record pool { workers = ws i; results = rs i }

  pub effort-advance :
      (pool : WorkerPool O E) (w : ℕ)
      → (effort (advance pool w) < effort pool)
        ⊎ ((advance pool w ≡ pool)
            × ((worker : Worker O E)
                → get_elem? pool.workers w ≡ some worker
                → worker_load (λ _. 1) worker ≡ 0))
  unfolding advance
  effort-advance pool w = elim (Option-cases (get_elem? pool.workers w)) [
    | inl e ↦ inr (rw (e, advance) refl, λ worker e'. cc)
    | inr (worker, e) ↦ elim (work_lem worker) [
      | inl acts ↦ inl (
          rw (e, advance)
            (omega (
              arith,
              acts,
              length-append pool.results (work worker).1,
              workers_effort-set pool.workers w (work worker).0 e,
            )))
      | inr (idle, q, r) ↦ inr (
        rw (e, advance)
            (idle_pool pool w worker e (work worker).0 (work worker).1 (ap (λ p. p.0) idle)
              (ap (λ p. p.1) idle)),
        λ other e'.
            let same : other ≡ worker = cc in
            omega (
              arith,
              ap (tasks (λ _. 1)) (ap (λ o. o.queue) same ∙ q),
              ap (in_hand (λ _. 1)) (ap (λ o. o.running) same ∙ r),
            ),
      )
    ]
  ]

  pub effort-try_send :
      (pool : WorkerPool O E) (idx : ℕ) (t : Task O E) {pool' : WorkerPool O E}
      → try_send pool idx t ≡ some pool'
      → effort pool' ≡ effort pool + 3
  effort-try_send pool idx t h =
      let (worker, e, _, same) = try_send-eq-some pool idx t h in
      omega (
        arith,
        ap effort same,
        workers_effort-set pool.workers idx (with_task worker t) e,
        length-append worker.queue (t ∷ []),
      )

  -- Where the workers hold a task, one of them does.
  pub busy_worker :
      (ws : List (Worker O E))
      → 0 < workers (λ _. 1) ws
      → (w : ℕ) × (w < length ws)
        × (worker : Worker O E) × (get_elem? ws w ≡ some worker)
        × (0 < worker_load (λ _. 1) worker)
  busy_worker [] h = elim h [ ]
  busy_worker (v ∷ ws) h = elim (dec_lt 0 (worker_load (λ _. 1) v)) [
    | yes here ↦ (0, omega arith, v, refl, here)
    | no idle ↦
        let (w, lt, worker, e, holds) = busy_worker ws (omega arith) in
        (suc w, omega arith, worker, e, holds)
  ]

pub effort-spawn :
    (O E : Type 0) (n per_worker_cap : ℕ) → effort (spawn {O = O} {E = E} n per_worker_cap) ≡ 0
unfolding spawn
effort-spawn O E zero per_worker_cap = refl
effort-spawn O E (suc n) per_worker_cap = omega (arith, effort-spawn O E n per_worker_cap)
