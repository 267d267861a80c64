-- ===== src/Exec/Pool/Load.antt =====
-- What a pool holds: the sum of a weight over its tasks, those that are queued, those in the hands
-- of a worker and those that are results. A worker's move keeps it, a task that is sent adds to it.
use rust_dag_executor.Prelude.{
  ℕ, zero, suc, ◌+◌, ◌<◌, ◌≤◌, ◌≡◌, refl, ap, List, [], ◌∷◌, ◌++◌, Option, none, some, arith, inl,
  inr, length, length-set, ◌∙◌, get_elem?, get_elem?-exists, set, replicate, Option-cases,
  List-cases, Bool-cases, ltb,
}
use rust_dag_executor.Graph.{NodeId}
use rust_dag_executor.Exec.Pool.{
  Task, TaskResult, Worker, WorkerPool, spawn, try_send, work, advance,
}

module _ {O E : Type 0} where
  abbrev pub with_task : Worker O E → Task O E → Worker O E
  with_task worker t = record worker { queue = worker.queue ++ t ∷ [] }

  -- Where a task is sent, its worker's queue had room.
  pub try_send-eq-some :
      (pool : WorkerPool O E) (idx : ℕ) (t : Task O E) {pool' : WorkerPool O E}
      → try_send pool idx t ≡ some pool'
      → (worker : Worker O E) × (get_elem? pool.workers idx ≡ some worker)
        × (length worker.queue < pool.per_worker_cap)
        × (pool' ≡ record pool { workers = set pool.workers idx (with_task worker t) })
  unfolding try_send
  try_send-eq-some pool idx t h = elim (Option-cases (get_elem? pool.workers idx)) [
    | inl e ↦ let refused : try_send pool idx t ≡ none = rw (e, try_send) refl in cc
    | inr (worker, e) ↦ elim (Bool-cases (ltb (length worker.queue) pool.per_worker_cap)) [
      | inl room ↦
          let sent : try_send pool idx t
              ≡ some (record pool { workers = set pool.workers idx (with_task worker t) }) =
            rw (e, try_send, room) refl in
          (worker, e, ground arith, cc)
      | inr full ↦ let refused : try_send pool idx t ≡ none = rw (e, try_send, full) refl in cc
    ]
  ]

  pub try_send-size :
      (pool : WorkerPool O E) (idx : ℕ) (t : Task O E) {pool' : WorkerPool O E}
      → try_send pool idx t ≡ some pool'
      → (pool'.per_worker_cap ≡ pool.per_worker_cap) × (length pool'.workers ≡ length pool.workers)
  try_send-size pool idx t h =
      let (worker, e, _, same) = try_send-eq-some pool idx t h in
      (
        ap (λ p. p.per_worker_cap) same,
        ap (λ p. length p.workers) same ∙ length-set pool.workers idx (with_task worker t),
      )

  pub advance-size :
      (pool : WorkerPool O E) (w : ℕ)
      → ((advance pool w).per_worker_cap ≡ pool.per_worker_cap)
        × (length (advance pool w).workers ≡ length pool.workers)
  unfolding advance
  advance-size pool w = elim (Option-cases (get_elem? pool.workers w)) [
    | inl e ↦ rw (e, advance) (refl, refl)
    | inr (worker, e) ↦ rw (e, advance) (refl, length-set pool.workers w (work worker).0)
  ]

module _ {O E : Type 0} (weigh : NodeId → ℕ) where
  abbrev pub tasks : List (Task O E) → ℕ
  tasks [] = 0
  tasks (t ∷ ts) = weigh t.id + tasks ts

  abbrev pub in_hand : Option (Task O E) → ℕ
  in_hand none = 0
  in_hand (some t) = weigh t.id

  abbrev pub results : List (TaskResult O E) → ℕ
  results [] = 0
  results (r ∷ rs) = weigh r.id + results rs

  abbrev pub worker_load : Worker O E → ℕ
  worker_load worker = tasks worker.queue + in_hand worker.running

  abbrev pub workers : List (Worker O E) → ℕ
  workers [] = 0
  workers (w ∷ ws) = worker_load w + workers ws

  abbrev pub load : WorkerPool O E → ℕ
  load pool = workers pool.workers + results pool.results

  tasks-append : (ts us : List (Task O E)) → tasks (ts ++ us) ≡ tasks ts + tasks us
  tasks-append [] us = omega arith
  tasks-append (t ∷ ts) us = omega (arith, tasks-append ts us)

  results-append : (rs qs : List (TaskResult O E)) → results (rs ++ qs) ≡ results rs + results qs
  results-append [] qs = omega arith
  results-append (r ∷ rs) qs = omega (arith, results-append rs qs)

  workers-set :
      (ws : List (Worker O E)) (i : ℕ) {w : Worker O E} (w' : Worker O E)
      → get_elem? ws i ≡ some w
      → workers (set ws i w') + worker_load w ≡ workers ws + worker_load w'
  workers-set [] i w' e = cc
  workers-set (v ∷ ws) zero {w} w' e = let same : v ≡ w = cc in omega (arith, ap worker_load same)
  workers-set (v ∷ ws) (suc i) w' e = omega (arith, workers-set ws i w' e)

  workers-at :
      (ws : List (Worker O E)) (i : ℕ) {w : Worker O E}
      → get_elem? ws i ≡ some w
      → worker_load w ≤ workers ws
  workers-at [] i e = cc
  workers-at (v ∷ ws) zero {w} e = let same : v ≡ w = cc in omega (arith, ap worker_load same)
  workers-at (v ∷ ws) (suc i) e = omega (arith, workers-at ws i e)

  work-load : (w : Worker O E) → worker_load (work w).0 + results (work w).1 ≡ worker_load w
  unfolding work
  work-load w = elim (Option-cases w.running) [
    | inr (t, e) ↦ rw (e, work) (omega arith)
    | inl e ↦ elim (List-cases w.queue) [
      | inl q ↦ rw (e, q, work) (omega (arith, ap in_hand e, ap tasks q))
      | inr (t, ts, q) ↦ rw (e, q, work) (omega arith)
    ]
  ]

  pub load-advance : (pool : WorkerPool O E) (w : ℕ) → load (advance pool w) ≡ load pool
  unfolding advance
  load-advance pool w = elim (Option-cases (get_elem? pool.workers w)) [
    | inl e ↦ rw (e, advance) refl
    | inr (worker, e) ↦
        rw (e, advance)
          (omega (
            arith,
            workers-set pool.workers w (work worker).0 e,
            results-append pool.results (work worker).1,
            work-load worker,
          ))
  ]

  workers-replicate : (n : ℕ) (w : Worker O E) → worker_load w ≡ 0 → workers (replicate n w) ≡ 0
  workers-replicate zero w e = refl
  workers-replicate (suc n) w e = omega (arith, workers-replicate n w e, e)

  pub load-try_send :
      (pool : WorkerPool O E) (idx : ℕ) (t : Task O E) {pool' : WorkerPool O E}
      → try_send pool idx t ≡ some pool'
      → load pool' ≡ load pool + weigh t.id
  load-try_send pool idx t h =
      let (worker, e, _, same) = try_send-eq-some pool idx t h in
      omega (
        arith,
        ap load same,
        workers-set pool.workers idx (with_task worker t) e,
        tasks-append worker.queue (t ∷ []),
      )

  -- Where no worker's queue has room and there are some, the pool holds a task.
  pub load-pos :
      (pool : WorkerPool O E) (idx : ℕ) (t : Task O E)
      → ((u : Task O E) → 0 < weigh u.id)
      → idx < length pool.workers
      → 0 < pool.per_worker_cap
      → try_send pool idx t ≡ none
      → 0 < load pool
  unfolding try_send
  load-pos pool idx t heavy lt room h =
      let (worker, e) = get_elem?-exists pool.workers idx lt in
      elim (Bool-cases (ltb (length worker.queue) pool.per_worker_cap)) [
        | inl there ↦
            let sent : try_send pool idx t
                ≡ some (record pool { workers = set pool.workers idx (with_task worker t) }) =
              rw (e, try_send, there) refl in
            cc
        | inr full ↦ elim (List-cases worker.queue) [
          | inl q ↦ absurd (ground (arith, full, q))
          | inr (u, us, q) ↦ omega (arith, heavy u, ap tasks q, workers-at pool.workers idx e)
        ]
      ]

pub load-spawn :
    (O E : Type 0) (weigh : NodeId → ℕ) (n per_worker_cap : ℕ)
    → load weigh (spawn {O = O} {E = E} n per_worker_cap) ≡ 0
unfolding spawn
load-spawn O E weigh n per_worker_cap =
    omega (
      arith,
      workers-replicate {O = O} {E = E} weigh n (record { queue = []; running = none }) refl,
    )

module _ {O E : Type 0} (weigh weigh' : NodeId → ℕ) (le : (i : NodeId) → weigh i ≤ weigh' i) where
  tasks-le : (ts : List (Task O E)) → tasks weigh ts ≤ tasks weigh' ts
  tasks-le [] = omega arith
  tasks-le (t ∷ ts) = omega (arith, tasks-le ts, le t.id)

  in_hand-le : (o : Option (Task O E)) → in_hand weigh o ≤ in_hand weigh' o
  in_hand-le none = omega arith
  in_hand-le (some t) = le t.id

  results-le : (rs : List (TaskResult O E)) → results weigh rs ≤ results weigh' rs
  results-le [] = omega arith
  results-le (r ∷ rs) = omega (arith, results-le rs, le r.id)

  workers-le : (ws : List (Worker O E)) → workers weigh ws ≤ workers weigh' ws
  workers-le [] = omega arith
  workers-le (w ∷ ws) = omega (arith, workers-le ws, tasks-le w.queue, in_hand-le w.running)

  pub load-le : (pool : WorkerPool O E) → load weigh pool ≤ load weigh' pool
  load-le pool = omega (arith, workers-le pool.workers, results-le pool.results)
