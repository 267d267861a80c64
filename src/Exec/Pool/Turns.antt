-- ===== src/Exec/Pool/Turns.antt =====
-- Workers whose queue has no room, and the order in which workers have their turns.
use native.Mathlib.Nat.{
  mod-add-mod, add-mod-mod, mod-lt, mod-eq_of_lt, add-mul-mod_self_left, mod-add-div, mul-suc,
}
use rust_dag_executor.Prelude.{
  ℕ, suc, ◌+◌, ◌-◌, ◌*◌, ◌/◌, ◌%◌, ◌<◌, ◌≤◌, ◌≡◌, ◌≢◌, ap, ◌∙◌, inl, inr, [], ◌∷◌, none, some,
  arith, length, get_elem?, get_elem?-exists, Bool-cases, ltb, set, ◌++◌,
}
use rust_dag_executor.Exec.Pool.{Task, Worker, WorkerPool, try_send}

module _ {O E : Type 0} where
  -- The queue of the worker `w` has no room.
  pub IsFull : WorkerPool O E → ℕ → Type 0
  IsFull pool w =
      (worker : Worker O E) × (get_elem? pool.workers w ≡ some worker)
      × (pool.per_worker_cap ≤ length worker.queue)

  there : (pool : WorkerPool O E) → some pool ≢ none
  there pool e = cc

  pub refused-IsFull :
      (pool : WorkerPool O E) (w : ℕ) (job : Task O E)
      → w < length pool.workers
      → try_send pool w job ≡ none
      → IsFull pool w
  unfolding try_send IsFull
  refused-IsFull pool w job lt refused =
      let (worker, at) = get_elem?-exists pool.workers w lt in
      elim (Bool-cases (ltb (length worker.queue) pool.per_worker_cap)) [
        | inr full ↦ (worker, at, ground (arith, full))
        | inl room ↦ absurd (
            there
              (record pool {
                workers = set pool.workers w (record worker { queue = worker.queue ++ job ∷ [] });
              })
              (rw (at, room, try_send) at refused))
      ]

-- The worker whose turn comes `j` rounds after the one at `next`, of `n` workers.
abbrev pub turn : (n next j : ℕ) → ℕ
turn n next j = (next + j) % n

pub turn_later : (n next j : ℕ) → turn n (turn n next 0 + 1) j ≡ turn n next (suc j)
turn_later n next j =
    let plain : next + 0 ≡ next = omega arith in
    let left : next % n + 1 + j ≡ next % n + suc j = omega arith in
    ap (λ a. (a % n + 1 + j) % n) plain ∙ ap (◌% n) left ∙ mod-add-mod next n (suc j)

-- Every worker has its turn in `n` rounds.
pub turn_of : (n next w : ℕ) → w < n → (j : ℕ) × (j < n) × (turn n next j ≡ w)
turn_of n next w lt =
    let pos : ◌<◌ 0 n = omega (arith, lt) in
    let below = mod-lt next pos in
    let ahead = w + n - next % n in
    let whole : next + ahead ≡ w + n * suc (next / n) =
      omega (arith, below, mod-add-div next n, mul-suc n (next / n)) in
    (
      ahead % n,
      mod-lt ahead pos,
      add-mod-mod next ahead n
          ∙ ap (◌% n) whole
          ∙ add-mul-mod_self_left w n (suc (next / n))
          ∙ mod-eq_of_lt lt,
    )
