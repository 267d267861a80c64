-- ===== src/Exec/Parallel/Closing.antt =====
-- `Drop for WorkerPool`, at the end of every call of the parallel executor, also of one that returns an
-- error. The task channels are closed, so a worker leaves its loop once its queue is empty, and the
-- workers are joined in their order. The receiver of the results lives longer than the pool, so a
-- worker's send succeeds.
pub mod Joined
use rust_dag_executor.Prelude.{
  ℕ, suc, List, [], ◌∷◌, Bool, not, ◌&&◌, is_empty, is_some, none, some, get_elem?, length, ◌==◌,
  if◌then◌else◌,
}
use rust_dag_executor.Prelude.Outcome.{Outcome, done, fail, panic, out_of_fuel}
use rust_dag_executor.Exec.Pool.{Worker, WorkerPool, advance}
use rust_dag_executor.Exec.Parallel.{Actor, scheduler, worker}

-- The pool that is dropped, and how many workers are joined.
pub record Closing (O E : Type 0) : Type 0 where
  pub pool : WorkerPool O E
  pub joined : ℕ

module _ {O E : Type 0} where
  -- The thread of a worker ends where its receiver is empty and no task is in its hands.
  abbrev pub has_ended : Worker O E → Bool
  has_ended w = is_empty w.queue && not (is_some w.running)

  -- `h.join()` for the next worker, which waits for the end of its thread.
  unfoldable pub join_next : Closing O E → Closing O E
  join_next s = elim (get_elem? s.pool.workers s.joined) [
    | none ↦ s
    | some w ↦ if has_ended w then record s { joined = suc s.joined } else s
  ]

  abbrev pub close_act : Closing O E → Actor → Closing O E
  close_act s scheduler = join_next s
  close_act s (worker w) = record s { pool = advance s.pool w }

  abbrev pub close_all : List Actor → Closing O E → Closing O E
  close_all [] s = s
  close_all (actor ∷ schedule) s = close_all schedule (close_act s actor)

  -- `drop`: it returns when every worker is joined, after which nobody acts.
  unfoldable pub drop_pool : List Actor → WorkerPool O E → Outcome (Unit {0}) (WorkerPool O E)
  drop_pool schedule pool =
      let s = close_all schedule (record { pool = pool; joined = 0 }) in
      if s.joined == length pool.workers then done s.pool else out_of_fuel
