-- ===== src/Exec/Parallel/RoundRobin.antt =====
-- `dispatch_task_try` in exec/parallel.rs: which worker gets a task, where no worker acts between the
-- rounds of the call.
use rust_dag_executor.Prelude.{ℕ, zero, suc, ◌+◌, ◌<◌, ◌≡◌, List, some, length, replicate}
use rust_dag_executor.Error.{ExecError}
use rust_dag_executor.Graph.{NodeId, ExecutorConfig, Dag}
use rust_dag_executor.Exec.Observe.{ExecObserver}
use rust_dag_executor.Exec.Common.{NeededMask}
use rust_dag_executor.Exec.Sequential.{Execution}
use rust_dag_executor.Exec.Pool.{Task, WorkerPool, try_send}
use rust_dag_executor.Exec.Parallel.{
  inner, sending, checking, Scheduler, Progress, going, scheduler, follow,
}
use rust_dag_executor.Exec.Pool.Turns.{IsFull, turn}

module _ {K O E R : Type 0} (dag : Dag K O E) (cfg : ExecutorConfig) (watch : ExecObserver R)
    (needed : NeededMask) (dependents : List (List NodeId)) (needed_count : ℕ) where
  abbrev S : Type 0
  S = Scheduler O E R

  -- The worker whose turn comes after `j` rounds.
  abbrev pub worker_at : S → ℕ → ℕ
  worker_at s j = turn (length s.pool.workers) s.next_worker j

  -- The scheduler alone acts, so many times.
  abbrev pub alone : ℕ → S → Progress (ExecError K E) S (Execution O R)
  alone actions s =
      follow dag cfg watch needed dependents needed_count (replicate actions scheduler) s

  -- The `next_worker` after so many rounds.
  abbrev pub next_after : S → ℕ → ℕ
  next_after s zero = s.next_worker
  next_after s (suc rounds) = worker_at s rounds + 1

  -- The task is queued: the workers before had no room.
  pub record IsQueued (s : S) (job : Task O E) (rounds : ℕ) : Type 0 where
    pub tried : ℕ
    pub in_time : tried < rounds
    pub before : (i : ℕ) → i < tried → IsFull s.pool (worker_at s i)
    pub pool : WorkerPool O E
    pub sent : try_send s.pool (worker_at s tried) job ≡ some pool
    pub reached :
        alone (suc tried) s
        ≡ going (record s {
          phase = inner;
          frontier = record s.frontier {
            observer = watch.mark_start s.observer job.id (some (worker_at s tried));
          };
          in_flight = s.in_flight + 1;
          next_worker = worker_at s tried + 1;
          pool = pool;
        })

  -- No worker had room in its turn.
  pub record IsRefused (s : S) (job : Task O E) (rounds : ℕ) : Type 0 where
    pub full : (i : ℕ) → i < rounds → IsFull s.pool (worker_at s i)
    pub reached :
        alone (suc rounds) s
        ≡ going
            (record s { phase = checking; pending = some job; next_worker = next_after s rounds })

  abbrev passed : S → ℕ → Task O E → S
  passed s rounds job = record s { phase = sending rounds job; next_worker = worker_at s 0 + 1 }

  abbrev queued : S → Task O E → ℕ → WorkerPool O E → S
  queued s job w pool = record s {
    phase = inner;
    frontier = record s.frontier { observer = watch.mark_start s.observer job.id (some w) };
    in_flight = s.in_flight + 1;
    next_worker = w + 1;
    pool = pool;
  }
