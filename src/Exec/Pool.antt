-- ===== src/Exec/Pool.antt =====
-- exec/parallel.rs, the worker pool: each worker has a bounded queue of tasks (`sync_channel`), all
-- send to one unbounded queue of results (`channel`), and a worker runs one task at a time.
-- A worker leaves its loop only when the pool is dropped, so a channel is never found disconnected
-- while the scheduler runs, and the errors of that are left out.
pub mod Load
pub mod Jobs
pub mod Effort
pub mod Turns
use rust_dag_executor.Prelude.{
  ℕ, suc, List, [], ◌∷◌, ◌++◌, Option, none, some, length, get_elem?, set, replicate, ltb,
  if◌then◌else◌,
}
use rust_dag_executor.Prelude.Result.{Result}
use rust_dag_executor.Graph.{NodeId, TaskFn}

pub record Task (O E : Type 0) : Type 0 where
  pub id : NodeId
  pub func : TaskFn O E
  pub args : List O

pub record TaskResult (O E : Type 0) : Type 0 where
  pub id : NodeId
  pub out : Result O E

-- What a worker's receiver holds, and the task in its hands.
pub record Worker (O E : Type 0) : Type 0 where
  pub queue : List (Task O E)
  pub running : Option (Task O E)

pub record WorkerPool (O E : Type 0) : Type 0 where
  pub workers : List (Worker O E)
  pub per_worker_cap : ℕ
  pub results : List (TaskResult O E)

module _ {O E : Type 0} where
  unfoldable pub spawn : (n_workers per_worker_cap : ℕ) → WorkerPool O E
  spawn n_workers per_worker_cap = record {
    workers = replicate n_workers (record { queue = []; running = none });
    per_worker_cap = per_worker_cap;
    results = [];
  }

  -- `task_txs[idx].try_send(task)`: the pool with the task queued, or nothing where the queue is
  -- full. An index out of bounds is taken for a full queue; a round-robin index never is.
  unfoldable pub try_send : WorkerPool O E → ℕ → Task O E → Option (WorkerPool O E)
  try_send pool idx task = elim (get_elem? pool.workers idx) [
    | none ↦ none
    | some worker ↦
        if ltb (length worker.queue) pool.per_worker_cap
        then some (record pool {
          workers = set pool.workers idx (record worker { queue = worker.queue ++ task ∷ [] });
        })
        else none
  ]

  -- What a worker does next: it sends the result of the task in its hands, or else takes the next
  -- task of its queue, or else waits.
  unfoldable pub work : Worker O E → Worker O E × List (TaskResult O E)
  work worker = elim worker.running [
    | some task ↦
        (record worker { running = none }, record { id = task.id; out = task.func task.args } ∷ [])
    | none ↦ elim worker.queue [
      | [] ↦ (worker, [])
      | task ∷ queue ↦ (record { queue = queue; running = some task }, [])
    ]
  ]

  -- One move of the worker `w`; a worker that there is not makes none.
  unfoldable pub advance : WorkerPool O E → ℕ → WorkerPool O E
  advance pool w = elim (get_elem? pool.workers w) [
    | none ↦ pool
    | some worker ↦
        let (worker', sent) = work worker in
        record pool { workers = set pool.workers w worker'; results = pool.results ++ sent }
  ]
