-- ===== src/Exec/Parallel/Fewer.antt =====
-- What is still to be dispatched gets fewer: a node gets its value, or its task is sent to a worker.
use rust_dag_executor.Prelude.{
  ℕ, ◌+◌, ◌<◌, ◌≤◌, ◌≡◌, refl, ap, List, ◌∷◌, none, some, true, arith, length, set, get_or-set,
  count, total_update, total_mono,
}
use rust_dag_executor.Prelude.Outcome.{Partial, Partial-bind, assign, index, assign-done}
use rust_dag_executor.Graph.{NodeId, ExecutorConfig, Dag}
use rust_dag_executor.Exec.Observe.{ExecObserver}
use rust_dag_executor.Exec.Common.{NeededMask, NodeValues}
use rust_dag_executor.Exec.Common.Needed.{marked}
use rust_dag_executor.Exec.Scheduling.{release_dependents}
use rust_dag_executor.Exec.Pool.{Task, TaskResult, WorkerPool, try_send}
use rust_dag_executor.Exec.Pool.Load.{load-try_send, results}
use rust_dag_executor.Exec.Parallel.{Phase, sending, Scheduler, propagate}
use rust_dag_executor.Exec.Parallel.Machine.{is, sent_away, IsMachine}
use rust_dag_executor.Exec.Parallel.Measure.{still, to_dispatch}

module _ {K O E : Type 0} (dag : Dag K O E) (cfg : ExecutorConfig) {R : Type 0}
    (watch : ExecObserver R) (needed : NeededMask) (dependents : List (List NodeId))
    (needed_count : ℕ) where
  pub propagate-shape :
      (next : Phase O E) (s : Scheduler O E R) (id : NodeId) (v : O) (r : R)
      → Partial
          (λ t.
            (t.vals ≡ set s.vals id (some v))
            × (id < length s.vals)
            × (t.pool ≡ s.pool)
            × (t.phase ≡ next))
          (propagate dag cfg watch needed dependents needed_count next s id v r)
  unfolding propagate
  propagate-shape next s id v r = Partial-bind _ (assign s.vals id (some v)) _ λ vals written.
      Partial-bind _ (index dependents id) _ λ released _.
        Partial-bind _ (release_dependents watch released _) _ λ f _. (
          (assign-done s.vals id (some v) written).0,
          (assign-done s.vals id (some v) written).1,
          refl,
          refl,
        )

module _ {K O E : Type 0} (dag : Dag K O E) (cfg : ExecutorConfig) (needed : NeededMask)
    (marked-lt : (i : NodeId) → marked needed i ≡ true → i < length dag.nodes) where
  abbrev n : ℕ
  n = length dag.nodes

  -- One node leaves those that are still to be dispatched.
  to_dispatch-fewer :
      (vals vals' : NodeValues O) (pool pool' : WorkerPool O E) (id : NodeId)
      → id < n
      → ((i : NodeId) → (i ≡ id → ⊥) → still n needed vals pool i ≡ still n needed vals' pool' i)
      → still n needed vals pool id ≡ 1
      → still n needed vals' pool' id ≡ 0
      → to_dispatch n needed vals pool ≡ to_dispatch n needed vals' pool' + 1
  to_dispatch-fewer vals vals' pool pool' id lt others one none_left = omega (
    arith,
    total_update n (still n needed vals pool) (still n needed vals' pool') id lt others,
    one,
    none_left,
  )

  module _ {R : Type 0} where
    -- A ready node that gets its value is no longer to be dispatched.
    pub fewer_valued :
        (s : Scheduler O E R) (id : NodeId) (rest : List NodeId) (v : O)
        → IsMachine dag cfg needed s
        → s.ready ≡ id ∷ rest
        → id < length s.vals
        → to_dispatch n needed s.vals s.pool
          ≡ to_dispatch n needed (set s.vals id (some v)) s.pool + 1
    fewer_valued s id rest v h q lt =
        let place = h.frontier.places id in
        let first = ap (count id) q in
        to_dispatch-fewer s.vals (set s.vals id (some v)) s.pool s.pool id
          (marked-lt id (ground (arith, place, first)))
          (λ i other. ground (arith, get_or-set s.vals id (some v) i none lt))
          (ground (arith, place, first))
          (ground (arith, place, first, get_or-set s.vals id (some v) id none lt))

    -- A task that is sent is no longer to be dispatched.
    pub fewer_sent :
        (s : Scheduler O E R) (rounds : ℕ) (job : Task O E) {pool : WorkerPool O E} (idx : ℕ)
        → IsMachine dag cfg needed s
        → s.phase ≡ sending rounds job
        → try_send s.pool idx job ≡ some pool
        → to_dispatch n needed s.vals s.pool ≡ to_dispatch n needed s.vals pool + 1
    fewer_sent s rounds job {pool} idx h here sent =
        let place = h.frontier.places job.id in
        let away = ap (sent_away job.id) here in
        to_dispatch-fewer s.vals s.vals s.pool pool job.id
          (marked-lt job.id (ground (arith, place, away)))
          (λ i other. ground (arith, load-try_send (is i) s.pool idx job sent))
          (ground (arith, place, away))
          (ground (arith, place, away, load-try_send (is job.id) s.pool idx job sent))

    -- A result that comes in: its node is not among those to dispatch, before and after.
    pub same_received :
        (s : Scheduler O E R) (id : NodeId) (v : O) (r : TaskResult O E)
        (rest : List (TaskResult O E))
        → s.pool.results ≡ r ∷ rest
        → IsMachine dag cfg needed s
        → id ≡ r.id
        → id < length s.vals
        → to_dispatch n needed (set s.vals id (some v)) (record s.pool { results = rest })
          ≤ to_dispatch n needed s.vals s.pool
    same_received s id v r rest e h same lt = total_mono n _ _ λ i lt'.
        ground (arith, get_or-set s.vals id (some v) i none lt, ap (results (is i)) e, same)
