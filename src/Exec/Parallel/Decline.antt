-- ===== src/Exec/Parallel/Decline.antt =====
-- Every action of the machine lowers its measure, or leaves the machine as it is.
use rust_dag_executor.Prelude.{
  ℕ, zero, suc, ◌%◌, ◌<◌, ◌≡◌, refl, sym, ap, subst, List, [], ◌∷◌, ◌⊎◌, inl, inr, none, some, true,
  arith, ◌==◌, length, get_elem?, set, Option-cases, List-cases, Bool-cases, ltb, total_mono,
}
use rust_dag_executor.Prelude.Result.{Result, ok, err}
use rust_dag_executor.Prelude.Outcome.{
  Outcome, done, fail, panic, out_of_fuel, ◌>>=◌, Partial, Partial-bind, Partial-mono, index,
  decrement,
}
use rust_dag_executor.Error.{ExecError}
use rust_dag_executor.Graph.{NodeId, ExecutorConfig, NodeKind, source, task, Node, Dag}
use rust_dag_executor.Exec.Observe.{ExecObserver}
use rust_dag_executor.Exec.Common.{NeededMask}
use rust_dag_executor.Exec.Common.Needed.{marked}
use rust_dag_executor.Exec.Scheduling.{collect_args}
use rust_dag_executor.Exec.Sequential.{Execution}
use rust_dag_executor.Exec.Pool.{Task, TaskResult, Worker, try_send}
use rust_dag_executor.Exec.Pool.Load.{load-advance, worker_load}
use rust_dag_executor.Exec.Pool.Effort.{effort, effort-advance, effort-try_send}
use rust_dag_executor.Exec.Parallel.{
  Phase, outer, inner, sending, checking, receiving, Scheduler, effective_cap, Progress, going,
  returned, onward, propagate, start, dispatch, dispatch_task_try, assert_none, receive, recv, step,
  Actor, scheduler, worker, act,
}
use rust_dag_executor.Exec.Parallel.Machine.{is, each_one, busy, IsMachine}
use rust_dag_executor.Exec.Parallel.Measure.{
  rank, weight, weight_dispatch, weight_act, weight_work, weight_way, to_dispatch,
}
use rust_dag_executor.Exec.Parallel.Fewer.{propagate-shape, fewer_valued, fewer_sent, same_received}

module _ {K O E : Type 0} (dag : Dag K O E) (cfg : ExecutorConfig) {R : Type 0}
    (watch : ExecObserver R) (needed : NeededMask) (dependents : List (List NodeId))
    (needed_count : ℕ)
    (marked-lt : (i : NodeId) → marked needed i ≡ true → i < length dag.nodes) where
  abbrev S : Type 0
  S = Scheduler O E R

  abbrev n : ℕ
  n = length dag.nodes

  abbrev pub measure : S → ℕ
  measure s =
      weight cfg.max_workers (to_dispatch n needed s.vals s.pool) (effort s.pool)
        (rank cfg.max_workers s.phase)

  -- Who has nothing to do: the scheduler where it waits for a result, a worker that has no task.
  abbrev pub IsIdle : S → Actor → Type 0
  IsIdle s scheduler = (s.phase ≡ receiving) × (s.pool.results ≡ [])
  IsIdle s (worker w) =
      (here : Worker O E) → get_elem? s.pool.workers w ≡ some here → worker_load each_one here ≡ 0

  -- The measure falls, or the actor was idle and nothing changed, or the call returned.
  abbrev pub Declines : S → Actor → Progress (ExecError K E) S (Execution O R) → Type 0
  Declines s actor (going t) = (measure t < measure s) ⊎ ((t ≡ s) × IsIdle s actor)
  Declines s actor (returned r) = Unit

  abbrev Less : S → S → Type 0
  Less s t = (measure t < measure s) ⊎ ((t ≡ s) × IsIdle s scheduler)

  Declines-onward :
      (s : S) (r : Outcome (ExecError K E) S) → Partial (Less s) r → Declines s scheduler (onward r)
  Declines-onward s (done t) h = h
  Declines-onward s (fail x) h = tt
  Declines-onward s panic h = tt
  Declines-onward s out_of_fuel h = tt

  start-Less :
      (s : S) (id : NodeId) (rest : List NodeId) (node : Node K O E) (kind : NodeKind O E)
      → IsMachine dag cfg needed s
      → s.phase ≡ inner
      → s.ready ≡ id ∷ rest
      → Partial (Less s) (
          start dag cfg watch needed dependents needed_count
            (record s { frontier = record s.frontier { ready = rest } })
            id
            node
            kind)
  unfolding start
  start-Less s id rest node (task f) h here q =
      Partial-bind _ (collect_args dag s.vals node.deps) _ λ args _. inl (
        weight_way cfg.max_workers _ _ _ _ _ _ (omega arith) (omega arith)
          (omega (arith, h.pooled.n_workers, ap (rank cfg.max_workers) here)))
  start-Less s id rest node (source v) h here q =
      Partial-mono _ (Less s)
        (propagate dag cfg watch needed dependents needed_count inner _ id v _)
        (propagate-shape dag cfg watch needed dependents needed_count inner
          (record s { frontier = record s.frontier { ready = rest } }) id v _)
        λ t (vals, lt, pool, phase). inl (
          weight_dispatch cfg.max_workers _ _ _ _ _ _
            (omega (
              arith,
              fewer_valued dag cfg needed marked-lt s id rest v h q lt,
              ap (λ vs. to_dispatch n needed vs t.pool) vals,
              ap (to_dispatch n needed (set s.vals id (some v))) pool,
            ))
            (omega (arith, ap effort pool)) (omega (arith, ap (rank cfg.max_workers) phase)))

  dispatch-cons :
      (s : S) (id : NodeId) (rest : List NodeId)
      → s.pending ≡ none
      → s.ready ≡ id ∷ rest
      → dispatch dag cfg watch needed dependents needed_count s ≡ (
          index dag.nodes id >>= λ node.
          start dag cfg watch needed dependents needed_count
            (record s { frontier = record s.frontier { ready = rest } })
            id
            node
            node.kind)
  unfolding dispatch
  dispatch-cons s id rest p q = simp (p, q, dispatch)

  dispatch-Less :
      (s : S)
      → IsMachine dag cfg needed s
      → s.phase ≡ inner
      → Partial (Less s) (dispatch dag cfg watch needed dependents needed_count s)
  unfolding dispatch
  dispatch-Less s h here = elim (Option-cases s.pending) [
    | inr (job, p) ↦
        rw (p, dispatch)
          (inl (
            weight_way cfg.max_workers _ _ _ _ _ _ (omega arith) (omega arith)
              (omega (arith, h.pooled.n_workers, ap (rank cfg.max_workers) here))))
    | inl p ↦ elim (List-cases s.ready) [
      | inl q ↦
          rw (p, q, dispatch)
            (inl (
              weight_way cfg.max_workers _ _ _ _ _ _ (omega arith) (omega arith)
                (omega (arith, ap (rank cfg.max_workers) here))))
      | inr (id, rest, q) ↦ subst (Partial (Less s)) (sym (dispatch-cons s id rest p q)) (
          Partial-bind _ (index dag.nodes id) _
            λ node _. start-Less s id rest node node.kind h here q)
    ]
  ]

  try-Less :
      (s : S) (rounds : ℕ) (job : Task O E)
      → IsMachine dag cfg needed s
      → s.phase ≡ sending rounds job
      → Less s (dispatch_task_try dag cfg watch needed dependents needed_count s rounds job)
  unfolding dispatch_task_try
  try-Less s zero job h here = inl (
      weight_way cfg.max_workers _ _ _ _ _ _ (omega arith) (omega arith)
        (omega (arith, ap (rank cfg.max_workers) here)))
  try-Less s (suc rounds) job h here =
      let idx = s.next_worker % length s.pool.workers in
      elim (Option-cases (try_send s.pool idx job)) [
        | inl full ↦
            rw (full, dispatch_task_try)
              (inl (
                weight_way cfg.max_workers _ _ _ _ _ _ (omega arith) (omega arith)
                  (omega (arith, ap (rank cfg.max_workers) here))))
        | inr (pool, sent) ↦
            rw (sent, dispatch_task_try)
              (inl (
                weight_dispatch cfg.max_workers _ _ _ _ _ _
                  (fewer_sent dag cfg needed marked-lt s (suc rounds) job idx h here sent)
                  (omega (arith, effort-try_send s.pool idx job sent)) (omega arith)))
      ]

  recv-nil :
      (s : S) → s.pool.results ≡ [] → recv dag cfg watch needed dependents needed_count s ≡ done s
  unfolding recv
  recv-nil s e = simp (e, recv)

  abbrev received : S → ℕ → List (TaskResult O E) → S
  received s in_flight rest = record s {
    in_flight = in_flight;
    pool = record s.pool { results = rest };
  }

  recv-cons :
      (s : S) (r : TaskResult O E) (rest : List (TaskResult O E))
      → s.pool.results ≡ r ∷ rest
      → recv dag cfg watch needed dependents needed_count s ≡ (
          decrement s.in_flight >>= λ in_flight.
          receive dag cfg watch needed dependents needed_count
            (received s in_flight rest)
            r.id
            r.out
            (watch.mark_finish s.observer r.id))
  unfolding recv
  recv-cons s r rest e = simp (e, recv)

  receive-Less :
      (s : S) (in_flight : ℕ) (r : TaskResult O E) (rest : List (TaskResult O E))
      → s.pool.results ≡ r ∷ rest
      → IsMachine dag cfg needed s
      → (out : Result O E) (observer : R)
      → Partial (Less s) (
          receive dag cfg watch needed dependents needed_count
            (received s in_flight rest)
            r.id
            out
            observer)
  unfolding receive
  receive-Less s in_flight r rest e h (err x) observer =
      Partial-bind _ (index dag.nodes r.id) _ λ node _. tt
  receive-Less s in_flight r rest e h (ok v) observer =
      Partial-bind _ (index s.vals r.id) _ λ slot _. Partial-bind _ (assert_none slot) _ λ _ _.
        Partial-mono _ (Less s)
          (propagate dag cfg watch needed dependents needed_count outer _ r.id v _)
          (propagate-shape dag cfg watch needed dependents needed_count outer
            (received s in_flight rest) r.id v observer)
          λ t (vals, lt, pool, phase). inl (
            weight_act cfg.max_workers _ _ _ _ _ _
              (omega (
                arith,
                same_received dag cfg needed marked-lt s r.id v r rest e h refl lt,
                ap (λ vs. to_dispatch n needed vs t.pool) vals,
                ap (to_dispatch n needed (set s.vals r.id (some v))) pool,
              ))
              (omega (arith, ap effort pool, ap length e))
              (omega (arith, ap (rank cfg.max_workers) phase)))

  -- A result that is received: its node has been dispatched already.
  recv-Less :
      (s : S)
      → IsMachine dag cfg needed s
      → s.phase ≡ receiving
      → Partial (Less s) (recv dag cfg watch needed dependents needed_count s)
  unfolding recv
  recv-Less s h here = elim (List-cases s.pool.results) [
    | inl e ↦ subst (Partial (Less s)) (sym (recv-nil s e)) (inr (refl, (here, e)))
    | inr (r, rest, e) ↦ subst (Partial (Less s)) (sym (recv-cons s r rest e)) (
        Partial-bind _ (decrement s.in_flight) _
          λ in_flight _. receive-Less s in_flight r rest e h r.out _)
  ]

  -- A step to another place of the scheduler.
  go_on :
      (s : S) (next : Phase O E)
      → rank cfg.max_workers next < rank cfg.max_workers s.phase
      → Less s (record s { phase = next })
  go_on s next less = inl (weight_way cfg.max_workers _ _ _ _ _ _ (omega arith) (omega arith) less)

  step-Declines :
      (s : S) (phase : Phase O E)
      → IsMachine dag cfg needed s
      → s.phase ≡ phase
      → Declines s scheduler (step dag cfg watch needed dependents needed_count s phase)
  unfolding step
  step-Declines s outer h here = elim (Bool-cases (ltb s.processed needed_count)) [
    | inl more ↦ rw more (go_on s inner (omega (arith, ap (rank cfg.max_workers) here)))
    | inr enough ↦ rw enough tt
  ]
  step-Declines s inner h here = elim (Bool-cases (ltb s.in_flight (effective_cap cfg))) [
    | inl room ↦ rw room (Declines-onward s _ (dispatch-Less s h here))
    | inr full ↦ rw full (go_on s checking (omega (arith, ap (rank cfg.max_workers) here)))
  ]
  step-Declines s (sending rounds job) h here = try-Less s rounds job h here
  step-Declines s checking h here = elim (Bool-cases (s.in_flight == 0)) [
    | inl idle ↦ rw idle tt
    | inr busy ↦ rw busy (go_on s receiving (omega (arith, ap (rank cfg.max_workers) here)))
  ]
  step-Declines s receiving h here = Declines-onward s _ (recv-Less s h here)

  pub act-Declines :
      (s : S) (actor : Actor)
      → IsMachine dag cfg needed s
      → Declines s actor (act dag cfg watch needed dependents needed_count s actor)
  unfolding act
  act-Declines s scheduler h = step-Declines s s.phase h refl
  act-Declines s (worker w) h = elim (effort-advance s.pool w) [
    | inl less ↦ inl (
        weight_work cfg.max_workers _ _ _ _ _
          (total_mono n _ _ (λ i lt. omega (arith, load-advance (is i) s.pool w))) less)
    | inr (same, idle) ↦ inr (λ i. record s { pool = same i }, idle)
  ]
