-- ===== src/Exec/Parallel/Observed.antt =====
-- What an observer of the parallel executor can rely on: an invariant of its state that its methods keep,
-- at nodes of the graph, holds after the call, under every schedule.
use rust_dag_executor.Prelude.{
  ℕ, zero, suc, ◌<◌, ◌≡◌, refl, sym, subst, List, Option, none, some, inl, inr, length, Bool-cases,
  List-cases, Option-cases, get_elem?-eq-some, ltb, ◌==◌, ◌%◌,
}
use rust_dag_executor.Prelude.Each.{Each, Each-head}
use rust_dag_executor.Prelude.Outcome.{
  Outcome, done, fail, panic, out_of_fuel, index, assign, decrement, Partial, Partial-bind,
  Partial-done, index-done,
}
use rust_dag_executor.Prelude.Result.{Result, ok, err}
use rust_dag_executor.Error.{ExecError}
use rust_dag_executor.Graph.{NodeId, ExecutorConfig, NodeKind, source, task, Node, Dag}
use rust_dag_executor.Exec.Observe.{ExecObserver}
use rust_dag_executor.Exec.Common.{NodeValues, NeededMask}
use rust_dag_executor.Exec.Scheduling.{release_dependents, collect_args, remaining}
use rust_dag_executor.Exec.Sequential.{Execution}
use rust_dag_executor.Exec.Sequential.Observed.{IsKept, release_dependents-Holds}
use rust_dag_executor.Exec.Pool.{Task, try_send}
use rust_dag_executor.Exec.Pool.Jobs.{IsResult}
use rust_dag_executor.Exec.Parallel.{
  Phase, outer, inner, sending, checking, receiving, Scheduler, effective_cap, Progress, going,
  returned, onward, propagate, start, dispatch, dispatch_task_try, assert_none, receive, recv, step,
  Actor, scheduler, worker, act,
}
use rust_dag_executor.Exec.Parallel.Machine.{IsJob, AtPhase, IsMachine}

module _ {K O E R : Type 0} (dag : Dag K O E) (watch : ExecObserver R) (Seen : R → Type 0) where
  pub record IsWatched : Type 0 where
    pub ready :
        (r : R) (i : NodeId) (w : ℕ) → i < length dag.nodes → Seen r → Seen (watch.mark_ready r i w)
    pub start :
        (r : R) (i : NodeId) (by : Option ℕ)
        → i < length dag.nodes
        → Seen r
        → Seen (watch.mark_start r i by)
    pub finish : (r : R) (i : NodeId) → i < length dag.nodes → Seen r → Seen (watch.mark_finish r i)

  pub IsKept-of : IsWatched → IsKept dag watch (λ (_ : NodeValues O) r. Seen r)
  IsKept-of w = record {
    ready = λ vals r i width lt h. w.ready r i width lt h;
    ran = λ vals r i v node at deps h.
        let lt = get_elem?-eq-some dag.nodes i at in w.finish _ i lt (w.start r i none lt h);
  }

  -- After some actions.
  abbrev pub SeenAfter : Progress (ExecError K E) (Scheduler O E R) (Execution O R) → Type 0
  SeenAfter (going s) = Seen s.observer
  SeenAfter (returned r) = Partial (λ e. Seen e.observer) r

  module _ (watched : IsWatched) (cfg : ExecutorConfig) (needed : NeededMask)
      (dependents : List (List NodeId)) (needed_count : ℕ) where
    abbrev S : Type 0
    S = Scheduler O E R

    abbrev SeenAt : S → Type 0
    SeenAt s = Seen s.observer

    propagate-SeenAt :
        (next : Phase O E) (s : S) (id : NodeId) (v : O) (r : R)
        → length s.indeg ≡ length dag.nodes
        → Seen r
        → Partial SeenAt (propagate dag cfg watch needed dependents needed_count next s id v r)
    unfolding propagate
    propagate-SeenAt next s id v r size h =
        Partial-bind SeenAt (assign s.vals id (some v)) _ λ vals _.
          Partial-bind SeenAt (index dependents id) _ λ released _.
            Partial-bind SeenAt (release_dependents watch released _) _ λ f after.
              (Partial-done _ _
                (release_dependents-Holds dag watch (λ _ r. Seen r) (IsKept-of watched)
                  (ExecError K E) vals released (record s.frontier { observer = r }) (size, h))
                after).1

    start-SeenAt :
        (s : S) (id : NodeId) (node : Node K O E) (kind : NodeKind O E)
        → id < length dag.nodes
        → length s.indeg ≡ length dag.nodes
        → SeenAt s
        → Partial SeenAt (start dag cfg watch needed dependents needed_count s id node kind)
    unfolding start
    start-SeenAt s id node (source v) lt size h =
        propagate-SeenAt inner s id v _ size (watched.finish _ id lt (watched.start _ id none lt h))
    start-SeenAt s id node (task f) lt size h =
        Partial-bind SeenAt (collect_args dag s.vals node.deps) _ λ args _. h

    dispatch-SeenAt :
        (s : S)
        → IsMachine dag cfg needed s
        → SeenAt s
        → Partial SeenAt (dispatch dag cfg watch needed dependents needed_count s)
    unfolding dispatch
    dispatch-SeenAt s h seen = elim (Option-cases s.pending) [
      | inr (job, p) ↦ rw (p, dispatch) seen
      | inl p ↦ elim (List-cases s.ready) [
        | inl q ↦ rw (p, q, dispatch) seen
        | inr (id, rest, q) ↦
            rw (p, q, dispatch)
              (Partial-bind SeenAt (index dag.nodes id) _ λ node at.
                start-SeenAt _ id node node.kind
                  (get_elem?-eq-some dag.nodes id (index-done {X = ExecError K E} dag.nodes id at))
                  h.frontier.counters seen)
      ]
    ]

    try-SeenAt :
        (s : S) (rounds : ℕ) (job : Task O E)
        → IsJob dag job
        → SeenAt s
        → SeenAt (dispatch_task_try dag cfg watch needed dependents needed_count s rounds job)
    unfolding dispatch_task_try
    try-SeenAt s zero job is_job seen = seen
    try-SeenAt s (suc rounds) job is_job seen =
        elim (Option-cases (try_send s.pool (s.next_worker % length s.pool.workers) job)) [
          | inl full ↦ rw (full, dispatch_task_try) seen
          | inr (pool, sent) ↦
              rw (sent, dispatch_task_try)
                (watched.start _ job.id _ (get_elem?-eq-some dag.nodes job.id is_job.at) seen)
        ]

    receive-SeenAt :
        (s : S) (id : NodeId) (out : Result O E) (r : R)
        → length s.indeg ≡ length dag.nodes
        → Seen r
        → Partial SeenAt (receive dag cfg watch needed dependents needed_count s id out r)
    unfolding receive
    receive-SeenAt s id (ok v) r size h = Partial-bind SeenAt (index s.vals id) _ λ slot _.
        Partial-bind SeenAt (assert_none slot) _ λ _ _. propagate-SeenAt outer s id v r size h
    receive-SeenAt s id (err e) r size h = Partial-bind SeenAt (index dag.nodes id) _ λ node _. tt

    recv-SeenAt :
        (s : S)
        → IsMachine dag cfg needed s
        → SeenAt s
        → Partial SeenAt (recv dag cfg watch needed dependents needed_count s)
    unfolding recv
    recv-SeenAt s h seen = elim (List-cases s.pool.results) [
      | inl e ↦ rw (e, recv) seen
      | inr (r, rest, e) ↦
          let result =
            Each-head (IsResult (IsJob dag))
              (subst (Each (IsResult (IsJob dag))) e h.pooled.jobs.results) in
          let lt : r.id < length dag.nodes =
            subst (◌< length dag.nodes) (sym result.id)
              (get_elem?-eq-some dag.nodes result.of.id result.job.at) in
          rw (e, recv)
            (Partial-bind SeenAt (decrement s.in_flight) _ λ in_flight _.
              receive-SeenAt _ r.id r.out _ h.frontier.counters (watched.finish _ r.id lt seen))
    ]

    SeenAfter-onward : (r : Outcome (ExecError K E) S) → Partial SeenAt r → SeenAfter (onward r)
    SeenAfter-onward (done s) h = h
    SeenAfter-onward (fail x) h = tt
    SeenAfter-onward panic h = tt
    SeenAfter-onward out_of_fuel h = tt

    step-SeenAfter :
        (s : S) (phase : Phase O E)
        → IsMachine dag cfg needed s
        → s.phase ≡ phase
        → SeenAt s
        → SeenAfter (step dag cfg watch needed dependents needed_count s phase)
    unfolding step
    step-SeenAfter s outer h here seen = elim (Bool-cases (ltb s.processed needed_count)) [
      | inl more ↦ rw more seen
      | inr enough ↦ rw enough seen
    ]
    step-SeenAfter s inner h here seen = elim (Bool-cases (ltb s.in_flight (effective_cap cfg))) [
      | inl room ↦ rw room (SeenAfter-onward _ (dispatch-SeenAt s h seen))
      | inr full ↦ rw full seen
    ]
    step-SeenAfter s (sending rounds job) h here seen =
        try-SeenAt s rounds job (subst (AtPhase dag cfg needed s) here h.at_phase).0 seen
    step-SeenAfter s checking h here seen = elim (Bool-cases (s.in_flight == 0)) [
      | inl idle ↦
          rw idle
            (Partial-bind (λ e. Seen e.observer) (remaining dag needed s.indeg) _ λ keys _. tt)
      | inr busy ↦ rw busy seen
    ]
    step-SeenAfter s receiving h here seen = SeenAfter-onward _ (recv-SeenAt s h seen)

    pub act-SeenAfter :
        (s : S) (actor : Actor)
        → IsMachine dag cfg needed s
        → SeenAt s
        → SeenAfter (act dag cfg watch needed dependents needed_count s actor)
    unfolding act
    act-SeenAfter s scheduler h seen = step-SeenAfter s s.phase h refl seen
    act-SeenAfter s (worker w) h seen = seen
