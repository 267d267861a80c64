-- ===== src/Exec/Parallel/Steps.antt =====
-- The scheduler's actions keep the invariant of the machine.
use rust_dag_executor.Prelude.{
  ◌+◌, subst, true, ◌<◌, ◌≡◌, refl, sym, ap, ◌∙◌, List, [], none, some, arith, length, set,
  get_elem?-exists, Option-cases, List-cases, inl, inr,
}
use rust_dag_executor.Prelude.Outcome.{
  Ensures, Ensures-bind, index-at, index-eq-done, assign-eq-done,
}
use rust_dag_executor.Error.{ExecError}
use rust_dag_executor.Graph.{NodeId, ExecutorConfig, NodeKind, source, task, Node, Dag}
use rust_dag_executor.Graph.Semantics.{NodeAt, Eval, of_source}
use rust_dag_executor.Graph.WellFormed.{IsWellFormed}
use rust_dag_executor.Exec.Observe.{ExecObserver}
use rust_dag_executor.Exec.Common.{NeededMask, NodeValues, KahnMetadata}
use rust_dag_executor.Exec.Common.Needed.{marked, Needed-lt, IsNeededMask}
use rust_dag_executor.Exec.Common.Counters.{deps_at-eq, row, IsMetadata}
use rust_dag_executor.Exec.Scheduling.{release_dependents}
use rust_dag_executor.Exec.Scheduling.Waiting.{undone, IsFrontier, release_dependents_lem}
use rust_dag_executor.Exec.Scheduling.Moving.{
  IsHeld, held, take_ready, settle, finished, finished-set, with_busy, HoldsValues, HoldsValues-set,
}
use rust_dag_executor.Exec.Scheduling.Arguments.{collect_args_lem}
use rust_dag_executor.Exec.Scheduling.Finish.{IsFailure}
use rust_dag_executor.Exec.Pool.Load.{in_hand}
use rust_dag_executor.Exec.Parallel.{
  Phase, inner, Scheduler, effective_cap, propagate, start, dispatch,
}
use rust_dag_executor.Exec.Parallel.Last.{set-IsUnfinished}
use rust_dag_executor.Exec.Parallel.Machine.{
  is, IsConfig, sent_away, busy, AtPhase, IsPooled, IsMachine, IsUnfinished, regrip,
}

module _ {K O E : Type 0} (eq : Discrete K) (dag : Dag K O E) (wf : IsWellFormed eq dag)
    (outputs : List K) (needed : NeededMask) (mask : IsNeededMask eq dag wf outputs needed)
    (m : KahnMetadata) (counted : IsMetadata dag wf.closed needed mask.size m)
    (cfg : ExecutorConfig) (config : IsConfig cfg) {R : Type 0} (watch : ExecObserver R) where
  abbrev pub Fails : ExecError K E → Type 0
  Fails = IsFailure eq dag outputs

  abbrev pub Machine : Scheduler O E R → Type 0
  Machine = IsMachine dag cfg needed

  pub held-lt :
      {vals : NodeValues O} {id : NodeId} → IsHeld dag needed vals id → id < length dag.nodes
  held-lt h = Needed-lt eq dag wf outputs ((mask.exact _).0 h.wanted)

  marked-lt : (i : NodeId) → marked needed i ≡ true → i < length dag.nodes
  marked-lt i on = Needed-lt eq dag wf outputs ((mask.exact i).0 on)

  -- A node leaves the scheduler's hands with its value.
  pub propagate_lem :
      (next : Phase O E) (s : Scheduler O E R) (id : NodeId) (v : O) (observer : R)
      → IsFrontier dag needed s.vals
          (with_busy id (busy next s.pending s.pool))
          []
          (record s.frontier { observer = observer })
      → HoldsValues dag s.vals
      → s.processed ≡ finished (length dag.nodes) s.vals
      → IsPooled dag cfg s.pool s.in_flight s.pending
      → ((t : Scheduler O E R) → t.vals ≡ set s.vals id (some v) → AtPhase dag cfg needed t next)
      → Eval dag id v
      → Ensures Machine Fails
          (propagate dag cfg watch needed m.dependents m.needed_count next s id v observer)
  unfolding propagate
  propagate_lem next s id v observer frontier values processed pooled free value =
      let hands = busy next s.pending s.pool in
      let before = record s.frontier { observer = observer } in
      let grip = held dag needed hands id before frontier in
      let lt = held-lt grip in
      rw
        (
          assign-eq-done s.vals id (some v) (omega (arith, lt, values.size)),
          index-eq-done m.dependents id [] (omega (arith, lt, counted.rows)),
        )
        (Ensures-bind Fails (IsFrontier dag needed _ hands []) Machine
          (release_dependents watch (row m.dependents id) before) _
          (release_dependents_lem dag needed watch Fails (row m.dependents id) before (
            settle dag needed hands id v m.dependents before (omega (arith, lt, values.size))
              (counted.dependents id) frontier))
          λ f released. record {
            frontier = released;
            values = HoldsValues-set dag s.vals id v values lt value;
            processed = omega (
              arith,
              processed,
              finished-set (length dag.nodes) s.vals id v values.size lt grip.new,
            );
            pooled = pooled;
            at_phase =
                free
                  (record s {
                    phase = next;
                    frontier = f;
                    vals = set s.vals id (some v);
                    processed = s.processed + 1;
                  })
                  refl;
          })

  -- A node is taken from the queue and started.
  start_lem :
      (s : Scheduler O E R) (id : NodeId) (node : Node K O E) (kind : NodeKind O E)
      → IsFrontier dag needed s.vals (with_busy id (busy inner s.pending s.pool)) [] s.frontier
      → HoldsValues dag s.vals
      → s.processed ≡ finished (length dag.nodes) s.vals
      → IsPooled dag cfg s.pool s.in_flight s.pending
      → s.in_flight < effective_cap cfg
      → s.pending ≡ none
      → IsUnfinished dag needed s.vals
      → NodeAt dag id node
      → node.kind ≡ kind
      → Ensures Machine Fails
          (start dag cfg watch needed m.dependents m.needed_count s id node kind)
  unfolding start
  start_lem s id node (source v) frontier values processed pooled room none_pending unfinished at
        e =
      propagate_lem inner s id v _
        (record { counters = frontier.counters; waits = frontier.waits; places = frontier.places })
        values processed pooled
        (λ t same. subst (IsUnfinished dag needed) (sym same) (
          set-IsUnfinished dag wf.closed needed marked-lt s.vals (busy inner s.pending s.pool)
            s.frontier id frontier values.size node v at e))
        (of_source at e)
  start_lem s id node (task f) frontier values processed pooled room none_pending unfinished at e =
      let grip = held dag needed (busy inner s.pending s.pool) id s.frontier frontier in
      let (args, all, collected) =
        collect_args_lem dag s.vals values.sound node.deps
          (λ d m. omega (arith, wf.closed.bounded id at d m, values.size))
          (ap (undone s.vals) (sym (deps_at-eq dag id at)) ∙ grip.free) in
      rw collected (record {
        frontier = regrip dag needed (λ i. omega arith) frontier;
        values = values;
        processed = processed;
        pooled = pooled;
        at_phase = (
          record { node = node; at = at; is_task = e; args = all },
          room,
          none_pending,
          λ _. omega (arith, pooled.n_workers, config.max_workers),
          unfinished,
        );
      })

  pub dispatch_lem :
      (s : Scheduler O E R)
      → Machine s
      → s.phase ≡ inner
      → s.in_flight < effective_cap cfg
      → Ensures Machine Fails (dispatch dag cfg watch needed m.dependents m.needed_count s)
  unfolding dispatch
  dispatch_lem s h here room = elim (Option-cases s.pending) [
    | inr (job, p) ↦
        rw (p, dispatch)
          (record {
            frontier =
                regrip dag needed (λ i. omega (arith, ap (sent_away i) here, ap (in_hand (is i)) p))
                  h.frontier;
            values = h.values;
            processed = h.processed;
            pooled = record {
              jobs = h.pooled.jobs;
              queue_cap = h.pooled.queue_cap;
              n_workers = h.pooled.n_workers;
              counted = h.pooled.counted;
              within = h.pooled.within;
              waiting = λ t e. cc;
            };
            at_phase = (
              h.pooled.waiting job p,
              room,
              refl,
              λ _. omega (arith, h.pooled.n_workers, config.max_workers),
              subst (AtPhase dag cfg needed s) here h.at_phase,
            );
          })
    | inl p ↦ elim (List-cases s.ready) [
      | inl q ↦
          rw (p, q, dispatch)
            (record {
              frontier = regrip dag needed (λ i. omega (arith, ap (sent_away i) here)) h.frontier;
              values = h.values;
              processed = h.processed;
              pooled = h.pooled;
              at_phase = (λ _. (p, q), subst (AtPhase dag cfg needed s) here h.at_phase);
            })
      | inr (id, rest, q) ↦
          let hands = busy inner s.pending s.pool in
          let taken =
            take_ready dag needed hands id rest s.frontier q
              (regrip dag needed (λ i. omega (arith, ap (sent_away i) here)) h.frontier)
              s.observer in
          let (node, at) =
            get_elem?-exists dag.nodes id (held-lt (held dag needed hands id _ taken)) in
          rw (p, q, dispatch, index-at dag.nodes id at)
            (start_lem (record s { frontier = record s.frontier { ready = rest } }) id node
              node.kind taken h.values h.processed h.pooled room p
              (subst (AtPhase dag cfg needed s) here h.at_phase) at refl)
    ]
  ]
