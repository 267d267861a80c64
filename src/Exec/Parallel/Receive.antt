-- ===== src/Exec/Parallel/Receive.antt =====
-- A result that the scheduler receives: `recv` keeps the invariant, or ends with the task's error.
use rust_dag_executor.Prelude.{
  ℕ, suc, ◌≡◌, refl, sym, ap, ◌∙◌, subst, List, [], ◌∷◌, arith, List-cases, inl, inr, none,
  get_elem?-eq-some,
}
use rust_dag_executor.Prelude.Result.{Result, ok, err}
use rust_dag_executor.Error.{ExecError}
use rust_dag_executor.Prelude.Outcome.{Ensures, done, index, index-eq-done, index-at, decrement-suc}
use rust_dag_executor.Prelude.Each.{Each, Each-head, Each-tail}
use rust_dag_executor.Graph.{ExecutorConfig, Dag}
use rust_dag_executor.Graph.Semantics.{NodeAt, of_task}
use rust_dag_executor.Graph.WellFormed.{IsWellFormed}
use rust_dag_executor.Exec.Observe.{ExecObserver}
use rust_dag_executor.Exec.Common.{NeededMask, KahnMetadata}
use rust_dag_executor.Exec.Common.Needed.{IsNeededMask}
use rust_dag_executor.Exec.Common.Counters.{IsMetadata}
use rust_dag_executor.Exec.Scheduling.Waiting.{IsFrontier}
use rust_dag_executor.Exec.Scheduling.Moving.{held, with_busy}
use rust_dag_executor.Exec.Scheduling.Finish.{IsFailure}
use rust_dag_executor.Exec.Pool.{Task, TaskResult, WorkerPool}
use rust_dag_executor.Exec.Pool.Load.{results, load}
use rust_dag_executor.Exec.Pool.Jobs.{IsResult}
use rust_dag_executor.Exec.Parallel.{outer, receiving, Scheduler, dispatch_task_try, receive, recv}
use rust_dag_executor.Exec.Parallel.Steps.{propagate_lem}
use rust_dag_executor.Exec.Parallel.Machine.{
  is, each_one, IsConfig, IsJob, sent_away, busy, IsPooled, IsMachine, regrip,
}

module _ {K O E : Type 0} (eq : Discrete K) (dag : Dag K O E) (wf : IsWellFormed eq dag)
    (outputs : List K) (needed : NeededMask) (mask : IsNeededMask eq dag wf outputs needed)
    (m : KahnMetadata) (counted : IsMetadata dag wf.closed needed mask.size m)
    (cfg : ExecutorConfig) (config : IsConfig cfg) {R : Type 0} (watch : ExecObserver R) where
  abbrev S : Type 0
  S = Scheduler O E R

  abbrev Machine : S → Type 0
  Machine = IsMachine dag cfg needed

  abbrev try : S → ℕ → Task O E → S
  try = dispatch_task_try dag cfg watch needed m.dependents m.needed_count

  module _ (s : S) (h : Machine s) (r : TaskResult O E) (rest : List (TaskResult O E))
      (here : s.phase ≡ receiving) (e : s.pool.results ≡ r ∷ rest) where
    abbrev pool' : WorkerPool O E
    pool' = record s.pool { results = rest }

    abbrev s' : S
    s' = record s { in_flight = load each_one pool'; pool = pool' }

    all_results : Each (IsResult (IsJob dag)) (r ∷ rest)
    all_results = subst (Each (IsResult (IsJob dag))) e h.pooled.jobs.results

    came : IsResult (IsJob dag) r
    came = Each-head (IsResult (IsJob dag)) all_results

    fewer : s.in_flight ≡ suc (load each_one pool')
    fewer = omega (arith, h.pooled.counted, ap (results each_one) e)

    IsPooled-after : IsPooled dag cfg pool' (load each_one pool') s.pending
    IsPooled-after = record {
      jobs = record {
        workers = h.pooled.jobs.workers;
        results = Each-tail (IsResult (IsJob dag)) all_results;
      };
      queue_cap = h.pooled.queue_cap;
      n_workers = h.pooled.n_workers;
      counted = refl;
      within = omega (arith, h.pooled.within, fewer);
      waiting = h.pooled.waiting;
    }

    returned_node :
        IsFrontier dag needed s.vals (with_busy r.id (busy outer s.pending pool')) [] s.frontier
    returned_node =
        regrip dag needed (λ i. omega (arith, ap (sent_away i) here, ap (results (is i)) e))
          h.frontier

    node_at : NodeAt dag r.id came.job.node
    node_at = subst (λ i. NodeAt dag i came.job.node) (sym came.id) came.job.at

    -- The slot of a node whose result comes in is empty, as the scheduler asserts.
    empty_slot : index {X = ExecError K E} s.vals r.id ≡ done none
    empty_slot =
        let lt = get_elem?-eq-some dag.nodes r.id node_at in
        let grip = held dag needed (busy outer s.pending pool') r.id s.frontier returned_node in
        index-eq-done s.vals r.id none (omega (arith, lt, h.values.size)) ∙ ap done grip.new

    receive_lem :
        (out : Result O E) (observer : R)
        → r.out ≡ out
        → Ensures Machine
            (IsFailure eq dag outputs)
            (receive dag cfg watch needed m.dependents m.needed_count s' r.id out observer)
    unfolding receive
    receive_lem (ok v) observer o = rw empty_slot (
        propagate_lem eq dag wf outputs needed mask m counted cfg config watch outer s' r.id v
          observer
          (record {
            counters = returned_node.counters;
            waits = returned_node.waits;
            places = returned_node.places;
          })
          h.values h.processed IsPooled-after (λ t _. tt)
          (of_task node_at came.job.is_task came.job.args (sym came.out ∙ o)))
    receive_lem (err x) observer o = rw (index-at dag.nodes r.id node_at) (record {
      id = r.id;
      error = x;
      needed = (mask.exact r.id).0 (held dag needed _ r.id s.frontier returned_node).wanted;
      fails = record {
        node = came.job.node;
        at = node_at;
        function = came.of.func;
        is_task = came.job.is_task;
        args = came.of.args;
        evaluated = came.job.args;
        returns = sym came.out ∙ o;
      };
      same = refl;
    })

  -- A result is received: the task failed, or its value is recorded.
  pub recv_lem :
      (s : S)
      → Machine s
      → s.phase ≡ receiving
      → Ensures Machine
          (IsFailure eq dag outputs)
          (recv dag cfg watch needed m.dependents m.needed_count s)
  unfolding recv
  recv_lem s h here = elim (List-cases s.pool.results) [
    | inl e ↦ rw (e, recv) h
    | inr (r, rest, e) ↦
        rw (e, recv, decrement-suc s.in_flight _ (fewer s h r rest here e))
          (receive_lem s h r rest here e r.out _ refl)
  ]
