-- ===== src/Exec/Parallel/Correct.antt =====
-- The parallel executor under every schedule: what a call that returns comes to.
use rust_dag_executor.Prelude.{
  ◌≤◌, ◌<◌, ◌≡◌, refl, sym, ap, ◌∙◌, subst, List, [], ◌∷◌, arith, length, inl, inr, Bool-cases,
  List-cases, Memᴰ, ltb, ◌==◌, ℕ_discrete,
}
use rust_dag_executor.Prelude.Outcome.{
  Outcome, done, fail, panic, out_of_fuel, ◌>>=◌, Ensures, Ensures-bind,
}
use rust_dag_executor.Error.{ExecError, cycle}
use rust_dag_executor.Graph.{NodeId, ExecutorConfig, source, Node, Dag}
use rust_dag_executor.Graph.Semantics.{NodeAt, Dep, Needed, Eval}
use rust_dag_executor.Graph.WellFormed.{IsWellFormed}
use rust_dag_executor.Exec.Observe.{ExecObserver}
use rust_dag_executor.Exec.Common.{NeededMask, KahnMetadata}
use rust_dag_executor.Exec.Common.Needed.{IsNeededMask}
use rust_dag_executor.Exec.Common.Counters.{IsMetadata}
use rust_dag_executor.Exec.Scheduling.{remaining}
use rust_dag_executor.Exec.Scheduling.Waiting.{IsFrontier}
use rust_dag_executor.Exec.Scheduling.Remaining.{IsListed, remaining_lem}
use rust_dag_executor.Exec.Scheduling.Finish.{IsFailure, complete, finished-le, stuck}
use rust_dag_executor.Exec.Sequential.{Execution}
use rust_dag_executor.Exec.Sequential.Correct.{IsExecError, failure, cyclic, Succeeds}
use rust_dag_executor.Exec.Pool.Load.{in_hand, load-le}
use rust_dag_executor.Exec.Parallel.{
  Phase, outer, inner, sending, checking, receiving, Scheduler, effective_cap, Progress, going,
  returned, onward, step, Actor, scheduler, worker, act, follow,
}
use rust_dag_executor.Exec.Parallel.Machine.{
  SourcesFeed, is, each_one, IsConfig, sent_away, AtPhase, IsMachine, regrip,
}
use rust_dag_executor.Exec.Parallel.Capacity.{effective_cap-pos}
use rust_dag_executor.Exec.Parallel.Steps.{dispatch_lem}
use rust_dag_executor.Exec.Parallel.Exchange.{dispatch_task_try_lem, advance_lem}
use rust_dag_executor.Exec.Parallel.Receive.{recv_lem}

module _ {K O E : Type 0} (eq : Discrete K) (dag : Dag K O E) (outputs : List K) where
  -- Every needed source is a dependency of a needed node.
  abbrev pub NeededSourcesFeed : Type 0
  NeededSourcesFeed =
      (i : NodeId) (node : Node K O E) (v : O)
      → NodeAt dag i node
      → node.kind ≡ source v
      → Needed dag eq outputs i
      → (j : NodeId) × Needed dag eq outputs j × Dep dag i j

  -- An error of the loop. The last one is a cycle with no nodes, which the scheduler reports where
  -- its inner loop has finished the last of the needed nodes and no task is in flight.
  pub data IsLoopError (x : ExecError K E) : Type 0 where
    of_request : IsExecError eq dag outputs x → IsLoopError x
    spurious :
        x ≡ cycle []
        → ((i : NodeId) → Needed dag eq outputs i → (v : O) × Eval dag i v)
        → ¬ NeededSourcesFeed
        → IsLoopError x

  module _ (wf : IsWellFormed eq dag) (needed : NeededMask)
      (mask : IsNeededMask eq dag wf outputs needed) (m : KahnMetadata)
      (counted : IsMetadata dag wf.closed needed mask.size m) (cfg : ExecutorConfig)
      (config : IsConfig cfg) {R : Type 0} (watch : ExecObserver R) where
    abbrev pub S : Type 0
    S = Scheduler O E R

    abbrev pub Machine : S → Type 0
    Machine = IsMachine dag cfg needed

    -- What holds after an action.
    abbrev pub Holds : Progress (ExecError K E) S (Execution O R) → Type 0
    Holds (going s) = Machine s
    Holds (returned r) = Ensures (Succeeds eq dag outputs wf watch) IsLoopError r

    Holds-onward :
        (r : Outcome (ExecError K E) S)
        → Ensures Machine (IsFailure eq dag outputs) r
        → Holds (onward r)
    Holds-onward (done s) h = h
    Holds-onward (fail x) h = of_request (failure h)
    Holds-onward panic h = h
    Holds-onward out_of_fuel h = h

    SourcesFeed-of : NeededSourcesFeed → SourcesFeed dag needed
    SourcesFeed-of feed i node v at is_source on =
        let (j, needs, e) = feed i node v at is_source ((mask.exact i).0 on) in
        (j, (mask.exact j).1 needs, e)

    -- A step that only goes on to another place.
    idle_step :
        (s : S)
        → Machine s
        → (next : Phase O E) → ((i : NodeId) → sent_away i s.phase ≡ 0)
        → ((i : NodeId) → sent_away i next ≡ 0)
        → AtPhase dag cfg needed (record s { phase = next }) next
        → Machine (record s { phase = next })
    idle_step s h next none_before none_after there = record {
      frontier = regrip dag needed (λ i. omega (arith, none_before i, none_after i)) h.frontier;
      values = h.values;
      processed = h.processed;
      pooled = h.pooled;
      at_phase = there;
    }

    -- Nothing ready and nothing in flight: the keys that are listed.
    checking_lem :
        (s : S)
        → Machine s
        → s.phase ≡ checking
        → s.in_flight ≡ 0
        → Ensures
            (Succeeds eq dag outputs wf watch)
            IsLoopError
            (do keys ← remaining dag needed s.indeg; fail (cycle keys))
    checking_lem s h here idle =
        let (alone_if, unfinished) = subst (AtPhase dag cfg needed s) here h.at_phase in
        let (p, empty) = alone_if idle in
        let alone : IsFrontier dag needed s.vals (λ _. 0) [] s.frontier = record {
          counters = h.frontier.counters;
          waits = h.frontier.waits;
          places = λ i. omega (
            arith,
            h.frontier.places i,
            idle,
            h.pooled.counted,
            ap (sent_away i) here,
            ap (in_hand (is i)) p,
            load-le (is i) each_one (λ j. ground arith) s.pool,
          );
        } in
        Ensures-bind IsLoopError
          (IsListed dag needed s.indeg mask.size h.frontier.counters (length needed))
          (Succeeds eq dag outputs wf watch) (remaining dag needed s.indeg) _
          (remaining_lem dag needed s.indeg mask.size h.frontier.counters IsLoopError)
          λ keys listed. elim (ℕ_discrete s.processed m.needed_count) [
            | yes all ↦
                let done_all =
                  complete eq dag outputs wf needed mask s.vals h.values s.frontier h.frontier
                    (sym h.processed ∙ all ∙ counted.needed_count) in
                elim (List-cases keys) [
                  | inl none_left ↦
                      spurious (ap cycle none_left)
                        (λ i n. let (v, _, value) = done_all.values i n in (v, value))
                        λ feed. omega (
                          arith,
                          unfinished (SourcesFeed-of feed),
                          h.processed,
                          all,
                          counted.needed_count,
                        )
                  | inr (k, _, some_left) ↦
                      let (j, _, w, _) =
                        listed.sound k (subst (Memᴰ k) (sym some_left) (Memᴰ.head refl)) in
                      let (_, e, _) = done_all.values j ((mask.exact j).0 w.wanted) in
                      absurd (ground (arith, h.frontier.places j, w.waits, w.wanted, e))
                ]
            | no some_left ↦ of_request (
                cyclic keys
                  (stuck eq dag outputs wf needed mask s.vals h.values s.frontier alone empty keys
                    listed (λ all. some_left (h.processed ∙ all ∙ sym counted.needed_count)))
                  refl)
          ]

    step_lem :
        (s : S) (phase : Phase O E)
        → Machine s
        → s.phase ≡ phase
        → Holds (step dag cfg watch needed m.dependents m.needed_count s phase)
    unfolding step
    step_lem s outer h here = elim (Bool-cases (ltb s.processed m.needed_count)) [
      | inl more ↦
          let left : s.processed < m.needed_count = ground arith in
          rw more (
            idle_step s h inner (λ i. ap (sent_away i) here) (λ i. refl)
              (λ feed. omega (arith, left, h.processed, counted.needed_count)))
      | inr enough ↦
          let over : m.needed_count ≤ s.processed = ground arith in
          rw enough (
            mask,
            complete eq dag outputs wf needed mask s.vals h.values s.frontier h.frontier (
                omega (
                  arith,
                  h.processed,
                  counted.needed_count,
                  over,
                  finished-le eq dag outputs wf needed mask s.vals h.values s.frontier h.frontier,
                )),
          )
    ]
    step_lem s inner h here = elim (Bool-cases (ltb s.in_flight (effective_cap cfg))) [
      | inl room ↦ rw room (
          Holds-onward _ (
            dispatch_lem eq dag wf outputs needed mask m counted cfg config watch s h here
              (ground arith)))
      | inr full ↦ rw full (
          idle_step s h checking (λ i. ap (sent_away i) here) (λ i. refl)
            (
              λ idle. absurd (ground (arith, full, idle, effective_cap-pos cfg config)),
              subst (AtPhase dag cfg needed s) here h.at_phase,
            ))
    ]
    step_lem s (sending rounds job) h here =
        dispatch_task_try_lem eq dag wf outputs needed mask m counted cfg config watch s rounds job
          h here
    step_lem s checking h here = elim (Bool-cases (s.in_flight == 0)) [
      | inl idle ↦ rw idle (checking_lem s h here (ground arith))
      | inr busy ↦
          rw busy (idle_step s h receiving (λ i. ap (sent_away i) here) (λ i. refl) (ground arith))
    ]
    step_lem s receiving h here =
        Holds-onward _ (recv_lem eq dag wf outputs needed mask m counted cfg config watch s h here)

    pub act_lem :
        (s : S) (actor : Actor)
        → Machine s
        → Holds (act dag cfg watch needed m.dependents m.needed_count s actor)
    unfolding act
    act_lem s scheduler h = step_lem s s.phase h refl
    act_lem s (worker w) h =
        advance_lem eq dag wf outputs needed mask m counted cfg config watch s w h

    -- The rest of a schedule after one action.
    after_lem :
        (schedule : List Actor)
        → ((s : S)
            → Machine s
            → Holds (follow dag cfg watch needed m.dependents m.needed_count schedule s))
        → (p : Progress (ExecError K E) S (Execution O R)) → Holds p
        → Holds (elim p [
          | going s' ↦ follow dag cfg watch needed m.dependents m.needed_count schedule s'
          | returned r ↦ returned r
        ])
    after_lem schedule rest (going s') k = rest s' k
    after_lem schedule rest (returned r) k = k

    pub follow_lem :
        (schedule : List Actor) (s : S)
        → Machine s
        → Holds (follow dag cfg watch needed m.dependents m.needed_count schedule s)
    unfolding follow
    follow_lem [] s h = h
    follow_lem (actor ∷ schedule) s h =
        after_lem schedule (λ s h. follow_lem schedule s h)
          (act dag cfg watch needed m.dependents m.needed_count s actor) (act_lem s actor h)
