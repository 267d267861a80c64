-- ===== src/Exec/Parallel/Fair.antt =====
-- A schedule in rounds, in each of which everybody has a turn: every round that does not end the call
-- lowers the measure, so the call returns.
use mathlib.Core.List.{Memᴰ}
use mathlib.Core.List.Memᴰ
use mathlib.Core.Logic.{⊎_elim}
use rust_dag_executor.Prelude.{
  ℕ, ◌<◌, ◌≡◌, refl, sym, ap, ◌∙◌, subst, List, [], ◌∷◌, ◌++◌, ◌⊎◌, inl, inr, true, arith, length,
  flatten,
}
use rust_dag_executor.Prelude.Outcome.{Outcome}
use rust_dag_executor.Prelude.Each.{Each, Each-head, Each-tail}
use rust_dag_executor.Error.{ExecError}
use rust_dag_executor.Graph.{NodeId, ExecutorConfig, Dag}
use rust_dag_executor.Graph.WellFormed.{IsWellFormed}
use rust_dag_executor.Exec.Observe.{ExecObserver}
use rust_dag_executor.Exec.Common.{NeededMask, KahnMetadata}
use rust_dag_executor.Exec.Common.Needed.{marked, Needed-lt, IsNeededMask}
use rust_dag_executor.Exec.Common.Counters.{IsMetadata}
use rust_dag_executor.Exec.Sequential.{Execution}
use rust_dag_executor.Exec.Pool.Load.{results}
use rust_dag_executor.Exec.Pool.Effort.{busy_worker}
use rust_dag_executor.Exec.Parallel.{
  Scheduler, Progress, going, returned, Actor, scheduler, worker, act, follow,
}
use rust_dag_executor.Exec.Parallel.Machine.{each_one, IsConfig, AtPhase, IsMachine}
use rust_dag_executor.Exec.Parallel.Decline as Decline
use rust_dag_executor.Exec.Parallel.Correct.{Holds, act_lem, follow_lem}

-- Who takes part: the scheduler, and the workers that there are.
abbrev pub TakesPart : ExecutorConfig → Actor → Type 0
TakesPart cfg scheduler = Unit
TakesPart cfg (worker w) = w < cfg.max_workers

-- A round in which everybody has a turn, at least once and in any order.
abbrev pub IsFair : ExecutorConfig → List Actor → Type 0
IsFair cfg round = (actor : Actor) → TakesPart cfg actor → Memᴰ actor round

module _ {K O E : Type 0} (eq : Discrete K) (dag : Dag K O E) (outputs : List K)
    (wf : IsWellFormed eq dag) (needed : NeededMask) (mask : IsNeededMask eq dag wf outputs needed)
    (m : KahnMetadata) (counted : IsMetadata dag wf.closed needed mask.size m)
    (cfg : ExecutorConfig) (config : IsConfig cfg) {R : Type 0} (watch : ExecObserver R) where
  abbrev S : Type 0
  S = Scheduler O E R

  abbrev Machine : S → Type 0
  Machine = IsMachine dag cfg needed

  abbrev P : Type 0
  P = Progress (ExecError K E) S (Execution O R)

  pub marked-lt : (i : NodeId) → marked needed i ≡ true → i < length dag.nodes
  marked-lt i on = Needed-lt eq dag wf outputs ((mask.exact i).0 on)

  abbrev pub measure : S → ℕ
  measure = Decline.measure dag cfg watch needed m.dependents m.needed_count marked-lt

  abbrev IsIdle : S → Actor → Type 0
  IsIdle = Decline.IsIdle dag cfg watch needed m.dependents m.needed_count marked-lt

  abbrev Declines : S → Actor → P → Type 0
  Declines = Decline.Declines dag cfg watch needed m.dependents m.needed_count marked-lt

  abbrev doing : S → Actor → P
  doing = act dag cfg watch needed m.dependents m.needed_count

  abbrev under : List Actor → S → P
  under = follow dag cfg watch needed m.dependents m.needed_count

  -- Somebody who takes part has something to do.
  no_deadlock : (s : S) → Machine s → ((actor : Actor) → TakesPart cfg actor → IsIdle s actor) → ⊥
  no_deadlock s h idle =
      let (here, empty) = idle scheduler tt in
      let flying : 0 < s.in_flight = subst (AtPhase dag cfg needed s) here h.at_phase in
      let (w, lt, worker_at, at, holds) =
        busy_worker s.pool.workers
          (omega (arith, flying, h.pooled.counted, ap (results each_one) empty)) in
      omega (arith, holds, idle (worker w) (omega (arith, lt, h.pooled.n_workers)) worker_at at)

  -- After a part of a schedule: the call returned, or the measure fell, or all who acted were idle.
  abbrev After : List Actor → S → P → Type 0
  After schedule s (returned r) = Unit
  After schedule s (going t) =
      (measure t < measure s) ⊎ ((t ≡ s) × ((actor : Actor) → Memᴰ actor schedule → IsIdle s actor))

  After-lower :
      (schedule rest : List Actor) (s t : S) (p : P)
      → measure t < measure s
      → After rest t p
      → After schedule s p
  After-lower schedule rest s t (returned r) less h = tt
  After-lower schedule rest s t (going u) less (inl lower) = inl (omega arith)
  After-lower schedule rest s t (going u) less (inr (same, _)) =
      inl (omega (arith, ap measure same))

  After-idle :
      (actor : Actor) (rest : List Actor) (s : S) (p : P)
      → IsIdle s actor
      → After rest s p
      → After (actor ∷ rest) s p
  After-idle actor rest s (returned r) idle h = tt
  After-idle actor rest s (going u) idle (inl lower) = inl lower
  After-idle actor rest s (going u) idle (inr (same, all)) =
      inr (
        same,
        λ other k. ⊎_elim (λ e. subst (IsIdle s) (sym e) idle) (all other) (Memᴰ.cases_cons k),
      )

  After-first :
      (actor : Actor) (rest : List Actor) (s : S) (p : P)
      → Holds eq dag outputs wf needed mask m counted cfg config watch p
      → Declines s actor p
      → ((t : S) → Machine t → After rest t (under rest t))
      → After (actor ∷ rest) s (elim p [ going t ↦ under rest t | returned r ↦ returned r ])
  After-first actor rest s (returned r) k d rec = tt
  After-first actor rest s (going t) k (inl less) rec =
      After-lower (actor ∷ rest) rest s t (under rest t) less (rec t k)
  After-first actor rest s (going t) k (inr (same, idle)) rec =
      subst (λ u. After (actor ∷ rest) s (under rest u)) (sym same)
        (After-idle actor rest s (under rest s) idle (rec s (subst Machine same k)))

  After-schedule : (schedule : List Actor) (s : S) → Machine s → After schedule s (under schedule s)
  unfolding follow
  After-schedule [] s h = inr (refl, λ actor k. absurd (Memᴰ.not-nil k))
  After-schedule (actor ∷ rest) s h =
      After-first actor rest s (doing s actor)
        (act_lem eq dag outputs wf needed mask m counted cfg config watch s actor h)
        (Decline.act-Declines dag cfg watch needed m.dependents m.needed_count marked-lt s actor h)
        (λ t k. After-schedule rest t k)

  -- A round that everybody takes part in ends the call or lowers the measure.
  after_round :
      (round : List Actor) (s t : S)
      → IsFair cfg round
      → Machine s
      → under round s ≡ going t
      → measure t < measure s
  after_round round s t fair h e =
      let after : After round s (going t) = subst (After round s) e (After-schedule round s h) in
      ⊎_elim (λ less. less)
        (λ same. absurd (no_deadlock s h (λ actor part. same.1 actor (fair actor part)))) after

  Progress-cases :
      (p : P)
      → ((t : S) × (p ≡ going t))
        ⊎ ((r : Outcome (ExecError K E) (Execution O R)) × (p ≡ returned r))
  Progress-cases (going t) = inl (t, refl)
  Progress-cases (returned r) = inr (r, refl)

  follow-append-going :
      (xs ys : List Actor) (s t : S) → under xs s ≡ going t → under (xs ++ ys) s ≡ under ys t
  unfolding follow
  follow-append-going [] ys s t e = cc
  follow-append-going (actor ∷ xs) ys s t e = elim (Progress-cases (doing s actor)) [
    | inl (u, a) ↦ rw (a, follow) (follow-append-going xs ys u t (rw (a, follow) at e))
    | inr (r, a) ↦ let stopped : under (actor ∷ xs) s ≡ returned r = rw (a, follow) refl in cc
  ]

  follow-append-returned :
      (xs ys : List Actor) (s : S) (r : Outcome (ExecError K E) (Execution O R))
      → under xs s ≡ returned r
      → under (xs ++ ys) s ≡ returned r
  unfolding follow
  follow-append-returned [] ys s r e = cc
  follow-append-returned (actor ∷ xs) ys s r e = elim (Progress-cases (doing s actor)) [
    | inl (u, a) ↦ rw (a, follow) (follow-append-returned xs ys u r (rw (a, follow) at e))
    | inr (q, a) ↦
        let stopped : under (actor ∷ xs) s ≡ returned q = rw (a, follow) refl in
        rw (a, follow) (sym stopped ∙ e)
  ]

  -- So the call returns within as many rounds as the measure has steps.
  pub follow-returns :
      (rounds : List (List Actor)) (s : S)
      → Each (IsFair cfg) rounds
      → Machine s
      → measure s < length rounds
      → (r : Outcome (ExecError K E) (Execution O R)) × (under (flatten rounds) s ≡ returned r)
  unfolding flatten
  follow-returns [] s fair h enough = elim enough [ ]
  follow-returns (round ∷ rounds) s fair h enough = elim (Progress-cases (under round s)) [
    | inr (r, e) ↦ (r, follow-append-returned round (flatten rounds) s r e)
    | inl (t, e) ↦
        let less = after_round round s t (Each-head (IsFair cfg) fair) h e in
        let kept : Machine t =
          subst (Holds eq dag outputs wf needed mask m counted cfg config watch) e
            (follow_lem eq dag outputs wf needed mask m counted cfg config watch round s h) in
        let (r, e') =
          follow-returns rounds t (Each-tail (IsFair cfg) fair) kept
            (omega (arith, less, enough)) in
        (r, follow-append-going round (flatten rounds) s t e ∙ e')
  ]
