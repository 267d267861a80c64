-- ===== src/Exec/Parallel/Watched.antt =====
-- The parallel executor under an observer, from end to end.
use rust_dag_executor.Prelude.{List, [], ◌∷◌, none, length, replicate}
use rust_dag_executor.Prelude.Outcome.{Partial, Partial-bind, Partial-done, Ensures-done}
use rust_dag_executor.Error.{ExecError}
use rust_dag_executor.Graph.{ExecutorConfig, Dag}
use rust_dag_executor.Graph.WellFormed.{IsWellFormed}
use rust_dag_executor.Exec.Observe.{ExecObserver}
use rust_dag_executor.Exec.Common.{NeededMask, KahnMetadata, mark_needed, build_kahn_metadata}
use rust_dag_executor.Exec.Common.Needed.{IsNeededMask, IsMissing, mark_needed_lem}
use rust_dag_executor.Exec.Common.Counters.{IsMetadata, build_kahn_metadata_lem}
use rust_dag_executor.Exec.Scheduling.{seed}
use rust_dag_executor.Exec.Scheduling.Seeding.{seed_lem}
use rust_dag_executor.Exec.Sequential.{Execution}
use rust_dag_executor.Exec.Sequential.Observed.{seed-Holds}
use rust_dag_executor.Exec.Parallel.{
  Scheduler, Progress, going, returned, Actor, act, follow, initial, answer, run_until,
  run_with_observer,
}
use rust_dag_executor.Exec.Parallel.Machine.{IsConfig, IsMachine, initial-IsMachine}
use rust_dag_executor.Exec.Parallel.Requests.{run_with_observer_rule}
use rust_dag_executor.Exec.Parallel.Correct.{Holds, act_lem}
use rust_dag_executor.Exec.Parallel.Observed.{IsWatched, IsKept-of, SeenAfter, act-SeenAfter}

module _ {K O E R : Type 0} (eq : Discrete K) (dag : Dag K O E) (cfg : ExecutorConfig)
    (outputs : List K) (wf : IsWellFormed eq dag) (watch : ExecObserver R) (Seen : R → Type 0)
    (watched : IsWatched dag watch Seen) where
  abbrev After : Progress (ExecError K E) (Scheduler O E R) (Execution O R) → Type 0
  After = SeenAfter dag watch Seen

  module _ (config : IsConfig cfg) (needed : NeededMask)
      (mask : IsNeededMask eq dag wf outputs needed) (m : KahnMetadata)
      (counted : IsMetadata dag wf.closed needed mask.size m) where
    After-first :
        (schedule : List Actor)
        → ((s : Scheduler O E R)
            → IsMachine dag cfg needed s
            → Seen s.observer
            → After (follow dag cfg watch needed m.dependents m.needed_count schedule s))
        → (p : Progress (ExecError K E) (Scheduler O E R) (Execution O R))
        → Holds eq dag outputs wf needed mask m counted cfg config watch p
        → After p
        → After (elim p [
          | going s' ↦ follow dag cfg watch needed m.dependents m.needed_count schedule s'
          | returned r ↦ returned r
        ])
    After-first schedule rest (going s) h seen = rest s h seen
    After-first schedule rest (returned r) h seen = seen

    follow-SeenAfter :
        (schedule : List Actor) (s : Scheduler O E R)
        → IsMachine dag cfg needed s
        → Seen s.observer
        → After (follow dag cfg watch needed m.dependents m.needed_count schedule s)
    unfolding follow
    follow-SeenAfter [] s h seen = seen
    follow-SeenAfter (actor ∷ schedule) s h seen =
        After-first schedule (λ s h seen. follow-SeenAfter schedule s h seen)
          (act dag cfg watch needed m.dependents m.needed_count s actor)
          (act_lem eq dag outputs wf needed mask m counted cfg config watch s actor h)
          (act-SeenAfter dag watch Seen watched cfg needed m.dependents m.needed_count s actor h
            seen)

  run_until-SeenAfter :
      IsConfig cfg
      → (schedule : List Actor) (r : R) → Seen r
      → Partial After (run_until eq dag cfg watch schedule outputs r)
  unfolding run_until
  run_until-SeenAfter config schedule r seen =
      Partial-bind After (mark_needed eq dag outputs) _ λ needed marked.
        let mask =
          Ensures-done (IsNeededMask eq dag wf outputs) (IsMissing eq dag outputs)
            (mark_needed eq dag outputs) (mark_needed_lem eq dag wf outputs) marked in
        Partial-bind After (build_kahn_metadata dag needed) _ λ m built.
          let counted =
            Ensures-done (IsMetadata dag wf.closed needed mask.size) (λ _. ⊥)
              (build_kahn_metadata dag needed)
              (build_kahn_metadata_lem dag wf.closed needed mask.size (λ _. ⊥)) built in
          Partial-bind After (seed watch needed _) _ λ f seeded.
            follow-SeenAfter config needed mask m counted schedule (initial dag cfg f)
              (initial-IsMachine dag cfg needed f (
                Ensures-done _ _ (seed watch needed _)
                  (seed_lem dag watch needed m.indeg mask.size counted.counters counted.indeg
                    (λ _. ⊥) r)
                  seeded))
              (Partial-done _ (seed watch needed _)
                (seed-Holds dag watch (λ _ r. Seen r) (IsKept-of dag watch Seen watched)
                  (ExecError K E) needed (replicate (length dag.nodes) none) _
                  (counted.counters, seen))
                seeded).1

  answer-SeenAfter :
      (p : Progress (ExecError K E) (Scheduler O E R) (Execution O R))
      → After p
      → Partial (λ e. Seen e.observer) (answer eq dag cfg watch p)
  answer-SeenAfter (going s) h = tt
  answer-SeenAfter (returned r) h = h

  -- On a well-formed graph, what the observer has seen holds after the call.
  pub run_with_observer-Seen :
      (schedule : List Actor) (r : R)
      → Seen r
      → Partial (λ e. Seen e.observer) (run_with_observer eq dag cfg watch schedule outputs r)
  run_with_observer-Seen schedule r seen =
      run_with_observer_rule eq dag cfg outputs wf watch (Partial (λ e. Seen e.observer)) schedule r
        (λ x e. tt)
        λ config.
          Partial-bind (λ e. Seen e.observer) (run_until eq dag cfg watch schedule outputs r)
            (answer eq dag cfg watch)
            λ p e. answer-SeenAfter p (
              Partial-done After (run_until eq dag cfg watch schedule outputs r)
                (run_until-SeenAfter config schedule r seen) e)
