-- ===== src/Exec/Parallel/Requests.antt =====
-- What a caller of `run_parallel` can rely on, under every schedule.
use rust_dag_executor.Prelude.{
  ◌*◌, ◌+◌, ◌≡◌, refl, List, [], inl, inr, arith, length, is_empty, is_empty-eq-nil, Bool-cases,
  ◌==◌, none, replicate, ℕ, ◌≤◌, get_elem?, some,
}
use rust_dag_executor.Prelude.Outcome.{
  Outcome, fail, ◌>>=◌, Ensures, Ensures-weaken, Allows, Allows-of_Ensures, Allows-bind,
  Ensures-bind,
}
use rust_dag_executor.Error.{ExecError, internal_invariant}
use rust_dag_executor.Graph.{ExecutorConfig, Dag}
use rust_dag_executor.Graph.WellFormed.{IsWellFormed}
use rust_dag_executor.Exec.Observe.{ExecObserver, noop_observer}
use rust_dag_executor.Exec.Common.{
  NeededMask, KahnMetadata, mark_needed, build_kahn_metadata, collect_outputs,
}
use rust_dag_executor.Exec.Common.Needed.{IsNeededMask, IsMissing, mark_needed_lem}
use rust_dag_executor.Exec.Common.Counters.{IsMetadata, build_kahn_metadata_lem}
use rust_dag_executor.Exec.Common.Collect.{IsAnswer, collect_outputs_lem}
use rust_dag_executor.Exec.Scheduling.{Frontier, seed}
use rust_dag_executor.Exec.Scheduling.Waiting.{IsFrontier}
use rust_dag_executor.Exec.Scheduling.Seeding.{seed_lem}
use rust_dag_executor.Exec.Sequential.{Execution}
use rust_dag_executor.Exec.Sequential.Correct.{no_outputs, missing, Succeeds, values_there}
use rust_dag_executor.Exec.Parallel.{
  Scheduler, Progress, going, returned, Actor, follow, initial, answer, run_with_observer, run,
  run_until,
}
use rust_dag_executor.Exec.Pool.{Worker}
use rust_dag_executor.Exec.Pool.Load.{load}
use rust_dag_executor.Exec.Pool.Jobs.{IsWorker}
use rust_dag_executor.Exec.Parallel.Capacity.{effective_cap-le, effective_cap-room}
use rust_dag_executor.Exec.Parallel.Machine.{each_one, IsJob, IsConfig, initial-IsMachine}
use rust_dag_executor.Prelude.Each.{Each-at}
use rust_dag_executor.Exec.Parallel.Correct.{IsLoopError, of_request, Holds, follow_lem}

module _ {K O E : Type 0} (eq : Discrete K) (dag : Dag K O E) (cfg : ExecutorConfig)
    (outputs : List K) where
  -- The errors of a call: those of the loop, and a configuration with a 0.
  pub data IsParallelError (x : ExecError K E) : Type 0 where
    in_loop : IsLoopError eq dag outputs x → IsParallelError x
    no_workers :
        cfg.max_workers ≡ 0 → x ≡ internal_invariant "max_workers must be > 0" → IsParallelError x
    no_flight :
        cfg.max_in_flight ≡ 0
        → x ≡ internal_invariant "max_in_flight must be > 0"
        → IsParallelError x
    no_queue :
        cfg.worker_queue_cap ≡ 0
        → x ≡ internal_invariant "worker_queue_cap must be > 0"
        → IsParallelError x

  -- The bounds on what is under way: no more tasks than the configuration allows and than the queues
  -- and the hands of the workers have room for, each of them in the pool, and no more in a queue than it
  -- has room for.
  pub record IsBounded {R : Type 0} (s : Scheduler O E R) : Type 0 where
    pub in_flight : s.in_flight ≡ load each_one s.pool
    pub within : s.in_flight ≤ cfg.max_in_flight
    pub room : s.in_flight ≤ cfg.max_workers * (cfg.worker_queue_cap + 1)
    pub queues :
        (w : ℕ) (worker : Worker O E)
        → get_elem? s.pool.workers w ≡ some worker
        → length worker.queue ≤ cfg.worker_queue_cap

  -- A part of the call that always ends, and what follows it.
  sure :
      {A B : Type 0} (S : A → Type 0) (T : B → Type 0) (c : Outcome (ExecError K E) A)
      (next : A → Outcome (ExecError K E) B)
      → Ensures S IsParallelError c
      → ((a : A) → S a → Allows T IsParallelError (next a))
      → Allows T IsParallelError (c >>= next)
  sure S T c next h k =
      Allows-bind S IsParallelError IsParallelError T c next
        (Allows-of_Ensures S IsParallelError IsParallelError c h (λ x e. e)) (λ x e. e) k

  module _ (wf : IsWellFormed eq dag) where
    module _ {R : Type 0} (watch : ExecObserver R) where
      abbrev pub P : Execution O R → Type 0
      P = Succeeds eq dag outputs wf watch

      -- Where a schedule can take the machine: it is within its bounds, or the call has returned.
      abbrev pub IsWithin : Progress (ExecError K E) (Scheduler O E R) (Execution O R) → Type 0
      IsWithin (going s) = IsBounded s
      IsWithin (returned r) = Ensures P IsParallelError r

      Holds-IsWithin :
          (needed : NeededMask) (mask : IsNeededMask eq dag wf outputs needed) (m : KahnMetadata)
          (counted : IsMetadata dag wf.closed needed mask.size m) (config : IsConfig cfg)
          (p : Progress (ExecError K E) (Scheduler O E R) (Execution O R))
          → Holds eq dag outputs wf needed mask m counted cfg config watch p
          → IsWithin p
      Holds-IsWithin needed mask m counted config (going s) h = record {
        in_flight = h.pooled.counted;
        within = omega (arith, h.pooled.within, effective_cap-le cfg);
        room = omega (arith, h.pooled.within, effective_cap-room cfg);
        queues = λ w worker e. omega (
          arith,
          (Each-at (IsWorker (IsJob dag) s.pool.per_worker_cap) w h.pooled.jobs.workers e).bounded,
          h.pooled.queue_cap,
        );
      }
      Holds-IsWithin needed mask m counted config (returned r) h =
          Ensures-weaken P (IsLoopError eq dag outputs) IsParallelError r h λ x. in_loop

      -- What holds of the machine under a schedule holds after the part of the call before it, or
      -- that part ends with its error.
      pub run_until_rule :
          (Post : Progress (ExecError K E) (Scheduler O E R) (Execution O R) → Type 0)
          (schedule : List Actor) (r : R)
          → ((needed : NeededMask) (mask : IsNeededMask eq dag wf outputs needed) (m : KahnMetadata)
              → IsMetadata dag wf.closed needed mask.size m
              → (f : Frontier R)
              → IsFrontier dag needed (replicate (length dag.nodes) none) (λ _. 0) [] f
              → Post (
                  follow dag cfg watch needed m.dependents m.needed_count schedule
                    (initial dag cfg f)))
          → Ensures Post IsParallelError (run_until eq dag cfg watch schedule outputs r)
      unfolding run_until
      run_until_rule Post schedule r go =
          Ensures-bind IsParallelError (IsNeededMask eq dag wf outputs) Post
            (mark_needed eq dag outputs) _
            (Ensures-weaken (IsNeededMask eq dag wf outputs) (IsMissing eq dag outputs)
              IsParallelError (mark_needed eq dag outputs) (mark_needed_lem eq dag wf outputs)
              λ x e. in_loop (of_request (missing e)))
            λ needed mask.
              Ensures-bind IsParallelError (IsMetadata dag wf.closed needed mask.size) Post
                (build_kahn_metadata dag needed) _
                (build_kahn_metadata_lem dag wf.closed needed mask.size IsParallelError)
                λ m counted.
                  Ensures-bind IsParallelError
                    (IsFrontier dag needed (replicate (length dag.nodes) none) (λ _. 0) []) Post
                    (seed watch needed _) _
                    (seed_lem dag watch needed m.indeg mask.size counted.counters counted.indeg
                      IsParallelError r)
                    λ f h. go needed mask m counted f h

      -- On a well-formed graph and with no 0 in the configuration, after every schedule the machine
      -- is within its bounds, or the call has returned the values of exactly the needed nodes or one
      -- of the errors, and no panic.
      pub run_until_lem :
          IsConfig cfg
          → (schedule : List Actor) (r : R)
          → Ensures IsWithin IsParallelError (run_until eq dag cfg watch schedule outputs r)
      run_until_lem config schedule r =
          run_until_rule IsWithin schedule r λ needed mask m counted f h.
            Holds-IsWithin needed mask m counted config _ (
              follow_lem eq dag outputs wf needed mask m counted cfg config watch schedule
                (initial dag cfg f) (initial-IsMachine dag cfg needed f h))

      -- The tests of the arguments: one refuses, or the machine is started.
      pub run_with_observer_rule :
          (Q : Outcome (ExecError K E) (Execution O R) → Type 0) (schedule : List Actor) (r : R)
          → ((x : ExecError K E) → IsParallelError x → Q (fail x))
          → (IsConfig cfg
              → Q (run_until eq dag cfg watch schedule outputs r >>= answer eq dag cfg watch))
          → Q (run_with_observer eq dag cfg watch schedule outputs r)
      unfolding run_with_observer
      run_with_observer_rule Q schedule r refused go = elim (Bool-cases (is_empty outputs)) [
        | inl e ↦
            rw e (refused _ (in_loop (of_request (no_outputs (is_empty-eq-nil outputs e) refl))))
        | inr some_output ↦ elim (Bool-cases (cfg.max_workers == 0)) [
          | inl e ↦ rw (some_output, e) (refused _ (no_workers (ground arith) refl))
          | inr workers ↦ elim (Bool-cases (cfg.max_in_flight == 0)) [
            | inl e ↦ rw (some_output, workers, e) (refused _ (no_flight (ground arith) refl))
            | inr flight ↦ elim (Bool-cases (cfg.worker_queue_cap == 0)) [
              | inl e ↦
                  rw (some_output, workers, flight, e) (refused _ (no_queue (ground arith) refl))
              | inr queue ↦
                  rw (some_output, workers, flight, queue)
                    (go (record {
                      max_workers = ground arith;
                      max_in_flight = ground arith;
                      worker_queue_cap = ground arith;
                    }))
            ]
          ]
        ]
      ]

      answer_lem :
          (p : Progress (ExecError K E) (Scheduler O E R) (Execution O R))
          → IsWithin p
          → Allows P IsParallelError (answer eq dag cfg watch p)
      answer_lem (going s) h = tt
      answer_lem (returned r) h = Allows-of_Ensures P IsParallelError IsParallelError r h λ x e. e

      -- On a well-formed graph and under every schedule the parallel scheduler never panics. Once it
      -- returns, it succeeds with the values of exactly the needed nodes, or with one of the errors.
      pub run_with_observer_lem :
          (schedule : List Actor) (r : R)
          → Allows P IsParallelError (run_with_observer eq dag cfg watch schedule outputs r)
      run_with_observer_lem schedule r =
          run_with_observer_rule (Allows P IsParallelError) schedule r (λ x e. e)
            λ config.
              sure IsWithin P (run_until eq dag cfg watch schedule outputs r)
                (answer eq dag cfg watch) (run_until_lem config schedule r) answer_lem

    -- On a well-formed graph and under every schedule `run_parallel` never panics. Once it returns,
    -- it answers with a value for each key asked for, that of the key's node, and no other, or it
    -- reports one of the errors.
    pub run_parallel_lem :
        (schedule : List Actor)
        → Allows (IsAnswer eq dag outputs) IsParallelError (run eq dag cfg schedule outputs)
    unfolding run
    run_parallel_lem schedule =
        Allows-bind (Succeeds eq dag outputs wf noop_observer) IsParallelError IsParallelError
          (IsAnswer eq dag outputs) (run_with_observer eq dag cfg noop_observer schedule outputs tt)
          _ (run_with_observer_lem noop_observer schedule tt) (λ x e. e)
          λ e k.
            Allows-of_Ensures (IsAnswer eq dag outputs) IsParallelError IsParallelError
              (collect_outputs eq dag e.vals outputs)
              (collect_outputs_lem eq dag outputs IsParallelError e.vals
                (values_there eq dag outputs wf e.needed e.vals k.0 k.1))
              (λ x e. e)
