-- ===== src/Tests/ParallelRuns.antt =====
-- Runs of the parallel executor, after the tests of tests/parallel.rs: two workers and the scheduler
-- act in turns.
use rust_dag_executor.Prelude.{ℕ, zero, suc, ◌≡◌, refl, List, [], ◌∷◌, ℕ_discrete}
use rust_dag_executor.Prelude.Outcome.{done, fail}
use rust_dag_executor.Error.{cycle}
use rust_dag_executor.Graph.{ExecutorConfig}
use rust_dag_executor.Tests.Samples.{chain, ring}
use rust_dag_executor.Tests.Runs.{program}
use rust_dag_executor.Exec.Pool.{spawn, try_send, work, advance}
use rust_dag_executor.Exec.Parallel.{
  Actor, scheduler, worker, effective_cap, propagate, start, dispatch, dispatch_task_try, receive,
  recv, step, act, follow, run_until, run_with_observer, run,
}

abbrev pub two_workers : ExecutorConfig
two_workers = record { max_workers = 2; max_in_flight = 2; worker_queue_cap = 1 }

-- The scheduler, then each worker, `n` times.
abbrev pub turns : ℕ → List Actor
turns zero = []
turns (suc n) = scheduler ∷ worker 0 ∷ worker 1 ∷ turns n

unfoldable parallel_program : Unit {0}
unfolding program spawn try_send work advance effective_cap propagate start dispatch
    dispatch_task_try receive recv step act follow run_until run_with_observer run
parallel_program = tt

pub parallel_d : run ℕ_discrete chain two_workers (turns 30) (b'd' ∷ []) ≡ done ((b'd', 5) ∷ [])
unfolding parallel_program
parallel_d = refl

parallel_ring :
    run ℕ_discrete ring two_workers (turns 10) (b'a' ∷ []) ≡ fail (cycle (b'a' ∷ b'b' ∷ []))
unfolding parallel_program
parallel_ring = refl

-- A request for a source: its value is there, and a cycle with no nodes is reported.
parallel_source : run ℕ_discrete chain two_workers (turns 10) (b'a' ∷ []) ≡ fail (cycle [])
unfolding parallel_program
parallel_source = refl
