-- ===== src/Exec/Parallel/Answers.antt =====
-- What a caller of `run_parallel` can rely on, under a schedule that gives everybody turns.
use mathlib.Core.WellFounded.{Acc}
use rust_dag_executor.Prelude.{◌≡◌, ◌≢◌, ◌≤◌, subst, List, [], none, Memᴰ, length, flatten, arith}
use rust_dag_executor.Prelude.HashMap.{HashMap, get}
use rust_dag_executor.Prelude.Outcome.{done, Ensures-done, Ensures-total}
use rust_dag_executor.Prelude.Each.{Each}
use rust_dag_executor.Error.{ExecError}
use rust_dag_executor.Graph.{NodeId, ExecutorConfig, Dag}
use rust_dag_executor.Graph.Semantics.{Dep, Needed, Fails}
use rust_dag_executor.Graph.Values.{Eval-Acc, not-Fails_of_Eval}
use rust_dag_executor.Graph.WellFormed.{IsWellFormed}
use rust_dag_executor.Exec.Common.Collect.{IsAnswer}
use rust_dag_executor.Exec.Scheduling.Finish.{not-Acc_of_IsCycle}
use rust_dag_executor.Exec.Sequential.Correct.{
  IsExecError, no_outputs, missing, failure, cyclic, run_lem,
}
use rust_dag_executor.Exec.Sequential
use rust_dag_executor.Exec.Executor.{new, run_sequential, run_parallel}
use rust_dag_executor.Exec.Parallel.{Actor}
use rust_dag_executor.Exec.Parallel.Machine.{IsConfig}
use rust_dag_executor.Exec.Parallel.Measure.{enough_rounds}
use rust_dag_executor.Exec.Parallel.Correct.{NeededSourcesFeed, IsLoopError, of_request, spurious}
use rust_dag_executor.Exec.Parallel.Fair.{IsFair}
use rust_dag_executor.Exec.Parallel.Requests.{
  IsParallelError, in_loop, no_workers, no_flight, no_queue,
}
use rust_dag_executor.Exec.Parallel.Returns.{run_parallel_returns}
use rust_dag_executor.Exec.Parallel.Agreement.{Needed-value, lookups_agree}

module _ {K O E : Type 0} (eq : Discrete K) (dag : Dag K O E) (wf : IsWellFormed eq dag)
    (cfg : ExecutorConfig) (config : IsConfig cfg) (rounds : List (List Actor))
    (fair : Each (IsFair cfg) rounds) (enough : enough_rounds dag cfg ≤ length rounds) where
  -- On a well-formed graph and with no 0 in the configuration, `run_parallel` answers, under every
  -- schedule of enough rounds in each of which the scheduler and every worker has a turn, a request
  -- for some keys of the graph if no needed node fails, none starts an endless chain of dependencies,
  -- and every needed source is a dependency of a needed node.
  pub run_parallel_answers :
      (outputs : List K)
      → outputs ≢ []
      → ((k : K) → Memᴰ k outputs → get eq dag.index k ≢ none)
      → ((i : NodeId) → Needed dag eq outputs i → Acc (Dep dag) i)
      → ((i : NodeId) (e : E) → Needed dag eq outputs i → Fails dag i e → ⊥)
      → NeededSourcesFeed eq dag outputs
      → (out : HashMap K O) × (run_parallel eq (new cfg) dag (flatten rounds) outputs ≡ done out)
        × IsAnswer eq dag outputs out
  run_parallel_answers outputs some_output known acyclic safe feed =
      Ensures-total (IsAnswer eq dag outputs) (IsParallelError eq dag cfg outputs)
        (run_parallel eq (new cfg) dag (flatten rounds) outputs)
        (run_parallel_returns eq dag cfg outputs wf rounds fair enough) never
    where
      of_call : (x : ExecError K E) → IsExecError eq dag outputs x → ⊥
      of_call x (no_outputs e _) = some_output e
      of_call x (missing (k, m, lost, _)) = known k m lost
      of_call x (failure f) = safe f.id f.error f.needed f.fails
      of_call x (cyclic keys c _) =
          let (i, r) = c.some_node in
          not-Acc_of_IsCycle eq dag outputs keys c i (acyclic i r.needed) r

      of_loop : (x : ExecError K E) → IsLoopError eq dag outputs x → ⊥
      of_loop x (of_request e) = of_call x e
      of_loop x (spurious _ _ starved) = starved feed

      never : (x : ExecError K E) → IsParallelError eq dag cfg outputs x → ⊥
      never x (in_loop e) = of_loop x e
      never x (no_workers e _) = omega (arith, e, config.max_workers)
      never x (no_flight e _) = omega (arith, e, config.max_in_flight)
      never x (no_queue e _) = omega (arith, e, config.worker_queue_cap)

  run_sequential-nil : (out : HashMap K O) → run_sequential eq (new cfg) dag [] ≢ done out
  unfolding Sequential.run Sequential.execute
  run_sequential-nil out h = cc

  -- On a well-formed graph and with no 0 in the configuration, where the sequential executor answers
  -- a request whose needed sources are dependencies of needed nodes, the parallel one answers it under
  -- every schedule of enough rounds in each of which the scheduler and every worker has a turn, and
  -- finds the same under every key.
  pub run_sequential_agrees :
      (outputs : List K) (out : HashMap K O)
      → NeededSourcesFeed eq dag outputs
      → run_sequential eq (new cfg) dag outputs ≡ done out
      → (out' : HashMap K O) × (run_parallel eq (new cfg) dag (flatten rounds) outputs ≡ done out')
        × ((k : K) → get eq out k ≡ get eq out' k)
  run_sequential_agrees outputs out feed h =
      let a : IsAnswer eq dag outputs out =
        Ensures-done (IsAnswer eq dag outputs) (IsExecError eq dag outputs)
          (run_sequential eq (new cfg) dag outputs) (run_lem eq dag outputs wf) h in
      let (out', h', a') =
        run_parallel_answers outputs
          (λ empty.
            run_sequential-nil out
              (subst (λ ks. run_sequential eq (new cfg) dag ks ≡ done out) empty h))
          (λ k m lost. let (v, found) = a.full k m in let (_, i, at, _) = a.sound k v found in cc)
          (λ i n. Eval-Acc dag wf.closed (Needed-value eq dag wf outputs out a n).1)
          (λ i e n f. not-Fails_of_Eval dag (Needed-value eq dag wf outputs out a n).1 f) feed in
      (out', h', lookups_agree eq dag wf outputs out out' a a')
