-- ===== src/Tests/FairRuns.antt =====
-- The parallel executor under schedules that are fair: the properties applied at the chain of
-- tests/common/mod.rs with two workers.
use rust_dag_executor.Prelude.{
  ℕ, ◌*◌, zero, suc, ◌≤◌, ◌≡◌, refl, List, [], ◌∷◌, Memᴰ, arith, length, replicate,
  length-replicate, flatten, ℕ_discrete, none, some, get_elem?, true,
}
use rust_dag_executor.Prelude.HashMap.{HashMap, get}
use rust_dag_executor.Prelude.Each.{Each, Each-replicate}
use rust_dag_executor.Prelude.Outcome.{done, Ensures}
use rust_dag_executor.Graph.{NodeId, Node, source}
use rust_dag_executor.Graph.Semantics.{NodeAt, Dep, dep, Needed, root, step}
use rust_dag_executor.Prelude.Result.{ok}
use rust_dag_executor.Exec.Pool.{Task, Worker, WorkerPool}
use rust_dag_executor.Exec.Pool.Load.{results, load}
use rust_dag_executor.Exec.Parallel.Closing.{has_ended, drop_pool}
use rust_dag_executor.Exec.Parallel.Closing.Joined.{closing_rounds, drop_pool_returns}
use rust_dag_executor.Exec.Observe.{noop_observer}
use rust_dag_executor.Exec.Common.Collect.{IsAnswer}
use rust_dag_executor.Exec.Sequential.Correct.{Succeeds}
use rust_dag_executor.Exec.Executor.{new, run_parallel}
use rust_dag_executor.Exec.Parallel.{
  Scheduler, sending, Actor, scheduler, worker, run_with_observer,
}
use rust_dag_executor.Exec.Parallel
use rust_dag_executor.Exec.Parallel.Measure.{enough_rounds, weight}
use rust_dag_executor.Exec.Parallel.Fair.{IsFair}
use rust_dag_executor.Exec.Parallel.Requests.{IsParallelError}
use rust_dag_executor.Exec.Parallel.Returns.{run_with_observer_returns, run_parallel_returns}
use rust_dag_executor.Exec.Parallel.Answers.{run_parallel_answers, run_sequential_agrees}
use rust_dag_executor.Trace.Threads.{IsTraced, run_traced_returns}
use rust_dag_executor.Tests.ParallelRuns.{two_workers}
use rust_dag_executor.Tests.Samples.{chain}
use rust_dag_executor.Tests.Runs.{program, chain_d}
use rust_dag_executor.Tests.Witnesses.{
  chain_wf, ask_d, d_known, Needed-acyclic, Needed-safe, two_workers-IsConfig,
}

abbrev pub round : List Actor
round = scheduler ∷ worker 0 ∷ worker 1 ∷ []

pub round-IsFair : IsFair two_workers round
round-IsFair scheduler part = Memᴰ.head refl
round-IsFair (worker zero) part = Memᴰ.tail (Memᴰ.head refl)
round-IsFair (worker (suc zero)) part = Memᴰ.tail (Memᴰ.tail (Memᴰ.head refl))
round-IsFair (worker (suc (suc w))) part = absurd (omega (arith, part))

abbrev pub rounds : List (List Actor)
rounds = replicate 153 round

pub rounds-IsFair : Each (IsFair two_workers) rounds
rounds-IsFair = Each-replicate (IsFair two_workers) 153 round-IsFair

pub enough : enough_rounds chain two_workers ≤ length rounds
unfolding enough_rounds weight
enough = omega (arith, length-replicate 153 round)

feeding :
    (i : NodeId) (node : Node ℕ ℕ ℕ) (v : ℕ)
    → NodeAt chain i node
    → node.kind ≡ source v
    → Needed chain ℕ_discrete ask_d i
    → (j : NodeId) × Needed chain ℕ_discrete ask_d j × Dep chain i j
unfolding program
feeding zero node v at is n = (
  2,
  step (root (b'd', Memᴰ.head refl, refl)) (dep refl (Memᴰ.head refl)),
  dep refl (Memᴰ.head refl),
)
feeding (suc zero) node v at is n =
    (3, root (b'd', Memᴰ.head refl, refl), dep refl (Memᴰ.tail (Memᴰ.head refl)))
feeding (suc (suc zero)) node v at is n = cc
feeding (suc (suc (suc zero))) node v at is n = cc
feeding (suc (suc (suc (suc i)))) node v at is n = cc

run_with_observer_returns_example :
    Ensures
      (Succeeds ℕ_discrete chain ask_d chain_wf noop_observer)
      (IsParallelError ℕ_discrete chain two_workers ask_d)
      (run_with_observer ℕ_discrete chain two_workers noop_observer (flatten rounds) ask_d tt)
run_with_observer_returns_example =
    run_with_observer_returns ℕ_discrete chain two_workers ask_d chain_wf rounds rounds-IsFair
      enough noop_observer tt

run_parallel_returns_example :
    Ensures
      (IsAnswer ℕ_discrete chain ask_d)
      (IsParallelError ℕ_discrete chain two_workers ask_d)
      (Parallel.run ℕ_discrete chain two_workers (flatten rounds) ask_d)
run_parallel_returns_example =
    run_parallel_returns ℕ_discrete chain two_workers ask_d chain_wf rounds rounds-IsFair enough

run_parallel_answers_example :
    (out : HashMap ℕ ℕ) × (run_parallel ℕ_discrete (new two_workers) chain (flatten rounds) ask_d
      ≡ done out)
    × IsAnswer ℕ_discrete chain ask_d out
run_parallel_answers_example =
    run_parallel_answers ℕ_discrete chain chain_wf two_workers two_workers-IsConfig rounds
      rounds-IsFair enough ask_d (λ e. cc) d_known Needed-acyclic Needed-safe feeding

run_sequential_agrees_example :
    (out' : HashMap ℕ ℕ) × (run_parallel ℕ_discrete (new two_workers) chain (flatten rounds) ask_d
      ≡ done out')
    × ((k : ℕ) → get {V = ℕ} ℕ_discrete ((b'd', 5) ∷ []) k ≡ get ℕ_discrete out' k)
run_sequential_agrees_example =
    run_sequential_agrees ℕ_discrete chain chain_wf two_workers two_workers-IsConfig rounds
      rounds-IsFair enough ask_d ((b'd', 5) ∷ []) feeding chain_d

run_traced_returns_example :
    Ensures
      (IsTraced ℕ_discrete chain two_workers ask_d chain_wf (λ k. 5 * k))
      (IsParallelError ℕ_discrete chain two_workers ask_d)
      (Parallel.run_traced ℕ_discrete chain two_workers (λ k. 5 * k) (flatten rounds) ask_d)
run_traced_returns_example =
    run_traced_returns ℕ_discrete chain two_workers ask_d chain_wf (λ k. 5 * k) rounds rounds-IsFair
      enough

-- A pool that an error leaves behind: one task in the hands of a worker, one in a queue.
abbrev left_over : ℕ → Task ℕ ℕ
left_over id = record { id = id; func = λ args. ok 7; args = [] }

abbrev left_pool : WorkerPool ℕ ℕ
left_pool = record {
  workers =
      record { queue = left_over 1 ∷ []; running = some (left_over 0) }
      ∷ record { queue = []; running = none }
      ∷ [];
  per_worker_cap = 1;
  results = [];
}

left_pool-enough : closing_rounds left_pool ≤ length rounds
unfolding closing_rounds
left_pool-enough = omega (arith, length-replicate 153 round)

drop_pool_returns_example :
    (pool' : WorkerPool ℕ ℕ) × (drop_pool (flatten rounds) left_pool ≡ done pool')
    × ((i : ℕ) (w : Worker ℕ ℕ) → get_elem? pool'.workers i ≡ some w → has_ended w ≡ true)
    × ((weigh : NodeId → ℕ) → results weigh pool'.results ≡ load weigh left_pool)
drop_pool_returns_example =
    drop_pool_returns two_workers left_pool refl rounds rounds-IsFair left_pool-enough

-- The scheduler starts to dispatch: the first worker's queue is full, the second one's is empty.
abbrev at_dispatch : Scheduler ℕ ℕ (Unit {0})
at_dispatch = record {
  phase = sending 2 (left_over 2);
  frontier = record { indeg = 0 ∷ 0 ∷ 0 ∷ []; ready = []; observer = tt };
  vals = none ∷ none ∷ none ∷ [];
  processed = 0;
  in_flight = 2;
  next_worker = 0;
  pending = none;
  pool = left_pool;
}
