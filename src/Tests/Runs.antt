-- ===== src/Tests/Runs.antt =====
-- The tests of tests/sequential.rs, and the two build errors.
use rust_dag_executor.Prelude.{ℕ, ◌≡◌, refl, [], ◌∷◌, true, false, ℕ_discrete}
use rust_dag_executor.Prelude.HashMap.{get, insert}
use rust_dag_executor.Prelude.Result.{ok, err, ◌>>=◌}
use rust_dag_executor.Prelude.Outcome.{done, fail, index, assign, each, decrement}
use rust_dag_executor.Error.{cycle, task_failed, empty_graph}
use rust_dag_executor.Tests.Samples.{chain_builder, chain, cycle_builder, ring, failing_builder}
use rust_dag_executor.Builder.{
  new, add_source, add_task, insert_node, build, key_ids, assign_ids, resolve_nodes, resolve_deps,
}
use rust_dag_executor.Exec.Common.{
  mark_needed, edge_count, push_outputs, push_all, mark_round, mark_loop, kahn_round, add_dependent,
  build_kahn_metadata, collect_outputs,
}
use rust_dag_executor.Exec.Scheduling.{
  push_ready, seed, seed_round, release_round, release_dependents, collect_args, remaining,
  remaining_round,
}
use rust_dag_executor.Exec.Sequential.{run, execute, finish, loop, process, compute}

unfoldable pub program : Unit {0}
unfolding insert_node add_source add_task build key_ids assign_ids resolve_nodes resolve_deps get
    insert ℕ_discrete index assign each decrement mark_needed edge_count push_outputs push_all
    mark_round mark_loop kahn_round add_dependent build_kahn_metadata collect_outputs push_ready
    seed seed_round release_round release_dependents collect_args remaining remaining_round run
    execute finish loop process compute
program = tt

pub chain_built : build ℕ_discrete chain_builder ≡ ok chain
unfolding program
chain_built = refl

pub ring_built : build ℕ_discrete cycle_builder ≡ ok ring
unfolding program
ring_built = refl

nothing_built : build {O = ℕ} {E = ℕ} ℕ_discrete new ≡ err empty_graph
unfolding program
nothing_built = refl

-- sequential_correctness
pub chain_d : run ℕ_discrete chain (b'd' ∷ []) ≡ done ((b'd', 5) ∷ [])
unfolding program
chain_d = refl

-- sequential_prunes_unused_subgraph
pub chain_c_d : run ℕ_discrete chain (b'c' ∷ b'd' ∷ []) ≡ done ((b'c', 3) ∷ (b'd', 5) ∷ [])
unfolding program
chain_c_d = refl

chain_mask : mark_needed ℕ_discrete chain (b'c' ∷ []) ≡ done (true ∷ true ∷ true ∷ false ∷ [])
unfolding program
chain_mask = refl

-- sequential_detects_cycle
pub ring_a : run ℕ_discrete ring (b'a' ∷ []) ≡ fail (cycle (b'a' ∷ b'b' ∷ []))
unfolding program
ring_a = refl

-- sequential_propagates_task_failure
failing_c :
    (build ℕ_discrete failing_builder >>= λ dag. ok (run ℕ_discrete dag (b'c' ∷ [])))
    ≡ ok (fail (task_failed b'c' 7))
unfolding program
failing_c = refl
