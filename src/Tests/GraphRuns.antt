-- ===== src/Tests/GraphRuns.antt =====
-- From the calls of a builder to the outputs, and the graphs of the examples: the properties applied
-- at the chain of tests/common/mod.rs, the trees and batches of the examples' sizes, and a transaction.
use mathlib.Core.List.Memᴰ
use rust_dag_executor.Prelude.{
  ℕ, zero, suc, ◌*◌, ◌^◌, ◌≤◌, ◌≡◌, ◌≢◌, refl, List, [], ◌∷◌, ◌++◌, map, some, Memᴰ, arith, length,
  take, drop, replicate, length-replicate, flatten, get_elem?, range_from, true, ℕ_discrete, subst,
  sym, ◌∙◌,
}
use rust_dag_executor.Prelude.HashMap.{HashMap, get}
use rust_dag_executor.Prelude.Each.{Each, Each-replicate}
use rust_dag_executor.Prelude.Slices.{length-map, length-range_from}
use rust_dag_executor.Prelude.Outcome.{done}
use rust_dag_executor.Graph.{NodeId}
use rust_dag_executor.Graph.Semantics.{Eval}
use rust_dag_executor.Builder.{staged_source, StagedNode}
use rust_dag_executor.Builder.Values.{Value, of_source, of_task, Value-Eval, build-total}
use rust_dag_executor.Builder.Values
use rust_dag_executor.Exec.Executor.{new, run_sequential, run_parallel}
use rust_dag_executor.Exec.Parallel.{Actor}
use rust_dag_executor.Exec.Parallel.Measure.{enough_rounds}
use rust_dag_executor.Exec.Parallel.Fair.{IsFair}
use rust_dag_executor.Exec.Programs.{
  Delivers, IsTask, run_sequential-Delivers, run_parallel-Delivers,
}
use rust_dag_executor.Examples.Text.{Text, codes}
use rust_dag_executor.Examples.Common.{
  Bytes, fake_encoded_tx, hash_leaf_with_iters, hash_domain_with_iters, hex,
}
use rust_dag_executor.Examples.Graphs.{DagT, text_eq}
use rust_dag_executor.Examples.Merkle.{merkle_key, build_merkle_dag}
use rust_dag_executor.Examples.Merkle.Correct.{leaves}
use rust_dag_executor.Examples.Merkle.Runs.{
  run_sequential-build_merkle_dag, run_parallel-build_merkle_dag,
}
use rust_dag_executor.Examples.Rollup.{Naive, naive_full_batch_commitment, verify_merkle_proof}
use rust_dag_executor.Examples.Rollup.Trees.{tree_root}
use rust_dag_executor.Examples.Rollup.Graph.{RollupSpec, Keys, build_rollup_commitment_dag}
use rust_dag_executor.Examples.Rollup.Setup.{setup}
use rust_dag_executor.Examples.Rollup.Setup.Accepted.{setup-IsBatch}
use rust_dag_executor.Examples.Rollup.Graph.Names
use rust_dag_executor.Examples.Rollup.Graph.Whole.{IsBatch}
use rust_dag_executor.Examples.Rollup.Graph.Runs.{
  run_sequential-build_rollup_commitment_dag, run_parallel-build_rollup_commitment_dag,
  verify-build_rollup_commitment_dag,
}
use rust_dag_executor.Examples.Pipeline.{ascii_lowercase, basic_text, build_pipeline}
use rust_dag_executor.Examples.Pipeline.Correct.{receipt_full, value, fee_of}
use rust_dag_executor.Examples.Pipeline.Runs.{
  run_sequential-build_pipeline, run_parallel-build_pipeline,
}
use rust_dag_executor.Tests.ParallelRuns.{two_workers}
use rust_dag_executor.Tests.Samples.{chain, chain_builder, chain_made}
use rust_dag_executor.Tests.Runs.{program, chain_built}
use rust_dag_executor.Tests.Witnesses.{ask_d, two_workers-IsConfig}
use rust_dag_executor.Tests.FairRuns.{round, round-IsFair, rounds, rounds-IsFair, enough}

-- d = c + b, c = a + b
d-Value : Value chain_builder b'd' 5
unfolding program
d-Value =
    of_task 3 _ refl refl refl
      (Values.cons
        (of_task 2 _ refl refl refl
          (Values.cons (of_source 0 _ refl refl refl)
            (Values.cons (of_source 1 _ refl refl refl) Values.nil))
          refl)
        (Values.cons (of_source 1 _ refl refl refl) Values.nil))
      refl

d_valued : (k : ℕ) → Memᴰ k ask_d → (v : ℕ) × Value chain_builder k v
d_valued k (Memᴰ.head same) = (5, subst (λ k. Value chain_builder k 5) (sym same) d-Value)
d_valued k (Memᴰ.tail m) = absurd (Memᴰ.not-nil m)

d_source :
    (i : ℕ) (s : StagedNode ℕ ℕ ℕ) (v : ℕ)
    → get_elem? chain_builder.staging i ≡ some s
    → s.key ≡ b'd'
    → s.kind ≢ staged_source v
unfolding program
d_source zero s v at named is = cc
d_source (suc zero) s v at named is = cc
d_source (suc (suc zero)) s v at named is = cc
d_source (suc (suc (suc zero))) s v at named is = cc
d_source (suc (suc (suc (suc i)))) s v at named is = cc

d-IsTask : (k : ℕ) → Memᴰ k ask_d → IsTask ℕ_discrete chain_builder k
d-IsTask k (Memᴰ.head same) i s v at named is = d_source i s v at (named ∙ same) is
d-IsTask k (Memᴰ.tail m) i s v at named is = Memᴰ.not-nil m

Value-Eval_example : (i : NodeId) × (get ℕ_discrete chain.index b'd' ≡ some i) × Eval chain i 5
Value-Eval_example = Value-Eval ℕ_discrete chain_builder chain_made chain chain_built d-Value

run_sequential-Delivers_example :
    (out : HashMap ℕ ℕ) × (run_sequential ℕ_discrete (new two_workers) chain ask_d ≡ done out)
    × Delivers ℕ_discrete chain_builder ask_d out
run_sequential-Delivers_example =
    run_sequential-Delivers ℕ_discrete chain_builder chain_made chain chain_built two_workers ask_d
      d_valued (λ e. cc)

run_parallel-Delivers_example :
    (out : HashMap ℕ ℕ) × (run_parallel ℕ_discrete (new two_workers) chain (flatten rounds) ask_d
      ≡ done out)
    × Delivers ℕ_discrete chain_builder ask_d out
run_parallel-Delivers_example =
    run_parallel-Delivers ℕ_discrete chain_builder chain_made chain chain_built two_workers ask_d
      d_valued (λ e. cc) d-IsTask two_workers-IsConfig rounds rounds-IsFair enough

-- The sizes of examples/merkle.rs: 16 leaves, and the subtree of place 1 at level 2.
run_sequential-build_merkle_dag_example :
    (dag : DagT) × (build_merkle_dag (2 ^ 4) 4 2 1 ≡ done (dag, merkle_key 4 0, merkle_key 2 1))
    × (out : HashMap Text Bytes) × (run_sequential text_eq
          (new two_workers)
          dag
          (merkle_key 2 1 ∷ [])
        ≡ done out)
    × (get text_eq out (merkle_key 2 1)
        ≡ some (tree_root 0 2 (take (2 ^ 2) (drop (1 * 2 ^ 2) (leaves 4)))))
run_sequential-build_merkle_dag_example =
    run_sequential-build_merkle_dag 4 2 1 (omega arith) (omega arith) (omega arith) two_workers

merkle_made :
    (dag : DagT) × (build_merkle_dag (2 ^ 4) 4 2 1 ≡ done (dag, merkle_key 4 0, merkle_key 2 1))
merkle_made =
    let made =
      run_sequential-build_merkle_dag 4 2 1 (omega arith) (omega arith) (omega arith) two_workers in
    (made.0, made.1)

-- As many fair rounds as a graph asks for.
abbrev enough_of : DagT → List (List Actor)
enough_of dag = replicate (enough_rounds dag two_workers) round

enough_of-IsFair : (dag : DagT) → Each (IsFair two_workers) (enough_of dag)
enough_of-IsFair dag =
    Each-replicate (IsFair two_workers) (enough_rounds dag two_workers) round-IsFair

enough_of-enough : (dag : DagT) → enough_rounds dag two_workers ≤ length (enough_of dag)
enough_of-enough dag = omega (arith, length-replicate (enough_rounds dag two_workers) round)

run_parallel-build_merkle_dag_example :
    (out : HashMap Text Bytes) × (run_parallel text_eq
        (new two_workers)
        merkle_made.0
        (flatten (enough_of merkle_made.0))
        (merkle_key 2 1 ∷ [])
      ≡ done out)
    × (get text_eq out (merkle_key 2 1)
        ≡ some (tree_root 0 2 (take (2 ^ 2) (drop (1 * 2 ^ 2) (leaves 4)))))
run_parallel-build_merkle_dag_example =
    run_parallel-build_merkle_dag 4 2 1 (omega arith) (omega arith) (omega arith) two_workers
      two_workers-IsConfig merkle_made.0 (merkle_key 4 0) (merkle_key 2 1) merkle_made.1
      (enough_of merkle_made.0) (enough_of-IsFair merkle_made.0) (enough_of-enough merkle_made.0)

-- The sizes of examples/rollup.rs: 16 transactions in chunks of 4, and transaction 5.
abbrev spec : RollupSpec
spec = record { chunk_size = 4; chunk_height = 2; batch_height = 2; target_tx = 5; hash_iters = 0 }

abbrev txs : List Bytes
txs = map fake_encoded_tx (range_from 0 16)

spec-IsBatch : IsBatch spec txs
spec-IsBatch = record {
  sized = refl;
  size = length-map fake_encoded_tx (range_from 0 16) ∙ length-range_from 0 16;
  some_chunk = omega arith;
  low_chunk = omega arith;
  some_batch = omega arith;
  low_batch = omega arith;
  target = omega arith;
}

run_sequential-build_rollup_commitment_dag_example :
    (dag : DagT) × (made : Keys) × (build_rollup_commitment_dag spec txs ≡ done (dag, made))
    × (out : HashMap Text Bytes) × (naive : Naive) × (run_sequential text_eq
          (new two_workers)
          dag
          (made.batch_root ∷ [])
        ≡ done out)
    × (naive_full_batch_commitment txs 4 0 ≡ done naive)
    × (get text_eq out made.batch_root ≡ some naive.batch_root)
run_sequential-build_rollup_commitment_dag_example =
    run_sequential-build_rollup_commitment_dag spec txs spec-IsBatch two_workers

rollup_made :
    (dag : DagT) × (made : Keys) × (build_rollup_commitment_dag spec txs ≡ done (dag, made))
rollup_made =
    let made = run_sequential-build_rollup_commitment_dag spec txs spec-IsBatch two_workers in
    (made.0, made.1, made.2)

run_parallel-build_rollup_commitment_dag_example :
    (out : HashMap Text Bytes) × (naive : Naive) × (run_parallel text_eq
        (new two_workers)
        rollup_made.0
        (flatten (enough_of rollup_made.0))
        (rollup_made.1.batch_root ∷ [])
      ≡ done out)
    × (naive_full_batch_commitment txs 4 0 ≡ done naive)
    × (get text_eq out rollup_made.1.batch_root ≡ some naive.batch_root)
run_parallel-build_rollup_commitment_dag_example =
    run_parallel-build_rollup_commitment_dag spec txs spec-IsBatch two_workers two_workers-IsConfig
      rollup_made.0 rollup_made.1 rollup_made.2 (enough_of rollup_made.0)
      (enough_of-IsFair rollup_made.0) (enough_of-enough rollup_made.0)

verify-build_rollup_commitment_dag_example :
    (out : HashMap Text Bytes) × (root : Bytes) × (proof : Bytes) × (run_parallel text_eq
        (new two_workers)
        rollup_made.0
        (flatten (enough_of rollup_made.0))
        (rollup_made.1.target_chunk_root ∷ rollup_made.1.target_chunk_proof ∷ [])
      ≡ done out)
    × (get text_eq out rollup_made.1.target_chunk_root ≡ some root)
    × (get text_eq out rollup_made.1.target_chunk_proof ≡ some proof)
    × (verify_merkle_proof root proof 0 ≡ done true)
verify-build_rollup_commitment_dag_example =
    verify-build_rollup_commitment_dag spec txs spec-IsBatch two_workers two_workers-IsConfig
      rollup_made.0 rollup_made.1 rollup_made.2 (enough_of rollup_made.0)
      (enough_of-IsFair rollup_made.0) (enough_of-enough rollup_made.0)

-- The transaction of examples/pipeline.rs.
abbrev raw_tx : Bytes
raw_tx = codes "RAW_TX: Alice->Bob amount=5 nonce=7"

run_sequential-build_pipeline_example :
    (dag : DagT) × (build_pipeline (λ bytes. bytes) 0 raw_tx ≡ done dag)
    × (out : HashMap Text Bytes) × (run_sequential text_eq
          (new two_workers)
          dag
          (codes "receipt_full" ∷ [])
        ≡ done out)
    × (get text_eq out (codes "receipt_full") ≡ some (value (λ bytes. bytes) 0 raw_tx receipt_full))
run_sequential-build_pipeline_example =
    run_sequential-build_pipeline (λ bytes. bytes) 0 raw_tx two_workers receipt_full

pipeline_made : (dag : DagT) × (build_pipeline (λ bytes. bytes) 0 raw_tx ≡ done dag)
pipeline_made =
    let made = run_sequential-build_pipeline (λ bytes. bytes) 0 raw_tx two_workers receipt_full in
    (made.0, made.1)

run_parallel-build_pipeline_example :
    (out : HashMap Text Bytes) × (run_parallel text_eq
        (new two_workers)
        pipeline_made.0
        (flatten (enough_of pipeline_made.0))
        (codes "receipt_full" ∷ [])
      ≡ done out)
    × (get text_eq out (codes "receipt_full")
        ≡ some (
            basic_text (hash_leaf_with_iters 0 (map ascii_lowercase raw_tx)) (fee_of raw_tx)
            ++ (codes " risk=0x"
                ++ hex (hash_domain_with_iters 0 2 (map ascii_lowercase raw_tx ∷ [])))))
run_parallel-build_pipeline_example =
    run_parallel-build_pipeline (λ bytes. bytes) 0 raw_tx pipeline_made.0 pipeline_made.1
      two_workers two_workers-IsConfig (enough_of pipeline_made.0)
      (enough_of-IsFair pipeline_made.0) (enough_of-enough pipeline_made.0) (λ bytes ascii. refl)

key-injective_example : Names.chunk_node 1 2 3 ≡ Names.chunk_node 1 2 3
key-injective_example = Names.key-injective (Names.chunk_node 1 2 3) (Names.chunk_node 1 2 3) refl

setup-IsBatch_example :
    (spec : RollupSpec) × (setup 16 4 5 0 ≡ done spec)
    × IsBatch spec (map fake_encoded_tx (range_from 0 16))
setup-IsBatch_example =
    setup-IsBatch 2 2 5 0 (omega arith) (omega arith) (omega arith) (omega arith) (omega arith)
