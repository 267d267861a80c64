-- ===== src/Tests/ExampleRuns.antt =====
-- Traced runs and the computations of the examples: the properties applied at concrete inputs.
use rust_dag_executor.Prelude.{
  ℕ, map, ◌+◌, ◌-◌, ◌*◌, ◌^◌, ◌≡◌, refl, List, [], ◌∷◌, arith, replicate, get_or, true, ℕ_discrete,
}
use rust_dag_executor.Prelude.Each.{Each, nil, cons}
use rust_dag_executor.Prelude.Result.{ok}
use rust_dag_executor.Prelude.Outcome.{◌>>=◌, done, Ensures}
use rust_dag_executor.Exec.Sequential.{run_traced}
use rust_dag_executor.Exec.Sequential.Correct.{IsExecError}
use rust_dag_executor.Trace.{Duration}
use rust_dag_executor.Trace.Traced.{IsTraced, run_traced_lem}
use rust_dag_executor.Examples.Common.{Bytes, hash_leaf_with_iters, u64_to_le_bytes, read_u64_le}
use rust_dag_executor.Examples.Common.Sizes.{read_u64_le-u64_to_le_bytes}
use rust_dag_executor.Examples.Rollup.{
  same_bytes, encode_merkle_proof_v1, naive_merkle_root, verify_merkle_proof,
  naive_full_batch_commitment,
}
use rust_dag_executor.Examples.Rollup.Proofs.{IsHash, climb, verify-encode}
use rust_dag_executor.Examples.Rollup.Verdicts.{IsVerdict, IsRefusal, verify_merkle_proof_lem}
use rust_dag_executor.Examples.Rollup.Batches.{naive_full_batch_commitment_lem}
use rust_dag_executor.Examples.Rollup.Trees.{tree_root, siblings_of, verify-naive_merkle_root}
use rust_dag_executor.Tests.Samples.{chain}
use rust_dag_executor.Tests.Witnesses.{chain_wf, ask_d}

-- Every reading is 5 nanoseconds after the one before.
abbrev ticks : ℕ → Duration
ticks k = 5 * k

run_traced_lem_example :
    Ensures
      (IsTraced ℕ_discrete chain chain_wf ticks (λ i j le. omega (arith, le)) ask_d)
      (IsExecError ℕ_discrete chain ask_d)
      (run_traced ℕ_discrete chain ticks ask_d)
run_traced_lem_example =
    run_traced_lem ℕ_discrete chain chain_wf ticks (λ i j le. omega (arith, le)) ask_d

read_u64_le-u64_to_le_bytes_example : read_u64_le (u64_to_le_bytes 123456789) ≡ ok 123456789
read_u64_le-u64_to_le_bytes_example = read_u64_le-u64_to_le_bytes 123456789 (omega arith)

abbrev leaf : ℕ → Bytes
leaf b = replicate 32 b

abbrev leaves : List Bytes
leaves = leaf 1 ∷ leaf 2 ∷ leaf 3 ∷ leaf 4 ∷ []

leaves-IsHash : Each IsHash leaves
leaves-IsHash = cons refl (cons refl (cons refl (cons refl nil)))

verify-encode_example :
    (encode_merkle_proof_v1 2 1 (leaf 3) (leaf 4 ∷ []) >>= λ proof.
    verify_merkle_proof (leaf 9) proof 0)
    ≡ done (same_bytes (climb 0 2 (leaf 3) (leaf 4 ∷ [])) (leaf 9))
verify-encode_example =
    verify-encode 0 2 (leaf 9) (leaf 3) (leaf 4 ∷ []) refl refl (cons refl nil) (omega arith)
      (omega arith)

verify-naive_merkle_root_example :
    (root : Bytes) × (naive_merkle_root leaves 0 ≡ done (root, 2 ^ 2 - 1))
    × ((encode_merkle_proof_v1 1 2 (get_or leaves 1 []) (siblings_of 0 2 1 leaves) >>= λ proof.
          verify_merkle_proof root proof 0)
        ≡ done true)
verify-naive_merkle_root_example =
    verify-naive_merkle_root 0 2 1 leaves (omega arith) (omega arith) refl (omega arith)
      leaves-IsHash

verify_merkle_proof_lem_example :
    Ensures
      (IsVerdict 0 (leaf 9) (1 ∷ 0 ∷ replicate 36 5))
      (IsRefusal 0 (leaf 9) (1 ∷ 0 ∷ replicate 36 5))
      (verify_merkle_proof (leaf 9) (1 ∷ 0 ∷ replicate 36 5) 0)
verify_merkle_proof_lem_example =
    verify_merkle_proof_lem 0 (leaf 9) (1 ∷ 0 ∷ replicate 36 5) (omega arith)

naive_full_batch_commitment_lem_example :
    naive_full_batch_commitment (leaf 1 ∷ [] ∷ leaf 3 ∷ (7 ∷ []) ∷ []) (2 ^ 1) 0
    ≡ done (record {
      batch_root =
          tree_root 0 (1 + 1) (map (hash_leaf_with_iters 0) (leaf 1 ∷ [] ∷ leaf 3 ∷ (7 ∷ []) ∷ []));
      count_leaf_hash = 2 ^ (1 + 1);
      count_internal_hash = 2 ^ (1 + 1) - 1;
    })
naive_full_batch_commitment_lem_example =
    naive_full_batch_commitment_lem 0 1 1 (leaf 1 ∷ [] ∷ leaf 3 ∷ (7 ∷ []) ∷ []) (omega arith)
      (omega arith) (omega arith) (omega arith) refl
