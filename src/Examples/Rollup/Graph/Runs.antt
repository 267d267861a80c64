-- ===== src/Examples/Rollup/Graph/Runs.antt =====
-- What the requests of `main` return: the batch root of the naive baseline, and a proof that is
-- verified against the root of its chunk.
use rust_dag_executor.Prelude.{
  ◌/◌, ◌%◌, ◌≤◌, ◌≡◌, refl, ap, ◌∙◌, subst, inl, inr, List, [], ◌∷◌, some, true, length, flatten,
}
use rust_dag_executor.Prelude.HashMap.{HashMap, get}
use rust_dag_executor.Prelude.Each.{Each, nil, cons}
use rust_dag_executor.Prelude.Result.{ok}
use rust_dag_executor.Prelude.Outcome.{done}
use rust_dag_executor.Graph.{ExecutorConfig}
use rust_dag_executor.Builder.{build}
use rust_dag_executor.Exec.Executor.{new, run_sequential, run_parallel}
use rust_dag_executor.Exec.Parallel.{Actor}
use rust_dag_executor.Exec.Parallel.Machine.{IsConfig}
use rust_dag_executor.Exec.Parallel.Measure.{enough_rounds}
use rust_dag_executor.Exec.Parallel.Fair.{IsFair}
use rust_dag_executor.Exec.Programs.{run_sequential-Finds, run_parallel-Finds}
use rust_dag_executor.Examples.Text.{Text}
use rust_dag_executor.Examples.Common.{Bytes}
use rust_dag_executor.Examples.Graphs.{DagT, text_eq}
use rust_dag_executor.Examples.Rollup.{Naive, naive_full_batch_commitment, verify_merkle_proof}
use rust_dag_executor.Examples.Rollup.Graph.{RollupSpec, Keys, build_rollup_commitment_dag}
use rust_dag_executor.Examples.Rollup.Graph.Names.{
  Name, batch_root, chunk_root, chunk_proof, key, key-injective,
}
use rust_dag_executor.Examples.Rollup.Graph.Finish.{target_chunk-lt, proof_verified}
use rust_dag_executor.Examples.Rollup.Graph.Whole.{
  IsBatch, few, worth, TxOnly, All, keys, build_rollup_commitment_dag_lem, naive_root,
}

module _ (spec : RollupSpec) (txs : List Bytes) (batch : IsBatch spec txs) where
  abbrev Found : HashMap Text Bytes → List Name → Type 0
  Found out ns = Each (λ n. get text_eq out (key n) ≡ some (worth spec txs batch n)) ns

  first :
      (out : HashMap Text Bytes) (n : Name) (ns : List Name)
      → Found out (n ∷ ns)
      → get text_eq out (key n) ≡ some (worth spec txs batch n)
  first out n ns (cons e es) = e

  second :
      (out : HashMap Text Bytes) (n m : Name)
      → Found out (n ∷ m ∷ [])
      → get text_eq out (key m) ≡ some (worth spec txs batch m)
  second out n m (cons _ (cons e nil)) = e

  -- For a batch in chunks, both of powers of two as `main` asserts and with chunks of at most `2 ^ 32`
  -- transactions, `build_rollup_commitment_dag` returns a graph, and the sequential executor answers the
  -- request for its batch root with the root that the naive baseline computes.
  pub run_sequential-build_rollup_commitment_dag :
      (cfg : ExecutorConfig)
      → (dag : DagT) × (made : Keys) × (build_rollup_commitment_dag spec txs ≡ done (dag, made))
        × (out : HashMap Text Bytes) × (naive : Naive) × (run_sequential text_eq
              (new cfg)
              dag
              (made.batch_root ∷ [])
            ≡ done out)
        × (naive_full_batch_commitment txs spec.chunk_size spec.hash_iters ≡ done naive)
        × (get text_eq out made.batch_root ≡ some naive.batch_root)
  run_sequential-build_rollup_commitment_dag cfg =
      let (b, dag, good, compiled, returns) = build_rollup_commitment_dag_lem spec txs batch in
      let (naive, computed, same) = naive_root spec txs batch in
      let (out, r, found) =
        run_sequential-Finds text_eq key key-injective (worth spec txs batch)
          (TxOnly spec txs batch) b good dag compiled cfg batch_root []
          (cons (inl (inr refl)) nil) in
      (
        dag,
        keys spec txs batch,
        returns,
        out,
        naive,
        r,
        computed,
        first out batch_root [] found ∙ ap some same,
      )

  -- For such a batch, `run_parallel` answers the request for the batch root, on the graph that
  -- `build_rollup_commitment_dag` returns, with the root that the naive baseline computes, with no 0 in
  -- the configuration and under every schedule of enough rounds in each of which the scheduler and
  -- every worker has a turn.
  pub run_parallel-build_rollup_commitment_dag :
      (cfg : ExecutorConfig)
      → IsConfig cfg
      → (dag : DagT) (made : Keys) → build_rollup_commitment_dag spec txs ≡ done (dag, made)
      → (rounds : List (List Actor)) → Each (IsFair cfg) rounds
      → enough_rounds dag cfg ≤ length rounds
      → (out : HashMap Text Bytes) × (naive : Naive) × (run_parallel text_eq
            (new cfg)
            dag
            (flatten rounds)
            (made.batch_root ∷ [])
          ≡ done out)
        × (naive_full_batch_commitment txs spec.chunk_size spec.hash_iters ≡ done naive)
        × (get text_eq out made.batch_root ≡ some naive.batch_root)
  run_parallel-build_rollup_commitment_dag cfg config dag made e rounds fair enough =
      let (b, dag', good, compiled, returns) = build_rollup_commitment_dag_lem spec txs batch in
      let (naive, computed, same) = naive_root spec txs batch in
      let same_dag : dag' ≡ dag = cc in
      let named : keys spec txs batch ≡ made = cc in
      let (out, r, found) =
        run_parallel-Finds text_eq key key-injective (worth spec txs batch) (TxOnly spec txs batch)
          b good dag (subst (λ d. build text_eq b ≡ ok d) same_dag compiled) cfg batch_root []
          (cons (inl (inr refl)) nil) (cons (λ e. e) nil) config rounds fair enough in
      (
        out,
        naive,
        subst
            (λ k.
              run_parallel text_eq (new cfg) dag (flatten rounds) (k.batch_root ∷ []) ≡ done out)
            named r,
        computed,
        subst (λ k. get text_eq out k.batch_root ≡ some naive.batch_root) named
            (first out batch_root [] found ∙ ap some same),
      )

  chunk_in : All spec txs batch (chunk_root (spec.target_tx / spec.chunk_size))
  chunk_in = inl (
      inl (
        inl (
          target_chunk-lt spec txs batch.sized batch.size (few spec txs batch) batch.low_batch
            batch.target batch.some_batch batch.low_chunk)))

  -- For such a batch, `run_parallel` answers the request for the root of the target's chunk and for the
  -- proof of the target, on the graph that `build_rollup_commitment_dag` returns, with a root and a proof
  -- that is verified against it, with no 0 in the configuration and under every schedule of enough
  -- rounds in each of which the scheduler and every worker has a turn.
  pub verify-build_rollup_commitment_dag :
      (cfg : ExecutorConfig)
      → IsConfig cfg
      → (dag : DagT) (made : Keys) → build_rollup_commitment_dag spec txs ≡ done (dag, made)
      → (rounds : List (List Actor)) → Each (IsFair cfg) rounds
      → enough_rounds dag cfg ≤ length rounds
      → (out : HashMap Text Bytes) × (root : Bytes) × (proof : Bytes) × (run_parallel text_eq
            (new cfg)
            dag
            (flatten rounds)
            (made.target_chunk_root ∷ made.target_chunk_proof ∷ [])
          ≡ done out)
        × (get text_eq out made.target_chunk_root ≡ some root)
        × (get text_eq out made.target_chunk_proof ≡ some proof)
        × (verify_merkle_proof root proof spec.hash_iters ≡ done true)
  verify-build_rollup_commitment_dag cfg config dag made e rounds fair enough =
      let (b, dag', good, compiled, returns) = build_rollup_commitment_dag_lem spec txs batch in
      let same_dag : dag' ≡ dag = cc in
      let named : keys spec txs batch ≡ made = cc in
      let target = chunk_root (spec.target_tx / spec.chunk_size) in
      let proof =
        chunk_proof (spec.target_tx / spec.chunk_size) (spec.target_tx % spec.chunk_size) in
      let (out, r, found) =
        run_parallel-Finds text_eq key key-injective (worth spec txs batch) (TxOnly spec txs batch)
          b good dag (subst (λ d. build text_eq b ≡ ok d) same_dag compiled) cfg target (proof ∷ [])
          (cons chunk_in (cons (inr refl) nil)) (cons (λ e. e) (cons (λ e. e) nil)) config rounds
          fair enough in
      (
        out,
        worth spec txs batch target,
        worth spec txs batch proof,
        subst
            (λ k.
              run_parallel text_eq (new cfg) dag (flatten rounds)
                (k.target_chunk_root ∷ k.target_chunk_proof ∷ [])
              ≡ done out)
            named r,
        subst (λ k. get text_eq out k.target_chunk_root ≡ some (worth spec txs batch target)) named
            (first out target (proof ∷ []) found),
        subst (λ k. get text_eq out k.target_chunk_proof ≡ some (worth spec txs batch proof)) named
            (second out target proof found),
        proof_verified spec txs batch.sized batch.size (few spec txs batch) batch.low_batch
            batch.target batch.some_batch batch.low_chunk,
      )
