-- ===== src/Examples/Rollup/Graph/Whole.antt =====
-- `build_rollup_commitment_dag` as a whole, on a batch of the sizes that `main` asserts.
use rust_dag_executor.Prelude.{
  ◌+◌, ◌*◌, ◌/◌, ◌%◌, ◌^◌, ◌≤◌, ◌<◌, ◌≡◌, sym, ap, ◌∙◌, List, false, arith, ◌-◌, map, length, ◌==◌,
  range_from,
}
use native.Mathlib.Nat.{mul-div_cancel_left}
use rust_dag_executor.Prelude.Powers.{pow-pos, pow_add}
use rust_dag_executor.Prelude.Result.{ok}
use rust_dag_executor.Prelude.Outcome.{
  Outcome, done, ◌>>=◌, >>=-assoc, Ensures, Ensures-bind, Ensures-total, each,
}
use rust_dag_executor.Error.{BuildError}
use rust_dag_executor.Builder
use rust_dag_executor.Builder.{build}
use rust_dag_executor.Builder.Named.{Stages}
use rust_dag_executor.Examples.Text.{Text}
use rust_dag_executor.Examples.Common.{Bytes, hash_leaf_with_iters}
use rust_dag_executor.Examples.Graphs.{DagT, text_eq}
use rust_dag_executor.Examples.Graphs
use rust_dag_executor.Examples.Rollup.{Naive, naive_full_batch_commitment}
use rust_dag_executor.Examples.Rollup.Trees.{tree_root}
use rust_dag_executor.Examples.Rollup.Batches.{tree_root-rise, naive_full_batch_commitment_lem}
use rust_dag_executor.Examples.Rollup.Graph.{
  RollupSpec, Keys, batch_root_key, chunk_root_key, chunk_proof_key, add_txs, chunk_tree_round,
  batch_level_round, finish_batch, build_rollup_commitment_dag,
}
use rust_dag_executor.Examples.Rollup.Graph.Names.{Name, batch_root, key, key-injective}
use rust_dag_executor.Examples.Rollup.Graph.Chunks.{leaves}
use rust_dag_executor.Examples.Rollup.Graph.Staged.{Good, Chunked, Source, value, chunks-Good}
use rust_dag_executor.Examples.Rollup.Graph.Top.{Tree, batch-Good}
use rust_dag_executor.Examples.Rollup.Graph.Finish.{Proved, finish_batch_lem}

-- The sizes that `main` asserts: chunks of a power of two of at least 2 leaves, a power of two of at
-- least 2 chunks, and a target in the batch. The index in a proof has 32 bits.
pub record IsBatch (spec : RollupSpec) (txs : List Bytes) : Type 0 where
  pub sized : spec.chunk_size ≡ 2 ^ spec.chunk_height
  pub size : length txs ≡ 2 ^ (spec.chunk_height + spec.batch_height)
  pub some_chunk : 0 < spec.chunk_height
  pub low_chunk : spec.chunk_height ≤ 32
  pub some_batch : 0 < spec.batch_height
  pub low_batch : spec.batch_height < 64
  pub target : spec.target_tx < 2 ^ (spec.chunk_height + spec.batch_height)

module _ (spec : RollupSpec) (txs : List Bytes) (batch : IsBatch spec txs) where
  pub few : spec.chunk_height < 64
  few = omega (arith, batch.low_chunk)

  abbrev pub worth : Name → Bytes
  worth = value spec spec.batch_height txs batch.sized batch.size few

  abbrev pub TxOnly : Name → Type 0
  TxOnly = Source spec spec.batch_height txs batch.sized batch.size few

  abbrev pub All : Name → Type 0
  All =
      Proved spec txs batch.sized batch.size few batch.low_batch batch.target batch.some_batch
        batch.low_chunk

  abbrev pub keys : Keys
  keys = record {
    batch_root = batch_root_key;
    target_chunk_root = chunk_root_key (spec.target_tx / spec.chunk_size);
    target_chunk_proof =
        chunk_proof_key (spec.target_tx / spec.chunk_size) (spec.target_tx % spec.chunk_size);
  }

  abbrev trees : Graphs.Builder → Outcome (BuildError Text) Graphs.Builder
  trees bu = each (chunk_tree_round spec) bu (range_from 0 (2 ^ spec.batch_height))

  abbrev rows : Graphs.Builder → Outcome (BuildError Text) Graphs.Builder
  rows bu =
      each (batch_level_round spec (2 ^ spec.batch_height)) bu (range_from 1 spec.batch_height)

  abbrev loops : Outcome (BuildError Text) Graphs.Builder
  loops = add_txs spec.hash_iters 0 txs Builder.new >>= trees >>= rows

  abbrev Grown : Graphs.Builder → Type 0
  Grown =
      Good spec spec.batch_height txs batch.sized batch.size few
        (Tree spec spec.batch_height txs batch.sized batch.size few batch.low_batch)

  all_rounds : Ensures Grown (λ _. ⊥) loops
  all_rounds =
      Ensures-bind (λ _. ⊥)
        (Good spec spec.batch_height txs batch.sized batch.size few
          (Chunked spec spec.batch_height txs batch.sized batch.size few (2 ^ spec.batch_height)))
        Grown _ _
        (chunks-Good spec spec.batch_height txs batch.sized batch.size few batch.some_chunk)
        (batch-Good spec spec.batch_height txs batch.sized batch.size few batch.low_batch)

  -- `build_rollup_commitment_dag` returns a graph with all that its loops stage.
  pub build_rollup_commitment_dag_lem :
      (b : Graphs.Builder) × (dag : DagT) × Stages text_eq key key-injective worth TxOnly All b
      × (build text_eq b ≡ ok dag)
      × (build_rollup_commitment_dag spec txs ≡ done (dag, keys))
  unfolding build_rollup_commitment_dag
  build_rollup_commitment_dag_lem =
      let (bu, looped, good) = Ensures-total Grown (λ _. ⊥) loops all_rounds (λ x e. e) in
      let (b, dag, good', compiled, finished) =
        finish_batch_lem spec txs batch.sized batch.size few batch.low_batch batch.target
          batch.some_batch batch.low_chunk bu good in
      let not_zero : (spec.chunk_size == 0) ≡ false =
        ground (arith, batch.sized, pow-pos spec.chunk_height) in
      (
        b,
        dag,
        good',
        compiled,
        rw (not_zero, n_chunks)
            (sym (
                >>=-assoc (add_txs spec.hash_iters 0 txs Builder.new >>= trees) rows
                  (finish_batch spec)
                ∙ >>=-assoc (add_txs spec.hash_iters 0 txs Builder.new) trees
                    (λ bu. rows bu >>= finish_batch spec))
              ∙ ap (◌>>= finish_batch spec) looped
              ∙ finished),
      )
    where
      n_chunks : length txs / spec.chunk_size ≡ 2 ^ spec.batch_height
      n_chunks =
          ap (◌/ spec.chunk_size) (batch.size ∙ pow_add spec.chunk_height spec.batch_height)
          ∙ ap (2 ^ spec.chunk_height * 2 ^ spec.batch_height /◌) batch.sized
          ∙ mul-div_cancel_left (2 ^ spec.batch_height) (pow-pos spec.chunk_height)

  -- The value of the batch root is the root that the naive baseline computes.
  pub naive_root :
      (naive : Naive) × (naive_full_batch_commitment txs spec.chunk_size spec.hash_iters
        ≡ done naive)
      × (worth batch_root ≡ naive.batch_root)
  naive_root = (
    record {
      batch_root =
          tree_root spec.hash_iters (spec.chunk_height + spec.batch_height)
            (map (hash_leaf_with_iters spec.hash_iters) txs);
      count_leaf_hash = 2 ^ (spec.chunk_height + spec.batch_height);
      count_internal_hash = 2 ^ (spec.chunk_height + spec.batch_height) - 1;
    },
    ap (λ n. naive_full_batch_commitment txs n spec.hash_iters) batch.sized
        ∙ (naive_full_batch_commitment_lem spec.hash_iters spec.chunk_height spec.batch_height txs
            batch.some_chunk few batch.some_batch batch.low_batch batch.size),
    sym (
        tree_root-rise spec.hash_iters spec.chunk_height spec.batch_height
          (leaves spec.hash_iters spec.chunk_height spec.batch_height txs batch.size)),
  )
