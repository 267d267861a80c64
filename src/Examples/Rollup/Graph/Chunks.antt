-- ===== src/Examples/Rollup/Graph/Chunks.antt =====
-- The hashes of a batch, chunk by chunk.
use native.Mathlib.Nat.{mul_comm, div-lt_iff_lt-mul}
use rust_dag_executor.Prelude.{
  ℕ, suc, ◌+◌, ◌*◌, ◌/◌, ◌^◌, ◌≤◌, ◌<◌, ◌≡◌, ◌∙◌, List, map, arith, length, take, drop,
}
use rust_dag_executor.Prelude.Each.{Each}
use rust_dag_executor.Prelude.Slices.{length-take, length-drop, Each-take, Each-drop, length-map}
use rust_dag_executor.Prelude.Powers.{pow-pos, pow_add}
use rust_dag_executor.Examples.Common.{Bytes, hash_leaf_with_iters}
use rust_dag_executor.Examples.Rollup.Proofs.{IsHash}
use rust_dag_executor.Examples.Rollup.Batches.{rise, length-rise, rise-IsHash, hash_leaf-IsHash}

module _ (iters a b : ℕ) (txs : List Bytes) (size : length txs ≡ 2 ^ (a + b)) where
  abbrev pub leaves : List Bytes
  leaves = map (hash_leaf_with_iters iters) txs

  pub leaf_count : length leaves ≡ 2 ^ (a + b)
  leaf_count = length-map (hash_leaf_with_iters iters) txs ∙ size

  abbrev pub chunk : ℕ → List Bytes
  chunk c = take (2 ^ a) (drop (c * 2 ^ a) leaves)

  pub chunk_fits : (c : ℕ) → c < 2 ^ b → c * 2 ^ a + 2 ^ a ≤ 2 ^ (a + b)
  chunk_fits c lt = omega (arith, pow_add a b, mul_comm (2 ^ a) (2 ^ b), room, step)
    where
      room : suc c * 2 ^ a ≤ 2 ^ b * 2 ^ a
      room = grind (arith, lt)

      step : suc c * 2 ^ a ≡ c * 2 ^ a + 2 ^ a
      step = grind arith

  pub length-chunk : (c : ℕ) → c < 2 ^ b → length (chunk c) ≡ 2 ^ a
  length-chunk c lt =
      length-take (2 ^ a) (drop (c * 2 ^ a) leaves)
        (omega (arith, length-drop (c * 2 ^ a) leaves, chunk_fits c lt, leaf_count))

  pub chunk-IsHash : (c : ℕ) → Each IsHash (chunk c)
  chunk-IsHash c =
      Each-take (2 ^ a) (drop (c * 2 ^ a) leaves)
        (Each-drop (c * 2 ^ a) leaves (hash_leaf-IsHash iters txs))

  -- The roots of the chunks.
  abbrev pub roots : List Bytes
  roots = rise iters a leaves

  pub root_count : length roots ≡ 2 ^ b
  root_count = length-rise iters a b leaves leaf_count

  pub roots-IsHash : Each IsHash roots
  roots-IsHash = rise-IsHash iters a leaves (hash_leaf-IsHash iters txs)

  pub chunk_of-lt : (i : ℕ) → i < 2 ^ (a + b) → i / 2 ^ a < 2 ^ b
  chunk_of-lt i lt =
      (div-lt_iff_lt-mul (pow-pos a)).1 (omega (arith, lt, pow_add a b, mul_comm (2 ^ a) (2 ^ b)))
