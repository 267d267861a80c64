-- ===== src/Examples/Rollup/Graph/Top.antt =====
-- The rest of `build_rollup_commitment_dag`: the tree over the chunk roots, the two aliases' tasks and
-- the proof task.
use rust_dag_executor.Prelude.{
  ℕ, zero, suc, ◌+◌, ◌-◌, ◌^◌, ◌≤◌, ◌<◌, ◌≡◌, refl, ap, ◌∙◌, List, [], arith, length, get_or,
  range_from, ltb, true,
}
use rust_dag_executor.Prelude.Powers.{pow_div}
use rust_dag_executor.Prelude.Outcome.{Ensures, each}
use rust_dag_executor.Examples.Common.{Bytes}
use rust_dag_executor.Examples.Graphs.{Builder, closure, hash_node_body}
use rust_dag_executor.Examples.Graphs.Levels.{Full, place_round, levels-Good, children_same}
use rust_dag_executor.Examples.Rollup.Batches.{rise, tree_root-chunk}
use rust_dag_executor.Examples.Rollup.Graph.{
  RollupSpec, batch_node_key, batch_child_key, batch_node_round, batch_level_round,
}
use rust_dag_executor.Examples.Rollup.Graph.Names.{Name, chunk_root, batch_node, key, key-injective}
use rust_dag_executor.Examples.Rollup.Graph.Chunks.{roots, root_count, roots-IsHash, leaves}
use rust_dag_executor.Examples.Rollup.Graph.Staged.{value, Source, Good, Chunked}

abbrev pub batch_place : ℕ → ℕ → Name
batch_place zero i = chunk_root i
batch_place (suc l) i = batch_node l i

module _ (spec : RollupSpec) (b : ℕ) (txs : List Bytes)
    (sized : spec.chunk_size ≡ 2 ^ spec.chunk_height)
    (size : length txs ≡ 2 ^ (spec.chunk_height + b)) (few : spec.chunk_height < 64)
    (few_b : b < 64) where
  abbrev pub a : ℕ
  a = spec.chunk_height

  abbrev pub iters : ℕ
  iters = spec.hash_iters

  abbrev pub worth : Name → Bytes
  worth = value spec b txs sized size few

  abbrev pub Of : Name → Type 0
  Of = Source spec b txs sized size few

  abbrev pub Chunks : Name → Type 0
  Chunks = Chunked spec b txs sized size few (2 ^ b)

  abbrev pub tops : List Bytes
  tops = roots iters a b txs size

  pub place_value :
      (l i : ℕ)
      → l ≤ b
      → i < 2 ^ (b - l)
      → worth (batch_place l i) ≡ get_or (rise iters l tops) i []
  place_value zero i le inside = tree_root-chunk iters a i (leaves iters a b txs size)
  place_value (suc l) i le inside = refl

  pub place_injective :
      (l i l' i' : ℕ) → batch_place (suc l) i ≡ batch_place (suc l') i' → (l ≡ l') × (i ≡ i')
  place_injective l i l' i' e = (cc, cc)

  pub base_leaf : (i : ℕ) → i < 2 ^ b → Chunks (batch_place 0 i)
  base_leaf i inside = inside

  pub base_apart : (l i : ℕ) → Chunks (batch_place (suc l) i) → ⊥
  base_apart l i none_yet = none_yet

  abbrev pub Tree : Name → Type 0
  Tree =
      Full iters b tops (root_count iters a b txs size) (roots-IsHash iters a b txs size) key
        key-injective worth Of batch_place place_injective place_value Chunks base_leaf base_apart

  batch_child_key-place : (l i : ℕ) → batch_child_key l i ≡ key (batch_place l i)
  batch_child_key-place zero i = refl
  batch_child_key-place (suc l) i = refl

  batch_level_round-row :
      (l : ℕ) (bu : Builder)
      → suc l ≤ b
      → batch_level_round spec (2 ^ b) bu (suc l)
        ≡ each
            (place_round iters b tops
              (root_count iters a b txs size)
              (roots-IsHash iters a b txs size)
              key
              key-injective
              worth
              Of
              batch_place
              place_injective
              place_value
              Chunks
              base_leaf
              base_apart
              l)
            bu
            (range_from 0 (2 ^ (b - suc l)))
  unfolding batch_level_round batch_node_round
  batch_level_round-row l bu le =
      let in_range : ltb (suc l) 64 ≡ true = ground (arith, le, few_b) in
      let below : suc l - 1 ≡ l = omega arith in
      rw (in_range, pow_div (suc l) b le)
        (children_same (batch_node_key (suc l)) (λ idx. batch_child_key (suc l - 1) idx)
          (λ idx. key (batch_place l idx)) (closure (hash_node_body iters))
          (λ idx. ap (λ p. batch_child_key p idx) below ∙ batch_child_key-place l idx) bu
          (range_from 0 (2 ^ (b - suc l))))

  -- The loop over the levels of the top tree.
  pub batch-Good :
      (bu : Builder)
      → Good spec b txs sized size few Chunks bu
      → Ensures
          (Good spec b txs sized size few Tree)
          (λ _. ⊥)
          (each (batch_level_round spec (2 ^ b)) bu (range_from 1 b))
  batch-Good bu good =
      levels-Good iters b tops (root_count iters a b txs size) (roots-IsHash iters a b txs size) key
        key-injective worth Of batch_place place_injective place_value Chunks base_leaf base_apart
        (batch_level_round spec (2 ^ b)) batch_level_round-row bu good
