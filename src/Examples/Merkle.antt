-- ===== src/Examples/Merkle.antt =====
-- examples/merkle.rs: a perfect Merkle tree as a graph, with a node for each hash. The counters of the
-- closures are left out.
pub mod Names
pub mod Correct
pub mod Runs
use rust_dag_executor.Prelude.{
  ℕ, zero, suc, ◌+◌, ◌-◌, ◌*◌, ◌/◌, ◌^◌, List, [], ◌∷◌, ◌++◌, if◌then◌else◌, ◌==◌, ltb, not,
  range_from,
}
use rust_dag_executor.Prelude.Outcome.{Outcome, done, panic, ◌>>=◌, each}
use rust_dag_executor.Error.{BuildError}
use rust_dag_executor.Builder.{new, add_source, add_task, build}
use rust_dag_executor.Builder.Named.{attempt}
use rust_dag_executor.Examples.Text.{Text, codes, decimal}
use rust_dag_executor.Examples.Common.{fake_encoded_tx}
use rust_dag_executor.Examples.Graphs.{
  DagT, Builder, text_eq, of_result, closure, hash_leaf_body, hash_node_body,
}

unfoldable pub tx_key : ℕ → Text
tx_key i = codes "tx/" ++ decimal i

unfoldable pub leaf_key : ℕ → Text
leaf_key i = codes "leaf/" ++ decimal i

abbrev pub merkle_key : ℕ → ℕ → Text
merkle_key zero idx = leaf_key idx
merkle_key (suc level) idx = codes "node/" ++ (decimal (suc level) ++ (codes "/" ++ decimal idx))

-- A round of the loop over the leaves.
unfoldable pub leaf_round : Builder → ℕ → Outcome (BuildError Text) Builder
leaf_round b i = do
  b' ← attempt (add_source text_eq b (tx_key i) (fake_encoded_tx i))
  attempt (add_task text_eq b' (leaf_key i) (tx_key i ∷ []) (closure (hash_leaf_body 0)))

-- A round of the loop over the places of a level.
unfoldable pub node_round : ℕ → Builder → ℕ → Outcome (BuildError Text) Builder
node_round level b idx =
    let left_child = merkle_key (level - 1) (idx * 2) in
    let right_child = merkle_key (level - 1) (idx * 2 + 1) in
    let out_key = merkle_key level idx in
    attempt
      (add_task text_eq b out_key (left_child ∷ right_child ∷ []) (closure (hash_node_body 0)))

-- A round of the loop over the levels. A shift by 64 or more panics.
unfoldable pub level_round : ℕ → Builder → ℕ → Outcome (BuildError Text) Builder
level_round n_leaves b level =
    if not (ltb level 64)
    then panic
    else each (node_round level) b (range_from 0 (n_leaves / 2 ^ level))

unfoldable pub build_merkle_dag : ℕ → ℕ → ℕ → ℕ → Outcome (BuildError Text) (DagT × Text × Text)
build_merkle_dag n_leaves height subtree_level subtree_index = do
  b ← each leaf_round new (range_from 0 n_leaves)
  b' ← each (level_round n_leaves) b (range_from 1 height)
  dag ← of_result (build text_eq b')
  done (dag, merkle_key height 0, merkle_key subtree_level subtree_index)
