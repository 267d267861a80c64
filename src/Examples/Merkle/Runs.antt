-- ===== src/Examples/Merkle/Runs.antt =====
-- What the two requests of `main` return.
use rust_dag_executor.Prelude.{
  ℕ, ◌-◌, ◌*◌, ◌^◌, ◌≤◌, ◌<◌, ◌≡◌, sym, ap, ◌∙◌, subst, List, [], ◌∷◌, some, take, drop, length,
  flatten,
}
use rust_dag_executor.Prelude.HashMap.{HashMap, get}
use rust_dag_executor.Prelude.Each.{Each, nil, cons}
use rust_dag_executor.Prelude.Result.{ok}
use rust_dag_executor.Prelude.Outcome.{done}
use rust_dag_executor.Graph.{ExecutorConfig}
use rust_dag_executor.Builder.{build}
use rust_dag_executor.Exec.Executor.{new, run_sequential, run_parallel}
use rust_dag_executor.Exec.Parallel.{Actor}
use rust_dag_executor.Exec.Parallel.Machine.{IsConfig}
use rust_dag_executor.Exec.Parallel.Measure.{enough_rounds}
use rust_dag_executor.Exec.Parallel.Fair.{IsFair}
use rust_dag_executor.Exec.Programs.{run_sequential-Finds, run_parallel-Finds}
use rust_dag_executor.Examples.Text.{Text}
use rust_dag_executor.Examples.Common.{Bytes}
use rust_dag_executor.Examples.Graphs.{DagT, text_eq}
use rust_dag_executor.Examples.Merkle.{merkle_key, build_merkle_dag}
use rust_dag_executor.Examples.Merkle.Names.{node, key, key-injective}
use rust_dag_executor.Examples.Merkle.Correct.{value, Source, leaves, build_merkle_dag_lem}
use rust_dag_executor.Examples.Rollup.Trees.{tree_root}
use rust_dag_executor.Examples.Rollup.Batches.{tree_root-chunk}

module _ (h level idx : ℕ) (few : h < 64) (low : level ≤ h) (inside : idx < 2 ^ (h - level)) where
  -- The Merkle root of the leaves below a place.
  abbrev subtree_root : Bytes
  subtree_root = tree_root 0 level (take (2 ^ level) (drop (idx * 2 ^ level) (leaves h)))

  in_map :
      (out : HashMap Text Bytes)
      → Each (λ n. get text_eq out (key n) ≡ some (value h n)) (node level idx ∷ [])
      → get text_eq out (merkle_key level idx) ≡ some subtree_root
  in_map out (cons e nil) = e ∙ ap some (sym (tree_root-chunk 0 level idx (leaves h)))

  -- For a tree of `2 ^ h` leaves, `h` below 64, and a place of it, `build_merkle_dag` returns a graph, and
  -- the sequential executor answers the request for the key of the place with the Merkle root of the
  -- leaves below it.
  pub run_sequential-build_merkle_dag :
      (cfg : ExecutorConfig)
      → (dag : DagT) × (build_merkle_dag (2 ^ h) h level idx
          ≡ done (dag, merkle_key h 0, merkle_key level idx))
        × (out : HashMap Text Bytes) × (run_sequential text_eq
              (new cfg)
              dag
              (merkle_key level idx ∷ [])
            ≡ done out)
        × (get text_eq out (merkle_key level idx)
            ≡ some (tree_root 0 level (take (2 ^ level) (drop (idx * 2 ^ level) (leaves h)))))
  run_sequential-build_merkle_dag cfg =
      let (b, dag, good, compiled, returns) = build_merkle_dag_lem h level idx few in
      let (out, r, found) =
        run_sequential-Finds text_eq key key-injective (value h) (Source h) b good dag compiled cfg
          (node level idx) [] (cons (low, inside) nil) in
      (dag, returns, out, r, in_map out found)

  -- For a tree of `2 ^ h` leaves, `h` below 64, and a place of it, `run_parallel` answers the request for
  -- the key of the place, on the graph that `build_merkle_dag` returns, with the Merkle root of the
  -- leaves below it, with no 0 in the configuration and under every schedule of enough rounds in each
  -- of which the scheduler and every worker has a turn.
  pub run_parallel-build_merkle_dag :
      (cfg : ExecutorConfig)
      → IsConfig cfg
      → (dag : DagT) (root_key subtree_key : Text)
      → build_merkle_dag (2 ^ h) h level idx ≡ done (dag, root_key, subtree_key)
      → (rounds : List (List Actor)) → Each (IsFair cfg) rounds
      → enough_rounds dag cfg ≤ length rounds
      → (out : HashMap Text Bytes) × (run_parallel text_eq
            (new cfg)
            dag
            (flatten rounds)
            (subtree_key ∷ [])
          ≡ done out)
        × (get text_eq out subtree_key
            ≡ some (tree_root 0 level (take (2 ^ level) (drop (idx * 2 ^ level) (leaves h)))))
  run_parallel-build_merkle_dag cfg config dag root_key subtree_key made rounds fair enough =
      let (b, dag', good, compiled, returns) = build_merkle_dag_lem h level idx few in
      let same : dag' ≡ dag = cc in
      let named : merkle_key level idx ≡ subtree_key = cc in
      let (out, r, found) =
        run_parallel-Finds text_eq key key-injective (value h) (Source h) b good dag
          (subst (λ d. build text_eq b ≡ ok d) same compiled) cfg (node level idx) []
          (cons (low, inside) nil) (cons (λ e. e) nil) config rounds fair enough in
      (
        out,
        subst (λ k. run_parallel text_eq (new cfg) dag (flatten rounds) (k ∷ []) ≡ done out) named
            r,
        subst (λ k. get text_eq out k ≡ some subtree_root) named (in_map out found),
      )
