-- ===== src/Examples/Rollup/Graph.antt =====
-- examples/rollup.rs: the commitment of a batch as a graph, and the keys of its nodes. The counters of
-- the closures are left out.
pub mod Names
pub mod Chunks
pub mod Proof
pub mod Staged
pub mod Top
pub mod Finish
pub mod Whole
pub mod Runs
use Prim.Native.Nat.{bit_xor}
use rust_dag_executor.Prelude.{
  ℕ, zero, suc, ◌+◌, ◌-◌, ◌*◌, ◌/◌, ◌%◌, ◌^◌, List, [], ◌∷◌, ◌++◌, if◌then◌else◌, ◌==◌, ltb, not,
  range_from, length, drop, String,
}
use rust_dag_executor.Prelude.Outcome.{Outcome, done, fail, panic, out_of_fuel, ◌>>=◌, each, index}
use rust_dag_executor.Error.{BuildError}
use rust_dag_executor.Builder.{new, add_source, add_task, build}
use rust_dag_executor.Builder.Named.{attempt}
use rust_dag_executor.Examples.Text.{Text, codes, decimal}
use rust_dag_executor.Examples.Common.{Bytes, ensure_32}
use rust_dag_executor.Examples.Graphs.{
  DagT, Builder, text_eq, of_result, closure, hash_leaf_body, hash_node_body,
}
use rust_dag_executor.Examples.Rollup.{encode_merkle_proof_v1}

pub record RollupSpec : Type 0 where
  pub chunk_size : ℕ
  pub chunk_height : ℕ
  pub batch_height : ℕ
  pub target_tx : ℕ
  pub hash_iters : ℕ

pub record Keys : Type 0 where
  pub batch_root : Text
  pub target_chunk_root : Text
  pub target_chunk_proof : Text

abbrev pub tx_key : ℕ → Text
tx_key i = codes "tx/" ++ decimal i

abbrev pub leaf_key : ℕ → Text
leaf_key i = codes "leaf/" ++ decimal i

abbrev pub chunk_node_key : ℕ → ℕ → ℕ → Text
chunk_node_key chunk lvl idx =
    codes "chunk/"
    ++ (decimal chunk ++ (codes "/node/" ++ (decimal lvl ++ (codes "/" ++ decimal idx))))

abbrev pub chunk_root_key : ℕ → Text
chunk_root_key chunk = codes "chunk/" ++ (decimal chunk ++ codes "/root")

abbrev pub batch_node_key : ℕ → ℕ → Text
batch_node_key lvl idx = codes "batch/node/" ++ (decimal lvl ++ (codes "/" ++ decimal idx))

abbrev pub batch_root_key : Text
batch_root_key = codes "batch/root"

abbrev pub chunk_proof_key : ℕ → ℕ → Text
chunk_proof_key chunk pos = codes "chunk/" ++ (decimal chunk ++ (codes "/proof/tx/" ++ decimal pos))

abbrev pub chunk_child_key : ℕ → ℕ → ℕ → ℕ → Text
chunk_child_key chunk zero idx chunk_size = leaf_key (chunk * chunk_size + idx)
chunk_child_key chunk (suc lvl) idx chunk_size = chunk_node_key chunk (suc lvl) idx

-- The key of the sibling `sib_idx` at a level: the two branches of `chunk_sibling_key`.
abbrev pub sibling_at : ℕ → ℕ → ℕ → ℕ → Text
sibling_at chunk sib_idx zero chunk_size = leaf_key (chunk * chunk_size + sib_idx)
sibling_at chunk sib_idx (suc level) chunk_size = chunk_node_key chunk (suc level) sib_idx

-- A shift by 64 or more panics.
unfoldable pub chunk_sibling_key : ℕ → ℕ → ℕ → ℕ → Outcome (BuildError Text) Text
chunk_sibling_key chunk pos_in_chunk level chunk_size =
    if not (ltb level 64)
    then panic
    else done (sibling_at chunk (bit_xor (pos_in_chunk / 2 ^ level) 1) level chunk_size)

abbrev pub batch_child_key : ℕ → ℕ → Text
batch_child_key zero idx = chunk_root_key idx
batch_child_key (suc lvl) idx = batch_node_key (suc lvl) idx

-- `|xs| Ok(xs[0].as_ref().clone())`
unfoldable pub clone_body : List Bytes → Outcome String Bytes
clone_body xs = index xs 0

-- The closure of the proof task; its casts to `u32` and `u8` keep the low bits.
unfoldable pub proof_body : ℕ → ℕ → List Bytes → Outcome String Bytes
proof_body pos chunk_height xs = do
  leaf ← index xs 0
  _ ← of_result (ensure_32 leaf)
  _ ← each (λ (_ : Unit {0}) sib. of_result (ensure_32 sib)) tt (drop 1 xs)
  encode_merkle_proof_v1 (pos % 2 ^ 32) (chunk_height % 256) leaf (drop 1 xs)

-- The loop over `txs.iter().enumerate()`, from index `i` on.
unfoldable pub add_txs : ℕ → ℕ → List Bytes → Builder → Outcome (BuildError Text) Builder
add_txs iters i [] b = done b
add_txs iters i (tx ∷ txs) b = do
  b' ← attempt (add_source text_eq b (tx_key i) tx)
  b'' ← attempt (add_task text_eq b' (leaf_key i) (tx_key i ∷ []) (closure (hash_leaf_body iters)))
  add_txs iters (suc i) txs b''

module _ (spec : RollupSpec) where
  -- A round over the places of level `lvl` of chunk `c`.
  unfoldable pub chunk_node_round : ℕ → ℕ → Builder → ℕ → Outcome (BuildError Text) Builder
  chunk_node_round c lvl b idx =
      let left = chunk_child_key c (lvl - 1) (idx * 2) spec.chunk_size in
      let right = chunk_child_key c (lvl - 1) (idx * 2 + 1) spec.chunk_size in
      attempt (
        add_task text_eq b (chunk_node_key c lvl idx) (left ∷ right ∷ [])
          (closure (hash_node_body spec.hash_iters)))

  unfoldable pub chunk_level_round : ℕ → Builder → ℕ → Outcome (BuildError Text) Builder
  chunk_level_round c b lvl =
      if not (ltb lvl 64)
      then panic
      else each (chunk_node_round c lvl) b (range_from 0 (spec.chunk_size / 2 ^ lvl))

  -- A round over the chunks: the tree of the chunk, and the alias of its root.
  unfoldable pub chunk_tree_round : Builder → ℕ → Outcome (BuildError Text) Builder
  chunk_tree_round b c = do
    b' ← each (chunk_level_round c) b (range_from 1 spec.chunk_height)
    attempt (
        add_task text_eq b' (chunk_root_key c) (chunk_node_key c spec.chunk_height 0 ∷ [])
          (closure clone_body))

  -- A round over the places of level `lvl` of the top tree.
  unfoldable pub batch_node_round : ℕ → Builder → ℕ → Outcome (BuildError Text) Builder
  batch_node_round lvl b idx =
      let left = batch_child_key (lvl - 1) (idx * 2) in
      let right = batch_child_key (lvl - 1) (idx * 2 + 1) in
      attempt (
        add_task text_eq b (batch_node_key lvl idx) (left ∷ right ∷ [])
          (closure (hash_node_body spec.hash_iters)))

  unfoldable pub batch_level_round : ℕ → Builder → ℕ → Outcome (BuildError Text) Builder
  batch_level_round n_chunks b lvl =
      if not (ltb lvl 64)
      then panic
      else each (batch_node_round lvl) b (range_from 0 (n_chunks / 2 ^ lvl))

  -- The loop that pushes the sibling keys, from `lvl` on, `left` of them.
  unfoldable pub sibling_keys : ℕ → ℕ → ℕ → ℕ → Outcome (BuildError Text) (List Text)
  sibling_keys target_chunk pos lvl zero = done []
  sibling_keys target_chunk pos lvl (suc left) = do
    key ← chunk_sibling_key target_chunk pos lvl spec.chunk_size
    deps ← sibling_keys target_chunk pos (suc lvl) left
    done (key ∷ deps)

  -- The alias of the batch root, the proof task and `build`.
  unfoldable pub finish_batch : Builder → Outcome (BuildError Text) (DagT × Keys)
  finish_batch b = do
    b' ← attempt (
        add_task text_eq b batch_root_key (batch_node_key spec.batch_height 0 ∷ [])
          (closure clone_body))
    let target_chunk = spec.target_tx / spec.chunk_size
    let pos = spec.target_tx % spec.chunk_size
    let proof_key = chunk_proof_key target_chunk pos
    deps ← sibling_keys target_chunk pos 0 spec.chunk_height
    b'' ← attempt (
        add_task text_eq b' proof_key (leaf_key spec.target_tx ∷ deps)
          (closure (proof_body pos spec.chunk_height)))
    dag ← of_result (build text_eq b'')
    done (
      dag,
      record {
        batch_root = batch_root_key;
        target_chunk_root = chunk_root_key target_chunk;
        target_chunk_proof = proof_key;
      },
    )

  -- The divisions by the size of a chunk panic at 0.
  unfoldable pub build_rollup_commitment_dag : List Bytes → Outcome (BuildError Text) (DagT × Keys)
  build_rollup_commitment_dag txs = if spec.chunk_size == 0 then panic else do
    let n_chunks = length txs / spec.chunk_size
    b ← add_txs spec.hash_iters 0 txs new
    b' ← each chunk_tree_round b (range_from 0 n_chunks)
    b'' ← each (batch_level_round n_chunks) b' (range_from 1 spec.batch_height)
    finish_batch b''
