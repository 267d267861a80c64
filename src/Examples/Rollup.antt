-- ===== src/Examples/Rollup.antt =====
-- examples/rollup.rs: the Merkle root that the naive baseline computes, and the inclusion proofs with
-- their binary format. A proof is verified as in a build that checks for overflow: a shift of a
-- `usize` by 64 or more panics there.
pub mod Proofs
pub mod Trees
pub mod Verdicts
pub mod Batches
pub mod Graph
pub mod Setup
use rust_dag_executor.Prelude.{
  ℕ, zero, suc, ◌+◌, ◌*◌, ◌/◌, ◌%◌, map, ◌^◌, List, [], ◌∷◌, ◌++◌, Bool, true, false, not, ◌&&◌,
  ◌||◌, length, if◌then◌else◌, ◌==◌, ltb, range_from, String, take, drop,
}
use rust_dag_executor.Prelude.Outcome.{Outcome, done, fail, panic, out_of_fuel, ◌>>=◌, index, each}
use rust_dag_executor.Examples.Common.{
  Bytes, to_le_bytes, from_le_bytes, hash_leaf_with_iters, hash_node_with_iters,
  hash_leaf_with_iters,
}

-- `v[from..from + n]`, which panics out of bounds.
unfoldable pub slice : {X A : Type 0} → List A → ℕ → ℕ → Outcome X (List A)
slice xs from n = if ltb (length xs) (from + n) then panic else done (take n (drop from xs))

abbrev pub same_bytes : Bytes → Bytes → Bool
same_bytes [] [] = true
same_bytes (x ∷ xs) (y ∷ ys) = (x == y) && same_bytes xs ys
same_bytes [] (_ ∷ _) = false
same_bytes (_ ∷ _) [] = false

-- `((index as usize) >> lvl) & 1`
abbrev pub index_bit : ℕ → ℕ → ℕ
index_bit index lvl = index / 2 ^ lvl % 2

-- The loop over the siblings, from level `lvl` on.
unfoldable pub encode_siblings : ℕ → ℕ → List Bytes → Outcome String Bytes
encode_siblings index lvl [] = done []
encode_siblings index lvl (sib ∷ siblings) = if not (ltb lvl 64) then panic else do
  rest ← encode_siblings index (suc lvl) siblings
  done (index_bit index lvl ∷ (sib ++ rest))

-- The two `debug_assert_eq!` panic.
unfoldable pub encode_merkle_proof_v1 : ℕ → ℕ → Bytes → List Bytes → Outcome String Bytes
encode_merkle_proof_v1 index height leaf_hash siblings =
    if not (length leaf_hash == 32)
    then panic
    else if not (length siblings == height)
    then panic
    else do
      levels ← encode_siblings index 0 siblings
      done (1 ∷ height ∷ (to_le_bytes 4 index ++ (leaf_hash ++ levels)))

-- The variables of the loop of `verify_merkle_proof`.
pub record Climb : Type 0 where
  pub offset : ℕ
  pub cur : Bytes

unfoldable pub verify_round : Bytes → ℕ → ℕ → Climb → ℕ → Outcome String Climb
verify_round proof idx hash_iters s lvl =
    if ltb (length proof) (s.offset + 1 + 32) then fail "proof truncated" else do
      side ← index proof s.offset
      sibling ← slice proof (s.offset + 1) 32
      if not (ltb lvl 64)
          then panic
          else if not (side == index_bit idx lvl)
          then fail "side bit does not match index bit"
          else if side == 0
          then done (record {
            offset = s.offset + 1 + 32;
            cur = hash_node_with_iters hash_iters s.cur sibling;
          })
          else if side == 1
          then done (record {
            offset = s.offset + 1 + 32;
            cur = hash_node_with_iters hash_iters sibling s.cur;
          })
          else fail "invalid side bit"

unfoldable pub verify_merkle_proof : Bytes → Bytes → ℕ → Outcome String Bool
verify_merkle_proof root proof hash_iters =
    if not (length root == 32)
    then fail "root must be 32 bytes"
    else if ltb (length proof) (1 + 1 + 4 + 32)
    then fail "proof too short"
    else do
      version ← index proof 0
      if not (version == 1) then fail "unsupported proof version" else do
        height ← index proof 1
        idx_bytes ← slice proof 2 4
        leaf ← slice proof 6 32
        s ←
            each (verify_round proof (from_le_bytes idx_bytes) hash_iters)
              (record { offset = 38; cur = leaf }) (range_from 0 height)
        done (same_bytes s.cur root)

-- The body of `while level.len() > 1`: the next level up. An odd last node would be dropped.
unfoldable pub next_level : ℕ → List Bytes → List Bytes
next_level hash_iters (left ∷ right ∷ level) =
    hash_node_with_iters hash_iters left right ∷ next_level hash_iters level
next_level hash_iters (last ∷ []) = []
next_level hash_iters [] = []

-- Every round halves the level, so the fuel is the number of leaves.
unfoldable pub naive_loop : ℕ → ℕ → List Bytes → ℕ → Outcome String (Bytes × ℕ)
naive_loop zero hash_iters level internal =
    if ltb 1 (length level) then out_of_fuel else do root ← index level 0; done (root, internal)
naive_loop (suc fuel) hash_iters level internal =
    let rest =
      naive_loop fuel hash_iters (next_level hash_iters level)
        (internal + length (next_level hash_iters level)) in
    if ltb 1 (length level) then rest else do root ← index level 0; done (root, internal)

-- `is_power_of_two` of a `usize`: whether it is `2 ^ k` for one of the `n` numbers `k` below.
abbrev pub is_power_below : ℕ → ℕ → Bool
is_power_below zero x = false
is_power_below (suc n) x = (x == 2 ^ n) || is_power_below n x

abbrev pub all_32 : List Bytes → Bool
all_32 [] = true
all_32 (l ∷ leaves) = (length l == 32) && all_32 leaves

unfoldable pub naive_merkle_root : List Bytes → ℕ → Outcome String (Bytes × ℕ)
naive_merkle_root leaves hash_iters =
    if not (is_power_below 64 (length leaves) && not (ltb (length leaves) 2))
    then panic
    else if not (all_32 leaves)
    then panic
    else naive_loop (length leaves) hash_iters leaves 0

pub record Naive : Type 0 where
  pub batch_root : Bytes
  pub count_leaf_hash : ℕ
  pub count_internal_hash : ℕ

-- The variables of the loop over the chunks.
pub record ChunkRoots : Type 0 where
  pub chunk_roots : List Bytes
  pub count_internal : ℕ

unfoldable pub chunk_round : List Bytes → ℕ → ℕ → ChunkRoots → ℕ → Outcome String ChunkRoots
chunk_round leaf_hashes chunk_size hash_iters s c = do
  leaves ← slice leaf_hashes (c * chunk_size) chunk_size
  (root, internal) ← naive_merkle_root leaves hash_iters
  done (record {
    chunk_roots = s.chunk_roots ++ root ∷ [];
    count_internal = s.count_internal + internal;
  })

-- A leaf hash is counted for each transaction. The division by the size of a chunk panics at 0.
unfoldable pub naive_full_batch_commitment : List Bytes → ℕ → ℕ → Outcome String Naive
naive_full_batch_commitment txs chunk_size hash_iters =
    let leaf_hashes = map (hash_leaf_with_iters hash_iters) txs in
    if chunk_size == 0 then panic else do
      s ←
          each (chunk_round leaf_hashes chunk_size hash_iters)
            (record { chunk_roots = []; count_internal = 0 })
            (range_from 0 (length txs / chunk_size))
      (batch_root, internal) ← naive_merkle_root s.chunk_roots hash_iters
      done (record {
        batch_root = batch_root;
        count_leaf_hash = length leaf_hashes;
        count_internal_hash = s.count_internal + internal;
      })
