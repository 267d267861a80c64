-- ===== src/Examples/Rollup/Batches.antt =====
-- The commitment of the naive baseline to a batch: the trees of the chunks, with a tree of their roots
-- on top, are one Merkle tree over all the leaves.
use native.Mathlib.Nat.{pow-suc, mul_comm, mul_assoc, mul-one, mul-div_cancel_left}
use rust_dag_executor.Prelude.{
  ℕ, zero, suc, ◌+◌, ◌-◌, ◌*◌, ◌/◌, ◌^◌, ◌≤◌, ◌<◌, ◌≡◌, refl, sym, ap, ◌∙◌, List, [], ◌∷◌, ◌++◌,
  map, arith, length, get_or, take, drop, ltb, ◌==◌, range_from, false,
}
use rust_dag_executor.Prelude.Each.{Each, nil, cons}
use rust_dag_executor.Prelude.Outcome.{done, Ensures, Ensures-total, each, range_inv}
use rust_dag_executor.Prelude.Slices.{
  length-take, length-drop, take_all, take-suc, Each-take, Each-drop, length-map, get_or-drop,
}
use rust_dag_executor.Prelude.Powers.{pow-pos, zero_add, suc_add, pow_add}
use rust_dag_executor.Examples.Common.{Bytes, hash_leaf_with_iters, hash_node_with_iters}
use rust_dag_executor.Examples.Common.Sizes.{length-hash_leaf}
use rust_dag_executor.Examples.Rollup.{
  slice, next_level, ChunkRoots, chunk_round, naive_full_batch_commitment,
}
use rust_dag_executor.Examples.Rollup.Proofs.{IsHash}
use rust_dag_executor.Examples.Rollup.Trees.{
  tree_root, length-next_level, next_level-IsHash, naive_merkle_root_lem,
}

module _ (iters : ℕ) where
  -- The level `a` levels up.
  abbrev pub rise : ℕ → List Bytes → List Bytes
  rise zero level = level
  rise (suc a) level = rise a (next_level iters level)

  pub rise-next_level :
      (l : ℕ) (level : List Bytes) → rise (suc l) level ≡ next_level iters (rise l level)
  rise-next_level zero level = refl
  rise-next_level (suc l) level = rise-next_level l (next_level iters level)

  pub tree_root-rise :
      (a b : ℕ) (level : List Bytes)
      → tree_root iters (a + b) level ≡ tree_root iters b (rise a level)
  tree_root-rise zero b level = ap (λ h. tree_root iters h level) (zero_add b)
  tree_root-rise (suc a) b level =
      ap (λ h. tree_root iters h level) (suc_add a b) ∙ tree_root-rise a b (next_level iters level)

  -- The root is the one hash of the level at the top.
  pub tree_root-top :
      (h : ℕ) (level : List Bytes) → tree_root iters h level ≡ get_or (rise h level) 0 []
  tree_root-top h level =
      let whole : h ≡ h + 0 = omega arith in
      ap (λ n. tree_root iters n level) whole ∙ tree_root-rise h 0 level

  next_level-drop :
      (n m : ℕ) (level : List Bytes)
      → m ≡ n * 2
      → next_level iters (drop m level) ≡ drop n (next_level iters level)
  unfolding next_level
  next_level-drop zero zero level e = refl
  next_level-drop zero (suc m) level e = absurd (omega (arith, e))
  next_level-drop (suc n) zero level e = absurd (omega (arith, e))
  next_level-drop (suc n) (suc zero) level e = absurd (omega (arith, e))
  next_level-drop (suc n) (suc (suc m)) [] e = refl
  next_level-drop (suc n) (suc (suc m)) (x ∷ []) e = refl
  next_level-drop (suc n) (suc (suc m)) (x ∷ y ∷ level) e =
      next_level-drop n m level (omega (arith, e))

  next_level-take :
      (n m : ℕ) (level : List Bytes)
      → m ≡ n * 2
      → next_level iters (take m level) ≡ take n (next_level iters level)
  unfolding next_level
  next_level-take zero zero level e = refl
  next_level-take zero (suc m) level e = absurd (omega (arith, e))
  next_level-take (suc n) zero level e = absurd (omega (arith, e))
  next_level-take (suc n) (suc zero) level e = absurd (omega (arith, e))
  next_level-take (suc n) (suc (suc m)) [] e = refl
  next_level-take (suc n) (suc (suc m)) (x ∷ []) e = refl
  next_level-take (suc n) (suc (suc m)) (x ∷ y ∷ level) e =
      ap (hash_node_with_iters iters x y ∷◌) (next_level-take n m level (omega (arith, e)))

  -- A chunk's root is its place in the level that the chunks' roots make.
  pub tree_root-chunk :
      (a c : ℕ) (level : List Bytes)
      → tree_root iters a (take (2 ^ a) (drop (c * 2 ^ a) level)) ≡ get_or (rise a level) c []
  tree_root-chunk zero c level =
      ap (λ n. get_or (take 1 (drop n level)) 0 []) (mul-one c) ∙ get_or-drop c level []
  tree_root-chunk (suc a) c level =
      ap (tree_root iters a) (
        next_level-take (2 ^ a) (2 ^ suc a) (drop (c * 2 ^ suc a) level) (pow-suc 2 a)
        ∙ ap (take (2 ^ a)) (
            next_level-drop (c * 2 ^ a) (c * 2 ^ suc a) level
              (ap (c *◌) (pow-suc 2 a) ∙ sym (mul_assoc c (2 ^ a) 2))))
      ∙ tree_root-chunk a c (next_level iters level)

  pub length-rise :
      (a b : ℕ) (level : List Bytes) → length level ≡ 2 ^ (a + b) → length (rise a level) ≡ 2 ^ b
  length-rise zero b level e = e ∙ ap (2 ^◌) (zero_add b)
  length-rise (suc a) b level e = length-rise a b (next_level iters level) (
      length-next_level iters (2 ^ (a + b)) level (e ∙ ap (2 ^◌) (suc_add a b) ∙ pow-suc 2 (a + b)))

  pub rise-IsHash : (a : ℕ) (level : List Bytes) → Each IsHash level → Each IsHash (rise a level)
  rise-IsHash zero level h = h
  rise-IsHash (suc a) level h =
      rise-IsHash a (next_level iters level) (next_level-IsHash iters level)

  pub hash_leaf-IsHash : (txs : List Bytes) → Each IsHash (map (hash_leaf_with_iters iters) txs)
  hash_leaf-IsHash [] = nil
  hash_leaf-IsHash (x ∷ txs) = cons (length-hash_leaf iters x) (hash_leaf-IsHash txs)

  module _ (a b : ℕ) (some_a : 0 < a) (few_a : a < 64) (level : List Bytes)
      (size : length level ≡ 2 ^ (a + b)) (hashes : Each IsHash level) where
    -- The roots of the first `k` chunks, each of `2 ^ a - 1` hashes.
    record IsRooted (k : ℕ) (s : ChunkRoots) : Type 0 where
      roots : s.chunk_roots ≡ take k (rise a level)
      count_internal : s.count_internal + k ≡ k * 2 ^ a

    chunk_fits : (k : ℕ) → k < 2 ^ b → k * 2 ^ a + 2 ^ a ≤ length level
    chunk_fits k lt = omega (arith, size, pow_add a b, mul_comm (2 ^ a) (2 ^ b), room)
      where
        room : suc k * 2 ^ a ≤ 2 ^ b * 2 ^ a
        room = grind (arith, lt)

    chunk_round_lem :
        (k : ℕ) (s : ChunkRoots)
        → k < 2 ^ b
        → IsRooted k s
        → Ensures (IsRooted (suc k)) (λ _. ⊥) (chunk_round level (2 ^ a) iters s k)
    unfolding chunk_round slice
    chunk_round_lem k s lt h =
        let fits : ltb (length level) (k * 2 ^ a + 2 ^ a) ≡ false =
          ground (arith, chunk_fits k lt) in
        rw
          (
            fits,
            naive_merkle_root_lem iters a (take (2 ^ a) (drop (k * 2 ^ a) level)) some_a few_a
                (length-take (2 ^ a) (drop (k * 2 ^ a) level)
                  (omega (arith, length-drop (k * 2 ^ a) level, chunk_fits k lt)))
                (Each-take (2 ^ a) (drop (k * 2 ^ a) level) (Each-drop (k * 2 ^ a) level hashes)),
            tree_root-chunk a k level,
          )
          (record {
            roots =
                ap (◌++ get_or (rise a level) k [] ∷ []) h.roots
                ∙ sym
                    (take-suc k (rise a level) [] (omega (arith, lt, length-rise a b level size)));
            count_internal = omega (arith, h.count_internal, pow-pos a, step);
          })
      where
        step : suc k * 2 ^ a ≡ k * 2 ^ a + 2 ^ a
        step = grind arith

  -- For chunks of `2 ^ a` of the `2 ^ (a + b)` transactions, `a` and `b` from 1 to 63, the naive baseline
  -- returns the Merkle root over the hashes of all the transactions, and counts one leaf hash for each
  -- transaction and one internal hash less.
  pub naive_full_batch_commitment_lem :
      (a b : ℕ) (txs : List Bytes)
      → 0 < a
      → a < 64
      → 0 < b
      → b < 64
      → length txs ≡ 2 ^ (a + b)
      → naive_full_batch_commitment txs (2 ^ a) iters
        ≡ done (record {
          batch_root = tree_root iters (a + b) (map (hash_leaf_with_iters iters) txs);
          count_leaf_hash = 2 ^ (a + b);
          count_internal_hash = 2 ^ (a + b) - 1;
        })
  unfolding naive_full_batch_commitment
  naive_full_batch_commitment_lem a b txs some_a few_a some_b few_b size =
      let (s, looped, h) =
        Ensures-total (IsRooted a b some_a few_a leaves leaf_count hashes (2 ^ b)) (λ _. ⊥)
          (each (chunk_round leaves (2 ^ a) iters) (record { chunk_roots = []; count_internal = 0 })
            (range_from 0 (2 ^ b)))
          (range_inv (λ _. ⊥) (2 ^ b) (IsRooted a b some_a few_a leaves leaf_count hashes)
            (chunk_round leaves (2 ^ a) iters)
            (λ k s lt h. chunk_round_lem a b some_a few_a leaves leaf_count hashes k s lt h) (2 ^ b)
            0 _ (omega arith) (record { roots = refl; count_internal = omega arith }))
          (λ x e. e) in
      let roots : s.chunk_roots ≡ rise a leaves =
        h.roots ∙ take_all (2 ^ b) (rise a leaves) (length-rise a b leaves leaf_count) in
      let total : s.count_internal + (2 ^ b - 1) ≡ 2 ^ (a + b) - 1 =
        omega (arith, h.count_internal, pow_add a b, mul_comm (2 ^ a) (2 ^ b), pow-pos b) in
      rw
        (
          not_zero,
          chunks,
          looped,
          roots,
          naive_merkle_root_lem iters b (rise a leaves) some_b few_b
              (length-rise a b leaves leaf_count) (rise-IsHash a leaves hashes),
          total,
          leaf_count,
          tree_root-rise a b leaves,
        )
        refl
    where
      leaves : List Bytes
      leaves = map (hash_leaf_with_iters iters) txs

      leaf_count : length leaves ≡ 2 ^ (a + b)
      leaf_count = length-map (hash_leaf_with_iters iters) txs ∙ size

      hashes : Each IsHash leaves
      hashes = hash_leaf-IsHash txs

      not_zero : (2 ^ a == 0) ≡ false
      not_zero = ground (arith, pow-pos a)

      chunks : length txs / 2 ^ a ≡ 2 ^ b
      chunks = ap (◌/ 2 ^ a) (size ∙ pow_add a b) ∙ mul-div_cancel_left (2 ^ b) (pow-pos a)
