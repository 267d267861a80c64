-- ===== src/Examples/Rollup/Trees.antt =====
-- Merkle trees: the root of the naive baseline, and the inclusion proof of every leaf.
use native.Mathlib.Nat.{pow-suc, pow-le-pow_right}
use rust_dag_executor.Prelude.{
  ℕ, zero, suc, ◌+◌, ◌-◌, ◌*◌, ◌/◌, ◌%◌, ◌^◌, ◌≤◌, ◌<◌, ◌≡◌, refl, sym, ap, ◌∙◌, List, [], ◌∷◌,
  true, false, arith, length, get_or, if◌then◌else◌, ◌==◌, ltb, Bool-cases, inl, inr, String,
  get_elem?-lt, ℕ_discrete,
}
use rust_dag_executor.Prelude.Siblings.{sibling}
use rust_dag_executor.Prelude.Each.{Each, nil, cons, Each-at}
use rust_dag_executor.Prelude.Outcome.{◌>>=◌, done, index-eq-done}
use rust_dag_executor.Prelude.Powers.{pow-pos}
use rust_dag_executor.Examples.Common.{Bytes, hash_node_with_iters}
use rust_dag_executor.Examples.Common.Sizes.{length-hash_node}
use rust_dag_executor.Examples.Rollup.{
  same_bytes, encode_merkle_proof_v1, verify_merkle_proof, next_level, naive_loop, is_power_below,
  all_32, naive_merkle_root,
}
use rust_dag_executor.Examples.Rollup.Proofs.{IsHash, climb, verify-encode}

same_bytes_self : (bytes : Bytes) → same_bytes bytes bytes ≡ true
same_bytes_self [] = refl
same_bytes_self (b ∷ bytes) = ground (arith, same_bytes_self bytes)

pub is_power_below-pow : (n h x : ℕ) → h < n → x ≡ 2 ^ h → is_power_below n x ≡ true
is_power_below-pow zero h x lt e = absurd (omega (arith, lt))
is_power_below-pow (suc n) h x lt e = elim (ℕ_discrete h n) [
  | yes same ↦ ground (arith, e, ap (2 ^◌) same)
  | no differ ↦ ground (arith, is_power_below-pow n h x (omega (arith, lt, differ)) e)
]

all_32-Each : (leaves : List Bytes) → Each IsHash leaves → all_32 leaves ≡ true
all_32-Each [] hashes = refl
all_32-Each (l ∷ leaves) (cons hash hashes) = ground (arith, hash, all_32-Each leaves hashes)

suc-le-pow : (h : ℕ) → h < 2 ^ h
suc-le-pow zero = omega arith
suc-le-pow (suc h) = omega (arith, suc-le-pow h, pow-suc 2 h)

module _ (iters : ℕ) where
  -- The root of a tree of `h` levels above this one.
  abbrev pub tree_root : ℕ → List Bytes → Bytes
  tree_root zero level = get_or level 0 []
  tree_root (suc h) level = tree_root h (next_level iters level)

  -- The siblings on the way up from node `i`.
  abbrev pub siblings_of : ℕ → ℕ → List Bytes → List Bytes
  siblings_of zero i level = []
  siblings_of (suc h) i level =
      get_or level (sibling i) [] ∷ siblings_of h (i / 2) (next_level iters level)

  pub length-next_level :
      (n : ℕ) (level : List Bytes) → length level ≡ n * 2 → length (next_level iters level) ≡ n
  unfolding next_level
  length-next_level zero [] e = refl
  length-next_level (suc n) [] e = absurd (omega (arith, e))
  length-next_level n (a ∷ []) e = absurd (omega (arith, e))
  length-next_level zero (a ∷ b ∷ level) e = absurd (omega (arith, e))
  length-next_level (suc n) (a ∷ b ∷ level) e =
      ap suc (length-next_level n level (omega (arith, e)))

  pub next_level-IsHash : (level : List Bytes) → Each IsHash (next_level iters level)
  unfolding next_level
  next_level-IsHash [] = nil
  next_level-IsHash (a ∷ []) = nil
  next_level-IsHash (a ∷ b ∷ level) = cons (length-hash_node iters a b) (next_level-IsHash level)

  pub next_level-at :
      (k j : ℕ) (level : List Bytes)
      → j ≡ k * 2
      → suc j < length level
      → get_or (next_level iters level) k []
        ≡ hash_node_with_iters iters (get_or level j []) (get_or level (suc j) [])
  unfolding next_level
  next_level-at k j [] e lt = absurd (omega (arith, lt))
  next_level-at k j (a ∷ []) e lt = absurd (omega (arith, lt))
  next_level-at zero zero (a ∷ b ∷ level) e lt = refl
  next_level-at zero (suc j) (a ∷ b ∷ level) e lt = absurd (omega (arith, e))
  next_level-at (suc k) zero (a ∷ b ∷ level) e lt = absurd (omega (arith, e))
  next_level-at (suc k) (suc zero) (a ∷ b ∷ level) e lt = absurd (omega (arith, e))
  next_level-at (suc k) (suc (suc j)) (a ∷ b ∷ level) e lt =
      next_level-at k j level (omega (arith, e)) (omega (arith, lt))

  -- The node above node `i` is the hash of `i` and its sibling, in their order.
  parent :
      (n i : ℕ) (level : List Bytes)
      → length level ≡ n * 2
      → i < length level
      → (if i % 2 == 0
          then hash_node_with_iters iters (get_or level i []) (get_or level (sibling i) [])
          else hash_node_with_iters iters (get_or level (sibling i) []) (get_or level i []))
        ≡ get_or (next_level iters level) (i / 2) []
  parent n i level size lt = elim (Bool-cases (i % 2 == 0)) [
    | inl even ↦
        let next : i + 1 ≡ suc i = omega arith in
        rw (even, next)
          (sym
            (next_level-at (i / 2) i level (ground (arith, even)) (ground (arith, even, size, lt))))
    | inr odd ↦
        let last : suc (i - 1) ≡ i = ground (arith, odd) in
        rw odd (
          ap (λ j. hash_node_with_iters iters (get_or level (i - 1) []) (get_or level j []))
            (sym last)
          ∙ sym (
              next_level-at (i / 2) (i - 1) level (ground (arith, odd))
                (ground (arith, odd, size, lt))))
  ]

  pub climb-tree_root :
      (h i : ℕ) (level : List Bytes)
      → length level ≡ 2 ^ h
      → i < 2 ^ h
      → climb iters i (get_or level i []) (siblings_of h i level) ≡ tree_root h level
  climb-tree_root zero i level size lt =
      let first : i ≡ 0 = omega (arith, lt) in ap (λ i. get_or level i []) first
  climb-tree_root (suc h) i level size lt =
      let twice : length level ≡ 2 ^ h * 2 = size ∙ pow-suc 2 h in
      ap (λ cur. climb iters (i / 2) cur (siblings_of h (i / 2) (next_level iters level)))
        (parent (2 ^ h) i level twice (omega (arith, size, lt)))
      ∙ climb-tree_root h (i / 2) (next_level iters level) (length-next_level (2 ^ h) level twice)
          (omega (arith, lt, pow-suc 2 h))

  pub length-siblings_of : (h i : ℕ) (level : List Bytes) → length (siblings_of h i level) ≡ h
  length-siblings_of zero i level = refl
  length-siblings_of (suc h) i level =
      ap suc (length-siblings_of h (i / 2) (next_level iters level))

  pub IsHash-get_or :
      (level : List Bytes) (i : ℕ)
      → Each IsHash level
      → i < length level
      → IsHash (get_or level i [])
  IsHash-get_or level i hashes lt = Each-at IsHash i hashes (get_elem?-lt level i [] lt)

  pub siblings_of-IsHash :
      (h i : ℕ) (level : List Bytes)
      → length level ≡ 2 ^ h
      → i < 2 ^ h
      → Each IsHash level
      → Each IsHash (siblings_of h i level)
  siblings_of-IsHash zero i level size lt hashes = nil
  siblings_of-IsHash (suc h) i level size lt hashes =
      let twice : length level ≡ 2 ^ h * 2 = size ∙ pow-suc 2 h in
      cons (IsHash-get_or level (sibling i) hashes (ground (arith, twice, size, lt))) (
        siblings_of-IsHash h (i / 2) (next_level iters level)
          (length-next_level (2 ^ h) level twice) (omega (arith, lt, pow-suc 2 h))
          (next_level-IsHash level))

  pub tree_root-IsHash :
      (h : ℕ) (level : List Bytes)
      → length level ≡ 2 ^ h
      → Each IsHash level
      → IsHash (tree_root h level)
  tree_root-IsHash zero level size hashes = IsHash-get_or level 0 hashes (omega (arith, size))
  tree_root-IsHash (suc h) level size hashes =
      tree_root-IsHash h (next_level iters level)
        (length-next_level (2 ^ h) level (size ∙ pow-suc 2 h)) (next_level-IsHash level)

  -- The loop of the naive baseline, with fuel for the levels.
  naive_loop_lem :
      (h fuel : ℕ) (level : List Bytes) (internal : ℕ)
      → h ≤ fuel
      → length level ≡ 2 ^ h
      → naive_loop fuel iters level internal ≡ done (tree_root h level, internal + (2 ^ h - 1))
  unfolding naive_loop
  naive_loop_lem zero zero level internal enough size =
      let stop : ltb 1 (length level) ≡ false = ground (arith, size) in
      rw (stop, index-eq-done {X = String} level 0 [] (omega (arith, size)))
        (ap (λ n. done (get_or level 0 [], n)) (omega arith))
  naive_loop_lem zero (suc fuel) level internal enough size =
      let stop : ltb 1 (length level) ≡ false = ground (arith, size) in
      rw (stop, index-eq-done {X = String} level 0 [] (omega (arith, size)))
        (ap (λ n. done (get_or level 0 [], n)) (omega arith))
  naive_loop_lem (suc h) zero level internal enough size = absurd (omega (arith, enough))
  naive_loop_lem (suc h) (suc fuel) level internal enough size =
      let twice : length level ≡ 2 ^ h * 2 = size ∙ pow-suc 2 h in
      let half = length-next_level (2 ^ h) level twice in
      let more : ltb 1 (length level) ≡ true = ground (arith, twice, pow-pos h) in
      rw (more, half)
        (naive_loop_lem h fuel (next_level iters level) (internal + 2 ^ h) (omega (arith, enough))
            half
          ∙ ap (λ n. done (tree_root h (next_level iters level), n))
              (omega (arith, pow-suc 2 h, pow-pos h)))

  -- The naive baseline computes the root of a tree of `2 ^ h` leaves, for `h` from 1 to 63 and leaves of
  -- 32 bytes, with `2 ^ h - 1` hashes.
  pub naive_merkle_root_lem :
      (h : ℕ) (leaves : List Bytes)
      → 0 < h
      → h < 64
      → length leaves ≡ 2 ^ h
      → Each IsHash leaves
      → naive_merkle_root leaves iters ≡ done (tree_root h leaves, 2 ^ h - 1)
  unfolding naive_merkle_root
  naive_merkle_root_lem h leaves some_level few size hashes =
      let power : is_power_below 64 (length leaves) ≡ true =
        is_power_below-pow 64 h (length leaves) few size in
      let pair : ltb (length leaves) 2 ≡ false = ground (arith, size, some_level, suc-le-pow h) in
      rw (power, pair, all_32-Each leaves hashes)
        (naive_loop_lem h (length leaves) leaves 0 (omega (arith, size, suc-le-pow h)) size
          ∙ ap (λ n. done (tree_root h leaves, n)) (omega arith))

  -- The proof of a leaf, with the siblings on its way up, is verified against the root of its tree.
  pub verify-tree_root :
      (h i : ℕ) (leaves : List Bytes)
      → h ≤ 32
      → length leaves ≡ 2 ^ h
      → i < 2 ^ h
      → Each IsHash leaves
      → (encode_merkle_proof_v1 i h (get_or leaves i []) (siblings_of h i leaves) >>= λ proof.
          verify_merkle_proof (tree_root h leaves) proof iters)
        ≡ done true
  verify-tree_root h i leaves few size lt hashes =
      let verified =
        verify-encode iters i (tree_root h leaves) (get_or leaves i []) (siblings_of h i leaves)
          (tree_root-IsHash h leaves size hashes)
          (IsHash-get_or leaves i hashes (omega (arith, size, lt)))
          (siblings_of-IsHash h i leaves size lt hashes)
          (omega (arith, few, length-siblings_of h i leaves))
          (omega (arith, lt, pow-le-pow_right {n = 2} (omega arith) few)) in
      rw
        (
          length-siblings_of h i leaves,
          climb-tree_root h i leaves size lt,
          same_bytes_self (tree_root h leaves),
        )
        at verified

  -- In a tree of `2 ^ h` leaves, for `h` from 1 to 32 and leaves of 32 bytes, the proof that is encoded
  -- for any leaf, with the siblings on its way up, is verified against the root that the naive
  -- baseline computes.
  pub verify-naive_merkle_root :
      (h i : ℕ) (leaves : List Bytes)
      → 0 < h
      → h ≤ 32
      → length leaves ≡ 2 ^ h
      → i < 2 ^ h
      → Each IsHash leaves
      → (root : Bytes) × (naive_merkle_root leaves iters ≡ done (root, 2 ^ h - 1))
        × ((encode_merkle_proof_v1 i h (get_or leaves i []) (siblings_of h i leaves) >>= λ proof.
              verify_merkle_proof root proof iters)
            ≡ done true)
  verify-naive_merkle_root h i leaves some_level few size lt hashes = (
    tree_root h leaves,
    naive_merkle_root_lem h leaves some_level (omega (arith, few)) size hashes,
    verify-tree_root h i leaves few size lt hashes,
  )
