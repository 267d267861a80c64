-- ===== src/Examples/Rollup/Proofs.antt =====
-- Inclusion proofs: what is encoded is verified.
use native.Mathlib.Nat.{pow-suc, mod-lt, div-one}
use mathlib.Core.List.{append_assoc}
use rust_dag_executor.Prelude.{
  ℕ, suc, ◌+◌, ◌/◌, ◌%◌, ◌^◌, ◌≤◌, ◌<◌, ◌≡◌, refl, ap, ◌∙◌, subst, List, [], ◌∷◌, ◌++◌, true, false,
  arith, length, length-append, if◌then◌else◌, ◌==◌, ltb, not, range_from, Bool-cases, inl, inr,
  String,
}
use rust_dag_executor.Prelude.Each.{Each, cons}
use rust_dag_executor.Prelude.Outcome.{done, ◌>>=◌, index-at, each}
use rust_dag_executor.Prelude.Slices.{drop-append, take-append, get_elem?-middle}
use rust_dag_executor.Prelude.Powers.{pow-pos, div-twice}
use rust_dag_executor.Examples.Common.{Bytes, to_le_bytes, hash_node_with_iters}
use rust_dag_executor.Examples.Common.Sizes.{length-to_le_bytes, from_le_bytes-to_le_bytes}
use rust_dag_executor.Examples.Rollup.{
  slice, same_bytes, index_bit, encode_siblings, encode_merkle_proof_v1, verify_round,
  verify_merkle_proof,
}

abbrev pub IsHash : Bytes → Type 0
IsHash h = length h ≡ 32

-- The way up a tree from node `i` of a level, by the siblings.
abbrev pub climb : ℕ → ℕ → Bytes → List Bytes → Bytes
climb iters i cur [] = cur
climb iters i cur (sib ∷ siblings) =
    climb iters (i / 2)
      (if i % 2 == 0
        then hash_node_with_iters iters cur sib
        else hash_node_with_iters iters sib cur)
      siblings

module _ {A : Type 0} where
  -- The middle of a list, from its place and its length.
  slice-middle :
      {X : Type 0} (from n : ℕ) (before middle behind : List A)
      → length before ≡ from
      → length middle ≡ n
      → slice {X = X} (before ++ (middle ++ behind)) from n ≡ done middle
  unfolding slice
  slice-middle from n before middle behind e e' =
      let long : ltb (length (before ++ (middle ++ behind))) (from + n) ≡ false =
        ground
          (arith, length-append before (middle ++ behind), length-append middle behind, e, e') in
      rw (long, drop-append from before (middle ++ behind) e, take-append n middle behind e') refl

-- The bytes of the levels from `lvl` on.
abbrev levels_of : ℕ → ℕ → List Bytes → Bytes
levels_of i lvl [] = []
levels_of i lvl (sib ∷ siblings) = index_bit i lvl ∷ (sib ++ levels_of i (suc lvl) siblings)

encode_siblings_lem :
    (i lvl : ℕ) (siblings : List Bytes)
    → lvl + length siblings ≤ 64
    → encode_siblings i lvl siblings ≡ done (levels_of i lvl siblings)
unfolding encode_siblings
encode_siblings_lem i lvl [] few = refl
encode_siblings_lem i lvl (sib ∷ siblings) few =
    let in_range : not (ltb lvl 64) ≡ false = ground arith in
    rw (in_range, encode_siblings_lem i (suc lvl) siblings (omega (arith, few))) refl

module _ (iters i : ℕ) where
  -- One level of a proof that was encoded.
  verify_round_lem :
      (before sib behind cur : Bytes) (lvl : ℕ)
      → IsHash sib
      → lvl < 64
      → verify_round
          (before ++ (index_bit i lvl ∷ (sib ++ behind)))
          i
          iters
          (record { offset = length before; cur = cur })
          lvl
        ≡ done (record {
          offset = length before + 1 + 32;
          cur =
              if index_bit i lvl == 0
              then hash_node_with_iters iters cur sib
              else hash_node_with_iters iters sib cur;
        })
  unfolding verify_round
  verify_round_lem before sib behind cur lvl hash lt =
      let whole : ltb (length (before ++ (side ∷ (sib ++ behind)))) (length before + 1 + 32)
          ≡ false =
        ground
          (arith, length-append before (side ∷ (sib ++ behind)), length-append sib behind, hash) in
      let in_range : not (ltb lvl 64) ≡ false = ground arith in
      let agrees : not (side == side) ≡ false = ground arith in
      rw
        (
          whole,
          index-at {X = String} (before ++ (side ∷ (sib ++ behind))) (length before)
              (get_elem?-middle (length before) before side (sib ++ behind) refl),
          sibling,
          in_range,
          agrees,
        )
        (elim (Bool-cases (side == 0)) [
          | inl left ↦ rw left refl
          | inr right ↦
              let is_right : (side == 1) ≡ true = ground (arith, low) in rw (right, is_right) refl
        ])
    where
      side : ℕ
      side = index_bit i lvl

      low : i / 2 ^ lvl % 2 < 2
      low = mod-lt (i / 2 ^ lvl) (omega arith)

      sibling :
          slice {X = String} (before ++ (side ∷ (sib ++ behind))) (length before + 1) 32 ≡ done sib
      sibling =
          subst (λ p. slice {X = String} p (length before + 1) 32 ≡ done sib)
            (append_assoc before (side ∷ []) (sib ++ behind))
            (slice-middle (length before + 1) 32 (before ++ side ∷ []) sib behind
              (omega (arith, length-append before (side ∷ []))) hash)

  -- The levels from `lvl` on.
  verify_levels :
      (siblings : List Bytes) (before cur : Bytes) (lvl : ℕ)
      → Each IsHash siblings
      → lvl + length siblings ≤ 64
      → (end : ℕ) × (each
            (verify_round (before ++ levels_of i lvl siblings) i iters)
            (record { offset = length before; cur = cur })
            (range_from lvl (length siblings))
          ≡ done (record { offset = end; cur = climb iters (i / 2 ^ lvl) cur siblings }))
  unfolding each
  verify_levels [] before cur lvl hashes few = (length before, refl)
  verify_levels (sib ∷ siblings) before cur lvl (cons hash hashes) few =
      let rest = levels_of i (suc lvl) siblings in
      let next = before ++ (index_bit i lvl ∷ sib) in
      let up : Bytes =
        if index_bit i lvl == 0
        then hash_node_with_iters iters cur sib
        else hash_node_with_iters iters sib cur in
      let (end, e) = verify_levels siblings next up (suc lvl) hashes (omega (arith, few)) in
      let same : next ++ rest ≡ before ++ (index_bit i lvl ∷ (sib ++ rest)) =
        append_assoc before (index_bit i lvl ∷ sib) rest in
      let further : length next ≡ length before + 1 + 32 =
        omega (arith, length-append before (index_bit i lvl ∷ sib), hash) in
      (
        end,
        ap
              (λ r. r >>= λ s.
                each (verify_round (before ++ (index_bit i lvl ∷ (sib ++ rest))) i iters) s
                  (range_from (suc lvl) (length siblings)))
              (verify_round_lem before sib rest cur lvl hash (omega (arith, few)))
            ∙ (rw (same, further, half) at e),
      )
    where
      half : i / 2 ^ suc lvl ≡ i / 2 ^ lvl / 2
      half = ap (i /◌) (pow-suc 2 lvl) ∙ div-twice i (2 ^ lvl) (pow-pos lvl)

  -- The bytes of a proof.
  abbrev encoded : Bytes → List Bytes → Bytes
  encoded leaf siblings =
      1 ∷ length siblings ∷ (to_le_bytes 4 i ++ (leaf ++ levels_of i 0 siblings))

  encode_lem :
      (leaf : Bytes) (siblings : List Bytes)
      → IsHash leaf
      → length siblings ≤ 64
      → encode_merkle_proof_v1 i (length siblings) leaf siblings ≡ done (encoded leaf siblings)
  unfolding encode_merkle_proof_v1
  encode_lem leaf siblings leaf_hash few =
      let leaf_size : not (length leaf == 32) ≡ false = ground (arith, leaf_hash) in
      let counted : not (length siblings == length siblings) ≡ false = ground arith in
      rw (leaf_size, counted, encode_siblings_lem i 0 siblings (omega (arith, few))) refl

  pub encode_merkle_proof_v1-total :
      (h : ℕ) (leaf : Bytes) (siblings : List Bytes)
      → IsHash leaf
      → length siblings ≡ h
      → h ≤ 64
      → (proof : Bytes) × (encode_merkle_proof_v1 i h leaf siblings ≡ done proof)
  encode_merkle_proof_v1-total h leaf siblings leaf_hash counted few = (
    encoded leaf siblings,
    subst (λ h. encode_merkle_proof_v1 i h leaf siblings ≡ done (encoded leaf siblings)) counted
        (encode_lem leaf siblings leaf_hash (omega (arith, counted, few))),
  )

  verify-encoded :
      (root leaf : Bytes) (siblings : List Bytes)
      → IsHash root
      → IsHash leaf
      → Each IsHash siblings
      → length siblings ≤ 64
      → i < 2 ^ 32
      → verify_merkle_proof root (encoded leaf siblings) iters
        ≡ done (same_bytes (climb iters i leaf siblings) root)
  unfolding verify_merkle_proof
  verify-encoded root leaf siblings root_hash leaf_hash hashes few small =
      let root_size : not (length root == 32) ≡ false = ground (arith, root_hash) in
      let (end, e) = verify_levels siblings before leaf 0 hashes (omega (arith, few)) in
      let offset : length before ≡ 38 = omega (arith, size, length-append four leaf, leaf_hash) in
      let whole : before ++ code ≡ proof =
        ap (λ r. 1 ∷ length siblings ∷ r) (append_assoc four leaf code) in
      let looped = rw (whole, offset, div-one i) at e in
      let long : ltb (length proof) (1 + 1 + 4 + 32) ≡ false =
        ground
          (arith, length-append four (leaf ++ code), length-append leaf code, size, leaf_hash) in
      rw
        (
          root_size,
          long,
          index-at {X = String} proof 0 refl,
          index-at {X = String} proof 1 refl,
          slice-middle {X = String} 2 4 (1 ∷ length siblings ∷ []) four (leaf ++ code) refl size,
          slice-middle {X = String} 6 32 (1 ∷ length siblings ∷ four) leaf code
              (omega (arith, size)) leaf_hash,
          from_le_bytes-to_le_bytes 4 i small,
          looped,
        )
        refl
    where
      four : Bytes
      four = to_le_bytes 4 i

      size : length four ≡ 4
      size = length-to_le_bytes 4 i

      code : Bytes
      code = levels_of i 0 siblings

      before : Bytes
      before = 1 ∷ length siblings ∷ (four ++ leaf)

      proof : Bytes
      proof = 1 ∷ length siblings ∷ (four ++ (leaf ++ code))

  -- A proof that was encoded is verified: the answer is whether the way up from the leaf, by the
  -- siblings, ends at the root. The root, the leaf and the siblings are hashes of 32 bytes, there are at
  -- most 64 siblings, and the index has 32 bits.
  pub verify-encode :
      (root leaf : Bytes) (siblings : List Bytes)
      → IsHash root
      → IsHash leaf
      → Each IsHash siblings
      → length siblings ≤ 64
      → i < 2 ^ 32
      → (encode_merkle_proof_v1 i (length siblings) leaf siblings >>= λ proof.
          verify_merkle_proof root proof iters)
        ≡ done (same_bytes (climb iters i leaf siblings) root)
  verify-encode root leaf siblings root_hash leaf_hash hashes few small =
      ap (◌>>= λ proof. verify_merkle_proof root proof iters)
        (encode_lem leaf siblings leaf_hash few)
      ∙ verify-encoded root leaf siblings root_hash leaf_hash hashes few small
