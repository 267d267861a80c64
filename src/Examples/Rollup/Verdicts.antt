-- ===== src/Examples/Rollup/Verdicts.antt =====
-- What `verify_merkle_proof` says of any bytes.
use rust_dag_executor.Prelude.{
  ℕ, zero, suc, ◌+◌, ◌*◌, ◌/◌, ◌^◌, ◌≤◌, ◌<◌, ◌≡◌, ◌≢◌, refl, sym, ap, subst, Bool, true, false,
  arith, length, get_or, if◌then◌else◌, ◌==◌, ltb, not, range_from, Bool-cases, inl, inr, String,
  take, drop, ℕ_discrete,
}
use native.Mathlib.Nat.{mod-lt}
use rust_dag_executor.Prelude.Outcome.{done, Ensures, Ensures-bind, index-eq-done, each, range_inv}
use rust_dag_executor.Examples.Common.{Bytes, from_le_bytes, hash_node_with_iters}
use rust_dag_executor.Examples.Rollup.{
  slice, same_bytes, index_bit, Climb, verify_round, verify_merkle_proof,
}

ltb-true : (a b : ℕ) → ltb a b ≡ true → a < b
ltb-true a b e = ground arith

ltb-false : (a b : ℕ) → ltb a b ≡ false → b ≤ a
ltb-false a b e = ground arith

in_range : (k n : ℕ) → k < n → not (ltb k n) ≡ false
in_range k n lt = ground arith

differ : (a b : ℕ) → not (a == b) ≡ true → a ≢ b
differ a b e same = ground (arith, same)

agree : (a b : ℕ) → not (a == b) ≡ false → a ≡ b
agree a b e = ground arith

is_one : (b : ℕ) → b < 2 → (b == 0) ≡ false → (b == 1) ≡ true
is_one b lt e = ground arith

module _ (iters : ℕ) (root proof : Bytes) where
  -- The parts of a proof, by their places.
  abbrev pub height : ℕ
  height = get_or proof 1 0

  abbrev pub idx : ℕ
  idx = from_le_bytes (take 4 (drop 2 proof))

  abbrev pub leaf_hash : Bytes
  leaf_hash = take 32 (drop 6 proof)

  -- Where level `k` starts.
  abbrev pub place : ℕ → ℕ
  place k = 38 + 33 * k

  abbrev pub sibling_hash : ℕ → Bytes
  sibling_hash k = take 32 (drop (place k + 1) proof)

  -- The way up from the leaf through `k` levels.
  abbrev pub ascend : ℕ → Bytes
  ascend zero = leaf_hash
  ascend (suc k) =
      if index_bit idx k == 0
      then hash_node_with_iters iters (ascend k) (sibling_hash k)
      else hash_node_with_iters iters (sibling_hash k) (ascend k)

  -- The errors, each with what is wrong.
  pub data IsRefusal (x : String) : Type 0 where
    bad_root : length root ≢ 32 → x ≡ "root must be 32 bytes" → IsRefusal x
    too_short : length proof < 38 → x ≡ "proof too short" → IsRefusal x
    bad_version : get_or proof 0 0 ≢ 1 → x ≡ "unsupported proof version" → IsRefusal x
    truncated : length proof < place height → x ≡ "proof truncated" → IsRefusal x
    bad_side :
        (k : ℕ)
        → k < height
        → get_or proof (place k) 0 ≢ index_bit idx k
        → x ≡ "side bit does not match index bit"
        → IsRefusal x

  slice_lem :
      (from n : ℕ)
      → from + n ≤ length proof
      → slice {X = String} proof from n ≡ done (take n (drop from proof))
  unfolding slice
  slice_lem from n fits =
      let short : ltb (length proof) (from + n) ≡ false = ground arith in rw short refl

  -- The state of the loop before level `k`.
  pub record IsAt (k : ℕ) (s : Climb) : Type 0 where
    pub offset : s.offset ≡ place k
    pub fits : place k ≤ length proof
    pub cur : s.cur ≡ ascend k
    pub sides : (j : ℕ) → j < k → get_or proof (place j) 0 ≡ index_bit idx j

  -- A level whose side is right.
  further :
      (k : ℕ) (s : Climb) (cur : Bytes)
      → IsAt k s
      → place k + 1 + 32 ≤ length proof
      → get_or proof (place k) 0 ≡ index_bit idx k
      → cur ≡ ascend (suc k)
      → IsAt (suc k) (record { offset = place k + 1 + 32; cur = cur })
  further k s cur h room side e = record {
    offset = omega arith;
    fits = omega (arith, room);
    cur = e;
    sides = λ j lt. elim (ℕ_discrete j k) [
      | yes same ↦ subst (λ j. get_or proof (place j) 0 ≡ index_bit idx j) (sym same) side
      | no earlier ↦ h.sides j (omega (arith, lt, earlier))
    ];
  }

  low : (k : ℕ) → index_bit idx k < 2
  low k = mod-lt (idx / 2 ^ k) (omega arith)

  verify_round_lem :
      (k : ℕ) (s : Climb)
      → k < 64
      → k < height
      → IsAt k s
      → Ensures (IsAt (suc k)) IsRefusal (verify_round proof idx iters s k)
  unfolding verify_round
  verify_round_lem k s small lt h = elim (Bool-cases (ltb (length proof) (s.offset + 1 + 32))) [
    | inl over ↦ rw over (
        truncated (omega (arith, ltb-true (length proof) (s.offset + 1 + 32) over, h.offset, lt))
          refl)
    | inr fits ↦
        let room : place k + 1 + 32 ≤ length proof =
          omega (arith, ltb-false (length proof) (s.offset + 1 + 32) fits, h.offset) in
        let side = get_or proof (place k) 0 in
        rw
          (
            fits,
            h.offset,
            index-eq-done {X = String} proof (place k) 0 (omega (arith, room)),
            slice_lem (place k + 1) 32 room,
            in_range k 64 small,
          )
          (elim (Bool-cases (not (side == index_bit idx k))) [
            | inl wrong ↦ rw wrong (bad_side k lt (differ side (index_bit idx k) wrong) refl)
            | inr right ↦
                let e : side ≡ index_bit idx k = agree side (index_bit idx k) right in
                rw (right, e)
                  (elim (Bool-cases (index_bit idx k == 0)) [
                    | inl left ↦ rw left (further k s _ h room e (rw (left, h.cur) refl))
                    | inr not_left ↦
                        rw (not_left, is_one (index_bit idx k) (low k) not_left)
                          (further k s _ h room e (rw (not_left, h.cur) refl))
                  ])
          ])
  ]

  -- An answer: the proof has the parts it should have, and says whether the way up ends at the root.
  pub record IsVerdict (b : Bool) : Type 0 where
    pub root_size : length root ≡ 32
    pub version : get_or proof 0 0 ≡ 1
    pub fits : place height ≤ length proof
    pub sides : (j : ℕ) → j < height → get_or proof (place j) 0 ≡ index_bit idx j
    pub answer : b ≡ same_bytes (ascend height) root

  -- Any bytes that ask for at most 64 levels are refused, with an error that is true, or get an answer,
  -- and there is no panic. Bytes behind the last level play no part.
  pub verify_merkle_proof_lem :
      height ≤ 64 → Ensures IsVerdict IsRefusal (verify_merkle_proof root proof iters)
  unfolding verify_merkle_proof
  verify_merkle_proof_lem few = elim (Bool-cases (not (length root == 32))) [
    | inl wrong ↦ rw wrong (bad_root (differ (length root) 32 wrong) refl)
    | inr root_right ↦ elim (Bool-cases (ltb (length proof) 38)) [
      | inl short ↦ rw (root_right, short) (too_short (ltb-true (length proof) 38 short) refl)
      | inr long ↦
          let enough = ltb-false (length proof) 38 long in
          rw (root_right, long, index-eq-done {X = String} proof 0 0 (omega (arith, enough)))
            (elim (Bool-cases (not (get_or proof 0 0 == 1))) [
              | inl other ↦ rw other (bad_version (differ (get_or proof 0 0) 1 other) refl)
              | inr known ↦
                  rw
                    (
                      known,
                      index-eq-done {X = String} proof 1 0 (omega (arith, enough)),
                      slice_lem 2 4 (omega (arith, enough)),
                      slice_lem 6 32 (omega (arith, enough)),
                    )
                    (Ensures-bind IsRefusal (IsAt height) IsVerdict
                      (each (verify_round proof idx iters) (record { offset = 38; cur = leaf_hash })
                        (range_from 0 height))
                      _
                      (range_inv IsRefusal height IsAt (verify_round proof idx iters)
                        (λ k s lt h. verify_round_lem k s (omega (arith, lt, few)) lt h) height 0 _
                        (omega arith)
                        (record {
                          offset = refl;
                          fits = omega (arith, enough);
                          cur = refl;
                          sides = λ j lt. absurd (omega (arith, lt));
                        }))
                      λ s h. record {
                        root_size = agree (length root) 32 root_right;
                        version = agree (get_or proof 0 0) 1 known;
                        fits = h.fits;
                        sides = h.sides;
                        answer = ap (λ cur. same_bytes cur root) h.cur;
                      })
            ])
    ]
  ]
