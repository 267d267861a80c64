-- ===== src/Examples/Rollup/Graph/Proof.antt =====
-- The dependencies of the proof task: the siblings on the way up from a leaf of its chunk.
use native.Mathlib.Nat.{pow-suc, div-lt_iff_lt-mul}
use rust_dag_executor.Prelude.{
  ℕ, zero, suc, ◌+◌, ◌-◌, ◌*◌, ◌/◌, ◌%◌, ◌^◌, ◌≤◌, ◌<◌, ◌≡◌, refl, sym, ap, ◌∙◌, List, [], ◌∷◌, map,
  arith, length, get_or, ◌==◌, ltb, true,
}
use rust_dag_executor.Prelude.Each.{Each, nil, cons}
use rust_dag_executor.Prelude.Siblings.{sibling, bit_xor-one}
use rust_dag_executor.Prelude.Powers.{pow-pos, div-twice, pow_add}
use rust_dag_executor.Prelude.Outcome.{done, each, index}
use rust_dag_executor.Prelude.Result.{ok}
use rust_dag_executor.Examples.Common.{Bytes, ensure_32}
use rust_dag_executor.Examples.Graphs.{of_result}
use rust_dag_executor.Examples.Rollup.{encode_merkle_proof_v1}
use rust_dag_executor.Examples.Rollup.Proofs.{IsHash}
use rust_dag_executor.Examples.Rollup.Trees.{siblings_of}
use rust_dag_executor.Examples.Rollup.Batches.{rise, rise-next_level}
use rust_dag_executor.Examples.Rollup.Graph.{
  RollupSpec, sibling_at, chunk_sibling_key, sibling_keys, proof_body,
}
use rust_dag_executor.Examples.Rollup.Graph.Names.{Name, leaf, chunk_node, key}

module _ (a : ℕ) where
  -- The node at place `i` of level `l` of chunk `c`.
  abbrev pub chunk_place : ℕ → ℕ → ℕ → Name
  chunk_place c zero i = leaf (c * 2 ^ a + i)
  chunk_place c (suc l) i = chunk_node c l i

  pub sibling_names : ℕ → ℕ → ℕ → ℕ → List Name
  sibling_names c pos lvl zero = []
  sibling_names c pos lvl (suc left) =
      chunk_place c lvl (sibling (pos / 2 ^ lvl)) ∷ sibling_names c pos (suc lvl) left

  sibling_at-key : (c l i : ℕ) → sibling_at c i l (2 ^ a) ≡ key (chunk_place c l i)
  sibling_at-key c zero i = refl
  sibling_at-key c (suc l) i = refl

  pub sibling_keys_lem :
      (spec : RollupSpec) (c pos left lvl : ℕ)
      → spec.chunk_size ≡ 2 ^ a
      → lvl + left ≤ 64
      → sibling_keys spec c pos lvl left ≡ done (map key (sibling_names c pos lvl left))
  unfolding sibling_keys sibling_names chunk_sibling_key
  sibling_keys_lem spec c pos zero lvl e few = refl
  sibling_keys_lem spec c pos (suc left) lvl e few =
      let in_range : ltb lvl 64 ≡ true = ground (arith, few) in
      rw
        (
          in_range,
          bit_xor-one (pos / 2 ^ lvl),
          e,
          sibling_at-key c lvl (sibling (pos / 2 ^ lvl)),
          sibling_keys_lem spec c pos left (suc lvl) e (omega (arith, few)),
        )
        refl

  half : (pos lvl : ℕ) → pos / 2 ^ lvl / 2 ≡ pos / 2 ^ suc lvl
  half pos lvl = sym (div-twice pos (2 ^ lvl) (pow-pos lvl)) ∙ ap (pos /◌) (sym (pow-suc 2 lvl))

  -- A sibling is in the chunk.
  pub sibling-lt : (pos lvl : ℕ) → pos < 2 ^ a → lvl < a → sibling (pos / 2 ^ lvl) < 2 ^ (a - lvl)
  sibling-lt pos lvl small lt =
      let next : a - lvl ≡ suc (a - suc lvl) = omega (arith, lt) in
      let twice : 2 ^ (a - lvl) ≡ 2 ^ (a - suc lvl) * 2 =
        ap (2 ^◌) next ∙ pow-suc 2 (a - suc lvl) in
      let parts : a ≡ (a - lvl) + lvl = omega (arith, lt) in
      let whole : 2 ^ a ≡ 2 ^ (a - lvl) * 2 ^ lvl = ap (2 ^◌) parts ∙ pow_add (a - lvl) lvl in
      let place : pos / 2 ^ lvl < 2 ^ (a - lvl) =
        (div-lt_iff_lt-mul (pow-pos lvl)).1 (omega (arith, small, whole)) in
      ground (arith, twice, place)

  pub sibling_names_value :
      (iters c pos : ℕ) (hashes : List Bytes) (value : Name → Bytes)
      → ((l i : ℕ)
          → l < a
          → i < 2 ^ (a - l)
          → value (chunk_place c l i) ≡ get_or (rise iters l hashes) i [])
      → pos < 2 ^ a
      → (left lvl : ℕ) → lvl + left ≡ a
      → map value (sibling_names c pos lvl left)
        ≡ siblings_of iters left (pos / 2 ^ lvl) (rise iters lvl hashes)
  unfolding sibling_names
  sibling_names_value iters c pos hashes value place_value small zero lvl e = refl
  sibling_names_value iters c pos hashes value place_value small (suc left) lvl e =
      let lt : lvl < a = omega (arith, e) in
      cc (
        place_value lvl (sibling (pos / 2 ^ lvl)) lt (sibling-lt pos lvl small lt),
        sibling_names_value iters c pos hashes value place_value small left (suc lvl)
            (omega (arith, e)),
        half pos lvl,
        rise-next_level iters lvl hashes,
      )

  pub sibling_names-Each :
      (c pos : ℕ) (D : Name → Type 0)
      → ((l i : ℕ) → l < a → i < 2 ^ (a - l) → D (chunk_place c l i))
      → pos < 2 ^ a
      → (left lvl : ℕ) → lvl + left ≡ a
      → Each D (sibling_names c pos lvl left)
  unfolding sibling_names
  sibling_names-Each c pos D staged small zero lvl e = nil
  sibling_names-Each c pos D staged small (suc left) lvl e =
      cons
        (staged lvl (sibling (pos / 2 ^ lvl)) (omega (arith, e))
          (sibling-lt pos lvl small (omega (arith, e))))
        (sibling_names-Each c pos D staged small left (suc lvl) (omega (arith, e)))

ensure_32-ok : (x : Bytes) → IsHash x → ensure_32 x ≡ ok tt
unfolding ensure_32
ensure_32-ok x hash = let is_32 : (length x == 32) ≡ true = ground (arith, hash) in rw is_32 refl

all_ensured :
    (xs : List Bytes)
    → Each IsHash xs
    → each (λ (_ : Unit {0}) sib. of_result (ensure_32 sib)) tt xs ≡ done tt
unfolding each
all_ensured [] nil = refl
all_ensured (x ∷ xs) (cons hash hashes) = rw (ensure_32-ok x hash) (all_ensured xs hashes)

-- The closure of the proof task encodes the proof of its arguments.
pub proof_body_lem :
    (pos h : ℕ) (hash : Bytes) (siblings : List Bytes)
    → pos < 2 ^ 32
    → h < 256
    → IsHash hash
    → Each IsHash siblings
    → proof_body pos h (hash ∷ siblings) ≡ encode_merkle_proof_v1 pos h hash siblings
unfolding proof_body index
proof_body_lem pos h hash siblings small low is_hash are_hashes =
    let low_pos : pos % 2 ^ 32 ≡ pos = omega (arith, small) in
    let low_h : h % 256 ≡ h = omega (arith, low) in
    rw (ensure_32-ok hash is_hash, all_ensured siblings are_hashes, low_pos, low_h) refl
