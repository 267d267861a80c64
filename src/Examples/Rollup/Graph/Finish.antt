-- ===== src/Examples/Rollup/Graph/Finish.antt =====
-- What follows the loops of `build_rollup_commitment_dag`: the alias of the batch root, the proof task
-- and `build`.
use native.Mathlib.Nat.{pow-le-pow_right, div-one, mod-lt, div-add-mod'}
use rust_dag_executor.Prelude.{
  ℕ, zero, suc, ◌+◌, ◌-◌, ◌*◌, ◌/◌, ◌%◌, ◌^◌, ◌≤◌, ◌<◌, ◌≡◌, refl, sym, ap, ◌∙◌, subst, ◌⊎◌, inl,
  inr, List, [], ◌∷◌, map, arith, length, get_or, true,
}
use rust_dag_executor.Prelude.Each.{Each, nil, cons}
use rust_dag_executor.Prelude.Slices.{get_or-slice}
use rust_dag_executor.Prelude.Powers.{pow-pos}
use rust_dag_executor.Prelude.Result.{ok}
use rust_dag_executor.Prelude.Outcome.{done, ◌>>=◌, Ensures, Ensures-total}
use rust_dag_executor.Builder.{add_task, build}
use rust_dag_executor.Builder.Named.{attempt, add_task-Stages, Stages-build}
use rust_dag_executor.Examples.Common.{Bytes}
use rust_dag_executor.Examples.Graphs.{DagT, Builder, text_eq, as_result, closure}
use rust_dag_executor.Examples.Rollup.Proofs.{IsHash, encode_merkle_proof_v1-total}
use rust_dag_executor.Examples.Rollup.{encode_merkle_proof_v1, verify_merkle_proof}
use rust_dag_executor.Examples.Rollup.Trees.{
  tree_root, siblings_of, siblings_of-IsHash, length-siblings_of, IsHash-get_or, verify-tree_root,
}
use rust_dag_executor.Examples.Rollup.Batches.{rise, tree_root-top}
use rust_dag_executor.Examples.Rollup.Graph.{
  RollupSpec, batch_node_key, batch_root_key, chunk_root_key, chunk_proof_key, leaf_key, clone_body,
  proof_body, finish_batch,
}
use rust_dag_executor.Examples.Rollup.Graph.Names.{
  Name, leaf, chunk_root, batch_node, batch_root, chunk_proof, key, key-injective,
}
use rust_dag_executor.Examples.Rollup.Graph.Chunks.{
  chunk, length-chunk, chunk-IsHash, chunk_of-lt, chunk_fits, leaves,
}
use rust_dag_executor.Examples.Rollup.Graph.Proof.{
  chunk_place, sibling_names, sibling_keys_lem, sibling_names_value, sibling_names-Each,
  proof_body_lem,
}
use rust_dag_executor.Examples.Rollup.Graph.Staged.{bytes_of, place_value, Good, clone_body-ok}
use rust_dag_executor.Examples.Rollup.Graph.Top.{Tree, worth, Of, tops}

module _ (spec : RollupSpec) (txs : List Bytes) (sized : spec.chunk_size ≡ 2 ^ spec.chunk_height)
    (size : length txs ≡ 2 ^ (spec.chunk_height + spec.batch_height)) (few : spec.chunk_height < 64)
    (few_b : spec.batch_height < 64)
    (target_in : spec.target_tx < 2 ^ (spec.chunk_height + spec.batch_height))
    (some_b : 0 < spec.batch_height) (low_a : spec.chunk_height ≤ 32) where
  abbrev b : ℕ
  b = spec.batch_height

  abbrev a : ℕ
  a = spec.chunk_height

  abbrev iters : ℕ
  iters = spec.hash_iters

  abbrev worthy : Name → Bytes
  worthy = worth spec b txs sized size few few_b

  abbrev TxOnly : Name → Type 0
  TxOnly = Of spec b txs sized size few few_b

  abbrev Top : Name → Type 0
  Top = Tree spec b txs sized size few few_b

  abbrev Staged : (Name → Type 0) → Builder → Type 0
  Staged = Good spec b txs sized size few

  abbrev pub target_chunk : ℕ
  target_chunk = spec.target_tx / spec.chunk_size

  abbrev pub pos : ℕ
  pos = spec.target_tx % spec.chunk_size

  abbrev pub Rooted : Name → Type 0
  Rooted n = Top n ⊎ (n ≡ batch_root)

  abbrev pub Proved : Name → Type 0
  Proved n = Rooted n ⊎ (n ≡ chunk_proof target_chunk pos)

  no_root : Top batch_root → ⊥
  no_root (inl base) = base
  no_root (inr (l, i, le, inside, e)) = cc

  no_proof : Rooted (chunk_proof target_chunk pos) → ⊥
  no_proof (inl (inl base)) = base
  no_proof (inl (inr (l, i, le, inside, e))) = cc
  no_proof (inr e) = cc

  batch_root-Good :
      (bu : Builder)
      → Staged Top bu
      → Ensures
          (Staged Rooted)
          (λ _. ⊥)
          (attempt
            (add_task text_eq bu batch_root_key (batch_node_key b 0 ∷ []) (closure clone_body)))
  batch_root-Good bu good =
      let last : suc (b - 1) ≡ b = omega (arith, some_b) in
      subst
        (λ level.
          Ensures (Staged Rooted) (λ _. ⊥)
            (attempt (
              add_task text_eq bu batch_root_key (batch_node_key level 0 ∷ [])
                (closure clone_body))))
        last
        (add_task-Stages text_eq key key-injective worthy TxOnly batch_root no_root (λ n d. inl d)
          (inr refl) (λ n d. d) bu good (batch_node (b - 1) 0 ∷ []) (closure clone_body)
          (cons (inr (b - 1, 0, omega (arith, last), pow-pos (b - suc (b - 1)), refl)) nil)
          (clone_body-ok (worthy (batch_node (b - 1) 0))
            ∙ ap ok (
                ap (λ l. get_or (rise iters l (tops spec b txs sized size few few_b)) 0 []) last
                ∙ sym (tree_root-top iters b (tops spec b txs sized size few few_b)))))

  pub target_chunk-lt : target_chunk < 2 ^ b
  target_chunk-lt =
      subst (λ n. spec.target_tx / n < 2 ^ b) (sym sized)
        (chunk_of-lt iters a b txs size spec.target_tx target_in)

  pos-lt : pos < 2 ^ a
  pos-lt = subst (λ n. spec.target_tx % n < 2 ^ a) (sym sized) (mod-lt spec.target_tx (pow-pos a))

  target_leaf : worthy (leaf spec.target_tx) ≡ get_or (chunk iters a b txs size target_chunk) pos []
  target_leaf = sym (
      get_or-slice (2 ^ a) (target_chunk * 2 ^ a) pos (leaves iters a b txs size) [] pos-lt
      ∙ ap (λ n. get_or (leaves iters a b txs size) n []) whole)
    where
      whole : target_chunk * 2 ^ a + pos ≡ spec.target_tx
      whole =
          ap (λ n. target_chunk * n + pos) (sym sized) ∙ div-add-mod' spec.target_tx spec.chunk_size

  staged_places : (l i : ℕ) → l < a → i < 2 ^ (a - l) → Rooted (chunk_place a target_chunk l i)
  staged_places zero i low inside =
      let whole : a - 0 ≡ a = omega arith in
      inl (
        inl (
          omega (
            arith,
            size,
            chunk_fits iters a b txs size target_chunk target_chunk-lt,
            subst (λ m. i < 2 ^ m) (whole) inside,
          )))
  staged_places (suc l) i low inside = inl (inl (target_chunk-lt, omega (arith, low), inside))

  abbrev leaves_of : List Bytes
  leaves_of = chunk iters a b txs size target_chunk

  abbrev hash : Bytes
  hash = get_or leaves_of pos []

  count : length leaves_of ≡ 2 ^ a
  count = length-chunk iters a b txs size target_chunk target_chunk-lt

  hashes : Each IsHash leaves_of
  hashes = chunk-IsHash iters a b txs size target_chunk

  is_hash : IsHash hash
  is_hash = IsHash-get_or iters leaves_of pos hashes (omega (arith, count, pos-lt))

  siblings : map worthy (sibling_names a target_chunk pos 0 a) ≡ siblings_of iters a pos leaves_of
  siblings =
      sibling_names_value a iters target_chunk pos leaves_of worthy
        (λ l i low inside.
          place_value spec b txs sized size few target_chunk target_chunk-lt l i
            (omega (arith, low)) inside)
        pos-lt a 0 (omega arith)
      ∙ ap (λ p. siblings_of iters a p leaves_of) (div-one pos)

  encoded :
      encode_merkle_proof_v1 pos a hash (siblings_of iters a pos leaves_of)
      ≡ done
          (encode_merkle_proof_v1-total iters pos a hash
            (siblings_of iters a pos leaves_of)
            is_hash
            (length-siblings_of iters a pos leaves_of)
            (omega (arith, low_a))).0
  encoded =
      (encode_merkle_proof_v1-total iters pos a hash (siblings_of iters a pos leaves_of) is_hash
        (length-siblings_of iters a pos leaves_of) (omega (arith, low_a))).1

  proof_task :
      closure
        (proof_body pos a)
        (worthy (leaf spec.target_tx) ∷ map worthy (sibling_names a target_chunk pos 0 a))
      ≡ ok (worthy (chunk_proof target_chunk pos))
  proof_task =
      ap (closure (proof_body pos a)) (λ t. target_leaf t ∷ siblings t)
      ∙ ap as_result (
          proof_body_lem pos a hash (siblings_of iters a pos leaves_of)
            (omega (arith, pos-lt, pow-le-pow_right {n = 2} (omega arith) low_a))
            (omega (arith, low_a)) is_hash
            (siblings_of-IsHash iters a pos leaves_of count pos-lt hashes))
      ∙ subst (λ o. as_result o ≡ ok (bytes_of o)) (sym encoded) refl

  -- The proof that the task returns is verified against the root of its chunk.
  pub proof_verified :
      verify_merkle_proof
        (worthy (chunk_root target_chunk))
        (worthy (chunk_proof target_chunk pos))
        iters
      ≡ done true
  proof_verified =
      ap (λ o. verify_merkle_proof (tree_root iters a leaves_of) (bytes_of o) iters) encoded
      ∙ sym (ap (◌>>= λ p. verify_merkle_proof (tree_root iters a leaves_of) p iters) encoded)
      ∙ verify-tree_root iters a pos leaves_of low_a count pos-lt hashes

  proof-Good :
      (bu : Builder)
      → Staged Rooted bu
      → Ensures
          (Staged Proved)
          (λ _. ⊥)
          (attempt (
            add_task text_eq bu
              (chunk_proof_key target_chunk pos)
              (leaf_key spec.target_tx ∷ map key (sibling_names a target_chunk pos 0 a))
              (closure (proof_body pos a))))
  proof-Good bu good =
      add_task-Stages text_eq key key-injective worthy TxOnly (chunk_proof target_chunk pos)
        no_proof (λ n d. inl d) (inr refl) (λ n d. d) bu good
        (leaf spec.target_tx ∷ sibling_names a target_chunk pos 0 a) (closure (proof_body pos a))
        (cons (inl (inl (omega (arith, size, target_in))))
          (sibling_names-Each a target_chunk pos Rooted staged_places pos-lt a 0 (omega arith)))
        proof_task

  steps :
      (bu bu' bu'' : Builder) (dag : DagT)
      → attempt (add_task text_eq bu batch_root_key (batch_node_key b 0 ∷ []) (closure clone_body))
        ≡ done bu'
      → attempt (
          add_task text_eq bu'
            (chunk_proof_key target_chunk pos)
            (leaf_key spec.target_tx ∷ map key (sibling_names a target_chunk pos 0 a))
            (closure (proof_body pos a)))
        ≡ done bu''
      → build text_eq bu'' ≡ ok dag
      → finish_batch spec bu
        ≡ done (
          dag,
          record {
            batch_root = batch_root_key;
            target_chunk_root = chunk_root_key target_chunk;
            target_chunk_proof = chunk_proof_key target_chunk pos;
          },
        )
  unfolding finish_batch
  steps bu bu' bu'' dag rooted proved compiled =
      rw
        (
          rooted,
          sibling_keys_lem a spec target_chunk pos a 0 sized (omega (arith, low_a)),
          proved,
          compiled,
        )
        refl

  -- What follows the loops succeeds.
  pub finish_batch_lem :
      (bu : Builder)
      → Staged Top bu
      → (bu' : Builder) × (dag : DagT) × Staged Proved bu'
        × (build text_eq bu' ≡ ok dag)
        × (finish_batch spec bu
            ≡ done (
              dag,
              record {
                batch_root = batch_root_key;
                target_chunk_root = chunk_root_key target_chunk;
                target_chunk_proof = chunk_proof_key target_chunk pos;
              },
            ))
  unfolding finish_batch
  finish_batch_lem bu good =
      let (bu', rooted, good') =
        Ensures-total (Staged Rooted) (λ _. ⊥) _ (batch_root-Good bu good) (λ x e. e) in
      let (bu'', proved, good'') =
        Ensures-total (Staged Proved) (λ _. ⊥) _ (proof-Good bu' good') (λ x e. e) in
      let (dag, compiled) =
        Stages-build text_eq key key-injective worthy TxOnly bu'' good'' batch_root
          (inl (inr refl)) in
      (bu'', dag, good'', compiled, steps bu bu' bu'' dag rooted proved compiled)
