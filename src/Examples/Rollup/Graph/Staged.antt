-- ===== src/Examples/Rollup/Graph/Staged.antt =====
-- The loops of `build_rollup_commitment_dag`: what is staged after each of them.
use rust_dag_executor.Prelude.{
  ℕ, zero, suc, ◌+◌, ◌-◌, ◌*◌, ◌/◌, ◌^◌, ◌≤◌, ◌<◌, ◌≡◌, ◌≢◌, refl, sym, ap, ◌∙◌, subst, ◌⊎◌, inl,
  inr, List, [], ◌∷◌, arith, length, get_or, range_from, ℕ_discrete, ltb, true, String,
}
use rust_dag_executor.Prelude.Each.{nil, cons}
use rust_dag_executor.Prelude.Slices.{get_or-map, get_or-slice}
use rust_dag_executor.Prelude.Powers.{pow-pos, pow_div}
use rust_dag_executor.Prelude.Result.{ok}
use rust_dag_executor.Prelude.Outcome.{
  Outcome, done, ◌>>=◌, >>=-assoc, Ensures, Ensures-bind, each, range_inv, index,
}
use rust_dag_executor.Builder.{new, add_source, add_task}
use rust_dag_executor.Builder.Named.{attempt, Stages, Stages-same, new-Stages, add_task-Stages}
use rust_dag_executor.Examples.Common.{Bytes, hash_leaf_with_iters}
use rust_dag_executor.Examples.Graphs.{Builder, text_eq, closure, hash_node_body}
use rust_dag_executor.Examples.Graphs.Leaves.{Planted, plant-Good}
use rust_dag_executor.Examples.Graphs.Levels.{Full, place_round, levels-Good, children_same}
use rust_dag_executor.Examples.Rollup.{encode_merkle_proof_v1}
use rust_dag_executor.Examples.Rollup.Trees.{tree_root, siblings_of}
use rust_dag_executor.Examples.Rollup.Batches.{rise, tree_root-top}
use rust_dag_executor.Examples.Rollup.Graph.{
  RollupSpec, tx_key, leaf_key, chunk_node_key, chunk_root_key, chunk_child_key, clone_body,
  add_txs, chunk_node_round, chunk_level_round, chunk_tree_round,
}
use rust_dag_executor.Examples.Rollup.Graph.Names.{
  Name, tx, leaf, chunk_node, chunk_root, batch_node, batch_root, chunk_proof, key, key-injective,
}
use rust_dag_executor.Examples.Rollup.Graph.Chunks.{
  leaves, chunk, chunk_fits, length-chunk, chunk-IsHash, roots,
}
use rust_dag_executor.Examples.Rollup.Graph.Proof.{chunk_place}

-- The bytes of a proof that was encoded.
abbrev pub bytes_of : Outcome String Bytes → Bytes
bytes_of (done bytes) = bytes
bytes_of _ = []

tx_injective : (i j : ℕ) → tx i ≡ tx j → i ≡ j
tx_injective i j e = cc

leaf_injective : (i j : ℕ) → leaf i ≡ leaf j → i ≡ j
leaf_injective i j e = cc

tx_leaf : (i j : ℕ) → tx i ≢ leaf j
tx_leaf i j e = cc

pub clone_body-ok : (x : Bytes) → closure clone_body (x ∷ []) ≡ ok x
unfolding clone_body index
clone_body-ok x = refl

module _ (spec : RollupSpec) (b : ℕ) (txs : List Bytes)
    (sized : spec.chunk_size ≡ 2 ^ spec.chunk_height)
    (size : length txs ≡ 2 ^ (spec.chunk_height + b)) (few : spec.chunk_height < 64) where
  abbrev a : ℕ
  a = spec.chunk_height

  abbrev iters : ℕ
  iters = spec.hash_iters

  abbrev part : ℕ → List Bytes
  part = chunk iters a b txs size

  -- The value of each node.
  abbrev pub value : Name → Bytes
  value (tx i) = get_or txs i []
  value (leaf i) = get_or (leaves iters a b txs size) i []
  value (chunk_node c l i) = get_or (rise iters (suc l) (part c)) i []
  value (chunk_root c) = tree_root iters a (part c)
  value (batch_node l i) = get_or (rise iters (suc l) (roots iters a b txs size)) i []
  value batch_root = tree_root iters b (roots iters a b txs size)
  value (chunk_proof c pos) =
      bytes_of
        (encode_merkle_proof_v1 pos a (get_or (part c) pos []) (siblings_of iters a pos (part c)))

  abbrev pub Source : Name → Type 0
  Source (tx i) = Unit
  Source _ = ⊥

  abbrev pub Good : (Name → Type 0) → Builder → Type 0
  Good D = Stages text_eq key key-injective value Source D

  abbrev Leaves : ℕ → Name → Type 0
  Leaves i =
      Planted iters key key-injective value Source tx leaf (λ _. tt) tx_injective leaf_injective
        tx_leaf i i

  add_txs-Good :
      (left : List Bytes) (i : ℕ) (bu : Builder)
      → i + length left ≡ length txs
      → ((j : ℕ) → get_or left j [] ≡ get_or txs (i + j) [])
      → Good (Leaves i) bu
      → Ensures (Good (Leaves (length txs))) (λ _. ⊥) (add_txs iters i left bu)
  unfolding add_txs
  add_txs-Good [] i bu e at good =
      let all : i ≡ length txs = omega (arith, e) in subst (λ n. Good (Leaves n) bu) all good
  add_txs-Good (x ∷ left) i bu e at good =
      let here : i + 0 ≡ i = omega arith in
      let tx_at : get_or txs i [] ≡ x = ap (λ n. get_or txs n []) (sym here) ∙ sym (at 0) in
      let leaf_at = get_or-map (hash_leaf_with_iters iters) txs i [] [] (omega (arith, e)) in
      subst (Ensures (Good (Leaves (length txs))) (λ _. ⊥))
        (>>=-assoc (attempt (add_source text_eq bu (tx_key i) x)) _ (add_txs iters (suc i) left))
        (Ensures-bind (λ _. ⊥) (Good (Leaves (suc i))) (Good (Leaves (length txs))) _
          (add_txs iters (suc i) left)
          (plant-Good iters key key-injective value Source tx leaf (λ _. tt) tx_injective
            leaf_injective tx_leaf i x bu tx_at (leaf_at ∙ ap (hash_leaf_with_iters iters) tx_at)
            good)
          λ bu' good'.
            add_txs-Good left (suc i) bu' (omega (arith, e))
              (λ j. at (suc j) ∙ ap (λ n. get_or txs n []) (omega arith)) good')

  -- The leaves, and the trees of the first `k` chunks.
  abbrev pub Chunked : ℕ → Name → Type 0
  Chunked k (tx i) = i < length txs
  Chunked k (leaf i) = i < length txs
  Chunked k (chunk_node c l i) = (c < k) × (suc l ≤ a) × (i < 2 ^ (a - suc l))
  Chunked k (chunk_root c) = c < k
  Chunked k _ = ⊥

  Leaves-Chunked : (n : Name) → Leaves (length txs) n → Chunked 0 n
  Leaves-Chunked n (inl (i, lt, e)) = subst (Chunked 0) (sym e) lt
  Leaves-Chunked n (inr (i, lt, e)) = subst (Chunked 0) (sym e) lt

  Chunked-Leaves : (n : Name) → Chunked 0 n → Leaves (length txs) n
  Chunked-Leaves (tx i) lt = inl (i, lt, refl)
  Chunked-Leaves (leaf i) lt = inr (i, lt, refl)
  Chunked-Leaves (chunk_node c l i) (lt, _, _) = absurd (omega (arith, lt))
  Chunked-Leaves (chunk_root c) lt = absurd (omega (arith, lt))
  Chunked-Leaves (batch_node _ _) none_yet = absurd none_yet
  Chunked-Leaves batch_root none_yet = absurd none_yet
  Chunked-Leaves (chunk_proof _ _) none_yet = absurd none_yet

  more : (k : ℕ) (n : Name) → Chunked k n → Chunked (suc k) n
  more k (tx i) lt = lt
  more k (leaf i) lt = lt
  more k (chunk_node c l i) (lt, low, inside) = (omega (arith, lt), low, inside)
  more k (chunk_root c) lt = omega (arith, lt)
  more k (batch_node _ _) none_yet = absurd none_yet
  more k batch_root none_yet = absurd none_yet
  more k (chunk_proof _ _) none_yet = absurd none_yet

  module _ (c : ℕ) (lt : c < 2 ^ b) where
    pub place_value :
        (l i : ℕ)
        → l ≤ a
        → i < 2 ^ (a - l)
        → value (chunk_place a c l i) ≡ get_or (rise iters l (part c)) i []
    place_value zero i le inside =
        let whole : a - 0 ≡ a = omega arith in
        sym (
          get_or-slice (2 ^ a) (c * 2 ^ a) i (leaves iters a b txs size) []
            (subst (λ m. i < 2 ^ m) whole inside))
    place_value (suc l) i le inside = refl

    place_injective :
        (l i l' i' : ℕ)
        → chunk_place a c (suc l) i ≡ chunk_place a c (suc l') i'
        → (l ≡ l') × (i ≡ i')
    place_injective l i l' i' e = (cc, cc)

    base_leaf : (i : ℕ) → i < 2 ^ a → Chunked c (chunk_place a c 0 i)
    base_leaf i inside = omega (arith, size, inside, chunk_fits iters a b txs size c lt)

    base_apart : (l i : ℕ) → Chunked c (chunk_place a c (suc l) i) → ⊥
    base_apart l i (below, _, _) = omega (arith, below)

    abbrev Tree : Name → Type 0
    Tree =
        Full iters a (part c) (length-chunk iters a b txs size c lt)
          (chunk-IsHash iters a b txs size c) key key-injective value Source (chunk_place a c)
          place_injective place_value (Chunked c) base_leaf base_apart

    chunk_child_key-place :
        (l i : ℕ) → chunk_child_key c l i spec.chunk_size ≡ key (chunk_place a c l i)
    chunk_child_key-place zero i = ap (λ n. leaf_key (c * n + i)) sized
    chunk_child_key-place (suc l) i = refl

    chunk_level_round-row :
        (l : ℕ) (bu : Builder)
        → suc l ≤ a
        → chunk_level_round spec c bu (suc l)
          ≡ each
              (place_round iters a
                (part c)
                (length-chunk iters a b txs size c lt)
                (chunk-IsHash iters a b txs size c)
                key
                key-injective
                value
                Source
                (chunk_place a c)
                place_injective
                place_value
                (Chunked c)
                base_leaf
                base_apart
                l)
              bu
              (range_from 0 (2 ^ (a - suc l)))
    unfolding chunk_level_round chunk_node_round
    chunk_level_round-row l bu le =
        let in_range : ltb (suc l) 64 ≡ true = ground (arith, le, few) in
        let below : suc l - 1 ≡ l = omega arith in
        rw (in_range, ap (◌/ 2 ^ suc l) sized ∙ pow_div (suc l) a le)
          (children_same (chunk_node_key c (suc l))
            (λ idx. chunk_child_key c (suc l - 1) idx spec.chunk_size)
            (λ idx. key (chunk_place a c l idx)) (closure (hash_node_body iters))
            (λ idx.
              ap (λ p. chunk_child_key c p idx spec.chunk_size) below ∙ chunk_child_key-place l idx)
            bu (range_from 0 (2 ^ (a - suc l))))

    Tree-Chunked : (n : Name) → Tree n → Chunked (suc c) n
    Tree-Chunked n (inl base) = more c n base
    Tree-Chunked n (inr (l, i, le, inside, e)) =
        subst (Chunked (suc c)) (sym e) (omega arith, le, inside)

    Chunked-Tree : (n : Name) → Chunked (suc c) n → Tree n ⊎ (n ≡ chunk_root c)
    Chunked-Tree (tx i) below = inl (inl below)
    Chunked-Tree (leaf i) below = inl (inl below)
    Chunked-Tree (chunk_node d l i) (below, le, inside) = elim (ℕ_discrete d c) [
      | yes same ↦ inl (inr (l, i, le, inside, ap (λ d. chunk_node d l i) same))
      | no other ↦ inl (inl (omega (arith, below, other), le, inside))
    ]
    Chunked-Tree (chunk_root d) below = elim (ℕ_discrete d c) [
      | yes same ↦ inr (ap chunk_root same)
      | no other ↦ inl (inl (omega (arith, below, other)))
    ]
    Chunked-Tree (batch_node _ _) none_yet = absurd none_yet
    Chunked-Tree batch_root none_yet = absurd none_yet
    Chunked-Tree (chunk_proof _ _) none_yet = absurd none_yet

    no_root : Tree (chunk_root c) → ⊥
    no_root (inl base) = omega (arith, base)
    no_root (inr (l, i, le, inside, e)) = cc

    -- One round over the chunks, where a chunk has at least two leaves.
    chunk_tree_round-Good :
        (bu : Builder)
        → 0 < a
        → Good (Chunked c) bu
        → Ensures (Good (Chunked (suc c))) (λ _. ⊥) (chunk_tree_round spec bu c)
    unfolding chunk_tree_round
    chunk_tree_round-Good bu some_level good =
        Ensures-bind (λ _. ⊥) (Good Tree) (Good (Chunked (suc c)))
          (each (chunk_level_round spec c) bu (range_from 1 a)) _
          (levels-Good iters a (part c) (length-chunk iters a b txs size c lt)
            (chunk-IsHash iters a b txs size c) key key-injective value Source (chunk_place a c)
            place_injective place_value (Chunked c) base_leaf base_apart (chunk_level_round spec c)
            chunk_level_round-row bu good)
          λ bu' good'.
            let last : suc (a - 1) ≡ a = omega (arith, some_level) in
            subst
              (λ level.
                Ensures (Good (Chunked (suc c))) (λ _. ⊥)
                  (attempt (
                    add_task text_eq bu' (chunk_root_key c) (chunk_node_key c level 0 ∷ [])
                      (closure clone_body))))
              last
              (add_task-Stages text_eq key key-injective value Source (chunk_root c) no_root
                Tree-Chunked (omega arith) Chunked-Tree bu' good' (chunk_node c (a - 1) 0 ∷ [])
                (closure clone_body)
                (cons (inr (a - 1, 0, omega (arith, last), pow-pos (a - suc (a - 1)), refl)) nil)
                (clone_body-ok (value (chunk_node c (a - 1) 0))
                  ∙ ap ok (
                      ap (λ l. get_or (rise iters l (part c)) 0 []) last
                      ∙ sym (tree_root-top iters a (part c)))))

  -- The loops over the leaves and over the chunks.
  pub chunks-Good :
      0 < a
      → Ensures
          (Good (Chunked (2 ^ b)))
          (λ _. ⊥)
          (add_txs iters 0 txs new >>= λ bu. each (chunk_tree_round spec) bu (range_from 0 (2 ^ b)))
  chunks-Good some_level =
      Ensures-bind (λ _. ⊥) (Good (Leaves (length txs))) (Good (Chunked (2 ^ b)))
        (add_txs iters 0 txs new) _
        (add_txs-Good txs 0 new (omega arith) (λ j. ap (λ n. get_or txs n []) (omega arith))
          (new-Stages text_eq key key-injective value Source nothing))
        λ bu good.
          range_inv (λ _. ⊥) (2 ^ b) (λ c. Good (Chunked c)) (chunk_tree_round spec)
            (λ c bu lt good. chunk_tree_round-Good c lt bu some_level good) (2 ^ b) 0 bu
            (omega arith)
            (Stages-same text_eq key key-injective value Source Leaves-Chunked Chunked-Leaves good)
    where
      nothing : (n : Name) → Leaves 0 n → ⊥
      nothing n (inl (i, lt, e)) = omega (arith, lt)
      nothing n (inr (i, lt, e)) = omega (arith, lt)
