-- ===== src/Examples/Merkle/Correct.antt =====
-- The graph of `build_merkle_dag`: what each of its keys is worth.
use rust_dag_executor.Prelude.{
  ℕ, zero, suc, ◌+◌, ◌-◌, ◌*◌, ◌^◌, ◌≤◌, ◌<◌, ◌≡◌, ◌≢◌, refl, sym, ap, ◌∙◌, subst, inl, inr, List,
  [], ◌∷◌, map, arith, length, get_or, ltb, range_from, true,
}
use rust_dag_executor.Prelude.Slices.{length-map, length-range_from, get_or-map, get_or-range_from}
use rust_dag_executor.Prelude.Powers.{pow-pos, pow_div}
use rust_dag_executor.Prelude.Result.{ok}
use rust_dag_executor.Prelude.Outcome.{
  Outcome, ◌>>=◌, >>=-assoc, done, Ensures, Ensures-bind, Ensures-total, each, range_inv,
}
use rust_dag_executor.Error.{BuildError}
use rust_dag_executor.Builder.{new, add_task, build}
use rust_dag_executor.Builder.Named.{attempt, Stages, Stages-same, new-Stages, Stages-build}
use rust_dag_executor.Examples.Text.{Text}
use rust_dag_executor.Examples.Common.{Bytes, fake_encoded_tx, hash_leaf_with_iters}
use rust_dag_executor.Examples.Graphs.{DagT, Builder, text_eq, closure, of_result, hash_node_body}
use rust_dag_executor.Examples.Graphs.Leaves.{Planted, plant-Good}
use rust_dag_executor.Examples.Graphs.Levels.{tree_value, Full, place_round, levels-Good}
use rust_dag_executor.Examples.Merkle.Names.{Name, tx, node, key, key-injective, node-injective}
use rust_dag_executor.Examples.Merkle.{
  merkle_key, leaf_round, node_round, level_round, build_merkle_dag,
}
use rust_dag_executor.Examples.Rollup.Batches.{hash_leaf-IsHash}

module _ (h : ℕ) where
  pub txs : List Bytes
  txs = map fake_encoded_tx (range_from 0 (2 ^ h))

  abbrev pub leaves : List Bytes
  leaves = map (hash_leaf_with_iters 0) txs

  tx_count : length txs ≡ 2 ^ h
  unfolding txs
  tx_count = length-map fake_encoded_tx (range_from 0 (2 ^ h)) ∙ length-range_from 0 (2 ^ h)

  pub leaf_count : length leaves ≡ 2 ^ h
  leaf_count = length-map (hash_leaf_with_iters 0) txs ∙ tx_count

  tx-at : (i : ℕ) → i < 2 ^ h → get_or txs i [] ≡ fake_encoded_tx i
  unfolding txs
  tx-at i lt =
      get_or-map fake_encoded_tx (range_from 0 (2 ^ h)) i 0 []
        (omega (arith, lt, length-range_from 0 (2 ^ h)))
      ∙ ap fake_encoded_tx (get_or-range_from 0 (2 ^ h) i 0 lt ∙ omega arith)

  leaf-at : (i : ℕ) → i < 2 ^ h → get_or leaves i [] ≡ hash_leaf_with_iters 0 (fake_encoded_tx i)
  leaf-at i lt =
      get_or-map (hash_leaf_with_iters 0) txs i [] [] (omega (arith, lt, tx_count))
      ∙ ap (hash_leaf_with_iters 0) (tx-at i lt)

  -- The value of each node: the bytes of a transaction, the hash at a place of the tree.
  abbrev pub value : Name → Bytes
  value (tx i) = fake_encoded_tx i
  value (node level idx) = tree_value 0 h leaves leaf_count (hash_leaf-IsHash 0 txs) level idx

  abbrev pub Source : Name → Type 0
  Source (tx i) = Unit
  Source (node level idx) = ⊥

  tx_injective : (i j : ℕ) → tx i ≡ tx j → i ≡ j
  tx_injective i j e = cc

  leaf_injective : (i j : ℕ) → node 0 i ≡ node 0 j → i ≡ j
  leaf_injective i j e = cc

  tx_leaf : (i j : ℕ) → tx i ≢ node 0 j
  tx_leaf i j e = cc

  abbrev Leaves : ℕ → Name → Type 0
  Leaves i =
      Planted 0 key key-injective value Source tx (node 0) (λ _. tt) tx_injective leaf_injective
        tx_leaf i i

  abbrev Good : (Name → Type 0) → Builder → Type 0
  Good D = Stages text_eq key key-injective value Source D

  leaf_round-Good :
      (i : ℕ) (b : Builder)
      → i < 2 ^ h
      → Good (Leaves i) b
      → Ensures (Good (Leaves (suc i))) (λ _. ⊥) (leaf_round b i)
  unfolding leaf_round
  leaf_round-Good i b lt good =
      plant-Good 0 key key-injective value Source tx (node 0) (λ _. tt) tx_injective leaf_injective
        tx_leaf i (fake_encoded_tx i) b refl (leaf-at i lt) good

  base_apart : (l i : ℕ) → Leaves (2 ^ h) (node (suc l) i) → ⊥
  base_apart l i (inl (j, lt, e)) = cc
  base_apart l i (inr (j, lt, e)) = cc

  base_leaf : (i : ℕ) → i < 2 ^ h → Leaves (2 ^ h) (node 0 i)
  base_leaf i lt = inr (i, lt, refl)

  abbrev Tree : Name → Type 0
  Tree =
      Full 0 h leaves leaf_count (hash_leaf-IsHash 0 txs) key key-injective value Source node
        node-injective (λ l i le lt. refl) (Leaves (2 ^ h)) base_leaf base_apart

  -- A round of the level loop stages over the places of the level below.
  level_round-row :
      h < 64
      → (l : ℕ) (b : Builder) → suc l ≤ h
      → level_round (2 ^ h) b (suc l)
        ≡ each
            (place_round 0 h leaves leaf_count
              (hash_leaf-IsHash 0 txs)
              key
              key-injective
              value
              Source
              node
              node-injective
              (λ l i le lt. refl)
              (Leaves (2 ^ h))
              base_leaf
              base_apart
              l)
            b
            (range_from 0 (2 ^ (h - suc l)))
  unfolding level_round node_round
  level_round-row few l b le =
      let in_range : ltb (suc l) 64 ≡ true = ground (arith, le, few) in
      let below : suc l - 1 ≡ l = omega arith in
      rw (in_range, pow_div (suc l) h le)
        (ap
          (λ p.
            each
              (λ b idx. attempt (
                add_task text_eq b (merkle_key (suc l) idx)
                  (merkle_key p (idx * 2) ∷ merkle_key p (idx * 2 + 1) ∷ [])
                  (closure (hash_node_body 0))))
              b (range_from 0 (2 ^ (h - suc l))))
          below)

  -- The loops of `build_merkle_dag` succeed, and stage the tree.
  all_rounds :
      h < 64
      → Ensures
          (Good Tree)
          (λ _. ⊥)
          (each leaf_round new (range_from 0 (2 ^ h)) >>= λ b.
            each (level_round (2 ^ h)) b (range_from 1 h))
  all_rounds few =
      Ensures-bind (λ _. ⊥) (Good (Leaves (2 ^ h))) (Good Tree)
        (each leaf_round new (range_from 0 (2 ^ h))) _
        (range_inv (λ _. ⊥) (2 ^ h) (λ i. Good (Leaves i)) leaf_round
          (λ i b lt good. leaf_round-Good i b lt good) (2 ^ h) 0 new (omega arith)
          (new-Stages text_eq key key-injective value Source nothing))
        (levels-Good 0 h leaves leaf_count (hash_leaf-IsHash 0 txs) key key-injective value Source
          node node-injective (λ l i le lt. refl) (Leaves (2 ^ h)) base_leaf base_apart
          (level_round (2 ^ h)) (level_round-row few))
    where
      nothing : (n : Name) → Leaves 0 n → ⊥
      nothing n (inl (i, lt, e)) = omega (arith, lt)
      nothing n (inr (i, lt, e)) = omega (arith, lt)

  -- The names of the whole graph.
  abbrev pub Whole : Name → Type 0
  Whole (tx i) = i < 2 ^ h
  Whole (node level i) = (level ≤ h) × (i < 2 ^ (h - level))

  Whole-Tree : (n : Name) → Whole n → Tree n
  Whole-Tree (tx i) lt = inl (inl (i, lt, refl))
  Whole-Tree (node zero i) (_, lt) =
      let whole : h - 0 ≡ h = omega arith in inl (inr (i, subst (λ m. i < 2 ^ m) whole lt, refl))
  Whole-Tree (node (suc l) i) (le, lt) = inr (l, i, le, lt, refl)

  Tree-Whole : (n : Name) → Tree n → Whole n
  Tree-Whole n (inl (inl (i, lt, e))) = subst Whole (sym e) lt
  Tree-Whole n (inl (inr (i, lt, e))) =
      let whole : h ≡ h - 0 = omega arith in
      subst Whole (sym e) (omega arith, subst (λ m. i < 2 ^ m) whole lt)
  Tree-Whole n (inr (l, i, le, lt, e)) = subst Whole (sym e) (le, lt)

  -- `build_merkle_dag` returns a graph with a node for each hash of a tree of `2 ^ h` transactions.
  pub build_merkle_dag_lem :
      (level idx : ℕ)
      → h < 64
      → (b : Builder) × (dag : DagT) × Stages text_eq key key-injective value Source Whole b
        × (build text_eq b ≡ ok dag)
        × (build_merkle_dag (2 ^ h) h level idx ≡ done (dag, merkle_key h 0, merkle_key level idx))
  unfolding build_merkle_dag
  build_merkle_dag_lem level idx few =
      let (b, looped, good) = Ensures-total (Good Tree) (λ _. ⊥) _ (all_rounds few) (λ x e. e) in
      let (dag, compiled) =
        Stages-build text_eq key key-injective value Source b good (tx 0)
          (inl (inl (0, pow-pos h, refl))) in
      (
        b,
        dag,
        Stages-same text_eq key key-injective value Source Tree-Whole Whole-Tree good,
        compiled,
        sym (>>=-assoc (each leaf_round new (range_from 0 (2 ^ h))) _ finish)
            ∙ ap (◌>>= finish) looped
            ∙ ap (λ r. of_result r >>= λ dag. done (dag, merkle_key h 0, merkle_key level idx))
                compiled,
      )
    where
      finish : Builder → Outcome (BuildError Text) (DagT × Text × Text)
      finish b = do
        dag ← of_result (build text_eq b)
        done (dag, merkle_key h 0, merkle_key level idx)
