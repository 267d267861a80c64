-- ===== src/Examples/Graphs/Leaves.antt =====
-- The loops that stage the transactions and their hashes.
use rust_dag_executor.Prelude.{
  ℕ, suc, ◌<◌, ◌≡◌, ◌≢◌, refl, sym, ap, ◌∙◌, ◌⊎◌, inl, inr, [], ◌∷◌, arith, ℕ_discrete,
}
use rust_dag_executor.Prelude.Each.{nil, cons}
use rust_dag_executor.Prelude.Result.{ok}
use rust_dag_executor.Prelude.Outcome.{Outcome, ◌>>=◌, Ensures, Ensures-bind, index}
use rust_dag_executor.Error.{BuildError}
use rust_dag_executor.Builder.{add_source, add_task}
use rust_dag_executor.Builder.Named.{attempt, Stages, add_source-Stages, add_task-Stages}
use rust_dag_executor.Examples.Text.{Text}
use rust_dag_executor.Examples.Common.{Bytes, hash_leaf_with_iters}
use rust_dag_executor.Examples.Graphs.{Builder, text_eq, closure, hash_leaf_body}

module _ (iters : ℕ) {N : Type 0} (text : N → Text)
    (text_injective : (n m : N) → text n ≡ text m → n ≡ m) (value : N → Bytes) (Source : N → Type 0)
    (tx leaf : ℕ → N) (source_tx : (i : ℕ) → Source (tx i))
    (tx_injective : (i j : ℕ) → tx i ≡ tx j → i ≡ j)
    (leaf_injective : (i j : ℕ) → leaf i ≡ leaf j → i ≡ j)
    (tx_leaf : (i j : ℕ) → tx i ≢ leaf j) where
  -- After `a` transactions and `c` hashes.
  abbrev pub Planted : ℕ → ℕ → N → Type 0
  Planted a c n = ((i : ℕ) × (i < a) × (n ≡ tx i)) ⊎ ((i : ℕ) × (i < c) × (n ≡ leaf i))

  abbrev Good : ℕ → ℕ → Builder → Type 0
  Good a c = Stages text_eq text text_injective value Source (Planted a c)

  fresh_tx : (i : ℕ) → Planted i i (tx i) → ⊥
  fresh_tx i (inl (j, lt, e)) = omega (arith, lt, tx_injective i j e)
  fresh_tx i (inr (j, lt, e)) = tx_leaf i j e

  fresh_leaf : (i : ℕ) → Planted (suc i) i (leaf i) → ⊥
  fresh_leaf i (inl (j, lt, e)) = tx_leaf j i (sym e)
  fresh_leaf i (inr (j, lt, e)) = omega (arith, lt, leaf_injective i j e)

  keep_tx : (i : ℕ) (n : N) → Planted i i n → Planted (suc i) i n
  keep_tx i n (inl (j, lt, e)) = inl (j, omega (arith, lt), e)
  keep_tx i n (inr p) = inr p

  keep_leaf : (i : ℕ) (n : N) → Planted (suc i) i n → Planted (suc i) (suc i) n
  keep_leaf i n (inl p) = inl p
  keep_leaf i n (inr (j, lt, e)) = inr (j, omega (arith, lt), e)

  last_tx : (i : ℕ) (n : N) → Planted (suc i) i n → Planted i i n ⊎ (n ≡ tx i)
  last_tx i n (inr p) = inl (inr p)
  last_tx i n (inl (j, lt, e)) = elim (ℕ_discrete j i) [
    | yes same ↦ inr (e ∙ ap tx same)
    | no other ↦ inl (inl (j, omega (arith, lt, other), e))
  ]

  last_leaf : (i : ℕ) (n : N) → Planted (suc i) (suc i) n → Planted (suc i) i n ⊎ (n ≡ leaf i)
  last_leaf i n (inl p) = inl (inl p)
  last_leaf i n (inr (j, lt, e)) = elim (ℕ_discrete j i) [
    | yes same ↦ inr (e ∙ ap leaf same)
    | no other ↦ inl (inr (j, omega (arith, lt, other), e))
  ]

  hash_leaf_body-ok :
      (bytes : Bytes)
      → closure (hash_leaf_body iters) (bytes ∷ []) ≡ ok (hash_leaf_with_iters iters bytes)
  unfolding hash_leaf_body index
  hash_leaf_body-ok bytes = refl

  -- One round: a source and the task of its hash.
  abbrev pub plant : ℕ → Bytes → Builder → Outcome (BuildError Text) Builder
  plant i bytes b = attempt (add_source text_eq b (text (tx i)) bytes) >>= λ b'.
      attempt
        (add_task text_eq b' (text (leaf i)) (text (tx i) ∷ []) (closure (hash_leaf_body iters)))

  pub plant-Good :
      (i : ℕ) (bytes : Bytes) (b : Builder)
      → value (tx i) ≡ bytes
      → value (leaf i) ≡ hash_leaf_with_iters iters bytes
      → Good i i b
      → Ensures (Good (suc i) (suc i)) (λ _. ⊥) (plant i bytes b)
  plant-Good i bytes b is_bytes is_hash good =
      Ensures-bind (λ _. ⊥) (Good (suc i) i) (Good (suc i) (suc i))
        (attempt (add_source text_eq b (text (tx i)) bytes)) _
        (rw (← is_bytes) (
          add_source-Stages text_eq text text_injective value Source (tx i) (fresh_tx i) (keep_tx i)
            (inl (i, omega arith, refl)) (last_tx i) b good (source_tx i)))
        λ b' good'.
          add_task-Stages text_eq text text_injective value Source (leaf i) (fresh_leaf i)
            (keep_leaf i) (inr (i, omega arith, refl)) (last_leaf i) b' good' (tx i ∷ [])
            (closure (hash_leaf_body iters)) (cons (inl (i, omega arith, refl)) nil)
            (rw (is_bytes, is_hash) (hash_leaf_body-ok bytes))
