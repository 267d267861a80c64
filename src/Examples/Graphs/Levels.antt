-- ===== src/Examples/Graphs/Levels.antt =====
-- The loops that stage the inner nodes of a Merkle tree, level by level.
use native.Mathlib.Nat.{pow-suc}
use rust_dag_executor.Prelude.{
  ℕ, zero, suc, ◌+◌, ◌-◌, ◌*◌, ◌^◌, ◌≤◌, ◌<◌, ◌≡◌, refl, sym, ap, ◌∙◌, subst, ◌⊎◌, inl, inr, List,
  [], ◌∷◌, arith, length, get_or, ◌==◌, range_from, String, true, ℕ_discrete,
}
use rust_dag_executor.Prelude.Each.{Each, nil, cons}
use rust_dag_executor.Prelude.Result.{ok}
use rust_dag_executor.Prelude.Outcome.{Outcome, done, Ensures, Ensures-mono, each, range_inv, index}
use rust_dag_executor.Error.{BuildError}
use rust_dag_executor.Graph.{TaskFn}
use rust_dag_executor.Builder.{add_task}
use rust_dag_executor.Builder.Named.{attempt, Stages, Stages-same, add_task-Stages}
use rust_dag_executor.Examples.Text.{Text}
use rust_dag_executor.Examples.Common.{Bytes, ensure_32, hash_node_with_iters}
use rust_dag_executor.Examples.Graphs.{Builder, text_eq, as_result, closure, hash_node_body}
use rust_dag_executor.Examples.Rollup.Proofs.{IsHash}
use rust_dag_executor.Examples.Rollup.Trees.{next_level-at, IsHash-get_or}
use rust_dag_executor.Examples.Rollup.Batches.{rise, rise-next_level, length-rise, rise-IsHash}

module _ (iters h : ℕ) (leaves : List Bytes) (size : length leaves ≡ 2 ^ h)
    (hashes : Each IsHash leaves) where
  -- The hash at place `i` of level `l`.
  abbrev pub tree_value : ℕ → ℕ → Bytes
  tree_value l i = get_or (rise iters l leaves) i []

  row_size : (l : ℕ) → l ≤ h → length (rise iters l leaves) ≡ 2 ^ (h - l)
  row_size l le =
      let whole : h ≡ l + (h - l) = omega (arith, le) in
      length-rise iters l (h - l) leaves (size ∙ ap (2 ^◌) whole)

  pub tree_value-IsHash : (l i : ℕ) → l ≤ h → i < 2 ^ (h - l) → IsHash (tree_value l i)
  tree_value-IsHash l i le lt =
      IsHash-get_or iters (rise iters l leaves) i (rise-IsHash iters l leaves hashes)
        (omega (arith, row_size l le, lt))

  pub width-suc : (l : ℕ) → suc l ≤ h → 2 ^ (h - l) ≡ 2 ^ (h - suc l) * 2
  width-suc l le =
      let next : h - l ≡ suc (h - suc l) = omega (arith, le) in
      ap (2 ^◌) next ∙ pow-suc 2 (h - suc l)

  hash_node_body-hashes :
      (l r : Bytes)
      → IsHash l
      → IsHash r
      → closure (hash_node_body iters) (l ∷ r ∷ []) ≡ ok (hash_node_with_iters iters l r)
  unfolding hash_node_body ensure_32 index
  hash_node_body-hashes l r hash_l hash_r =
      let is_l : (length l == 32) ≡ true = ground (arith, hash_l) in
      let is_r : (length r == 32) ≡ true = ground (arith, hash_r) in
      let body : hash_node_body iters (l ∷ r ∷ []) ≡ done (hash_node_with_iters iters l r) =
        rw (is_l, is_r, hash_node_body) refl in
      ap as_result body

  -- The task of an inner node returns its hash at those of its children.
  pub hash_node_body-tree_value :
      (l j : ℕ)
      → suc l ≤ h
      → j < 2 ^ (h - suc l)
      → closure (hash_node_body iters) (tree_value l (j * 2) ∷ tree_value l (j * 2 + 1) ∷ [])
        ≡ ok (tree_value (suc l) j)
  hash_node_body-tree_value l j le lt =
      let le' : l ≤ h = omega (arith, le) in
      let next : suc (j * 2) ≡ j * 2 + 1 = omega arith in
      hash_node_body-hashes (tree_value l (j * 2)) (tree_value l (j * 2 + 1))
        (tree_value-IsHash l (j * 2) le' (omega (arith, lt, width-suc l le)))
        (tree_value-IsHash l (j * 2 + 1) le' (omega (arith, lt, width-suc l le)))
      ∙ ap ok (
          ap (λ i. hash_node_with_iters iters (tree_value l (j * 2)) (tree_value l i)) (sym next)
          ∙ sym (
              next_level-at iters j (j * 2) (rise iters l leaves) refl
                (omega (arith, row_size l le', lt, width-suc l le)))
          ∙ ap (λ row. get_or row j []) (sym (rise-next_level iters l leaves)))

-- The keys of the children may be made in another way, as long as they are the same.
pub children_same :
    (out left right : ℕ → Text) (f : TaskFn Bytes String)
    → ((idx : ℕ) → left idx ≡ right idx)
    → (b : Builder) (indices : List ℕ)
    → each
        (λ b idx.
          attempt (add_task text_eq b (out idx) (left (idx * 2) ∷ left (idx * 2 + 1) ∷ []) f))
        b
        indices
      ≡ each
          (λ b idx.
            attempt (add_task text_eq b (out idx) (right (idx * 2) ∷ right (idx * 2 + 1) ∷ []) f))
          b
          indices
children_same out left right f same b indices = λ t.
    each
      (λ b idx.
        attempt (add_task text_eq b (out idx) (same (idx * 2) t ∷ same (idx * 2 + 1) t ∷ []) f))
      b indices

-- The places of a tree of height `h` that come before place `j` of level `l`, the leaves aside.
abbrev pub Before : ℕ → ℕ → ℕ → ℕ → ℕ → Type 0
Before h l j zero i = ⊥
Before h l j (suc l') i = ((suc l' < l) × (i < 2 ^ (h - suc l'))) ⊎ ((suc l' ≡ l) × (i < j))

module _ (iters h : ℕ) (leaves : List Bytes) (size : length leaves ≡ 2 ^ h)
    (hashes : Each IsHash leaves) {N : Type 0} (text : N → Text)
    (text_injective : (n m : N) → text n ≡ text m → n ≡ m) (value : N → Bytes) (Source : N → Type 0)
    (place : ℕ → ℕ → N)
    (place_injective : (l i l' i' : ℕ) → place (suc l) i ≡ place (suc l') i' → (l ≡ l') × (i ≡ i'))
    (place_value : (l i : ℕ)
      → l ≤ h
      → i < 2 ^ (h - l)
      → value (place l i) ≡ tree_value iters h leaves size hashes l i)
    (Base : N → Type 0) (base_leaf : (i : ℕ) → i < 2 ^ h → Base (place 0 i))
    (base_apart : (l i : ℕ) → Base (place (suc l) i) → ⊥) where
  -- What is staged before place `j` of level `l`.
  abbrev pub Grown : ℕ → ℕ → N → Type 0
  Grown l j n = Base n ⊎ ((l' : ℕ) × (i : ℕ) × Before h l j l' i × (n ≡ place l' i))

  abbrev Good : ℕ → ℕ → Builder → Type 0
  Good l j = Stages text_eq text text_injective value Source (Grown l j)

  not_yet : (l j : ℕ) → Grown (suc l) j (place (suc l) j) → ⊥
  not_yet l j (inl base) = base_apart l j base
  not_yet l j (inr (zero, i, before, e)) = before
  not_yet l j (inr (suc l', i, before, e)) =
      let (same, same') = place_injective l j l' i e in omega (arith, before, same, same')

  child : (l j i : ℕ) → suc l ≤ h → i < 2 ^ (h - l) → Grown (suc l) j (place l i)
  child zero j i le lt =
      let whole : h - 0 ≡ h = omega arith in inl (base_leaf i (subst (λ m. i < 2 ^ m) whole lt))
  child (suc l) j i le lt = inr (suc l, i, inl (omega arith, lt), refl)

  keep : (l j : ℕ) (n : N) → Grown (suc l) j n → Grown (suc l) (suc j) n
  keep l j n (inl base) = inl base
  keep l j n (inr (zero, i, before, e)) = absurd before
  keep l j n (inr (suc l', i, inl below, e)) = inr (suc l', i, inl below, e)
  keep l j n (inr (suc l', i, inr (same, lt), e)) = inr (suc l', i, inr (same, omega arith), e)

  last : (l j : ℕ) (n : N) → Grown (suc l) (suc j) n → Grown (suc l) j n ⊎ (n ≡ place (suc l) j)
  last l j n (inl base) = inl (inl base)
  last l j n (inr (zero, i, before, e)) = absurd before
  last l j n (inr (suc l', i, inl below, e)) = inl (inr (suc l', i, inl below, e))
  last l j n (inr (suc l', i, inr (same, lt), e)) = elim (ℕ_discrete i j) [
    | yes here ↦ inr (e ∙ ap (λ l. place l i) same ∙ ap (place (suc l)) here)
    | no there ↦ inl (inr (suc l', i, inr (same, omega (arith, lt, there)), e))
  ]

  -- One round of the inner loop.
  abbrev pub place_round : ℕ → Builder → ℕ → Outcome (BuildError Text) Builder
  place_round l b idx = attempt (
      add_task text_eq b (text (place (suc l) idx))
        (text (place l (idx * 2)) ∷ text (place l (idx * 2 + 1)) ∷ [])
        (closure (hash_node_body iters)))

  place_round-Good :
      (l : ℕ)
      → suc l ≤ h
      → (j : ℕ) (b : Builder) → j < 2 ^ (h - suc l)
      → Good (suc l) j b
      → Ensures (Good (suc l) (suc j)) (λ _. ⊥) (place_round l b j)
  place_round-Good l le j b lt good =
      add_task-Stages text_eq text text_injective value Source (place (suc l) j) (not_yet l j)
        (keep l j) (inr (suc l, j, inr (refl, omega arith), refl)) (last l j) b good
        (place l (j * 2) ∷ place l (j * 2 + 1) ∷ []) (closure (hash_node_body iters))
        (cons (child l j (j * 2) le left) (cons (child l j (j * 2 + 1) le right) nil))
        (rw
          (
            place_value l (j * 2) le' left,
            place_value l (j * 2 + 1) le' right,
            place_value (suc l) j le lt,
          )
          (hash_node_body-tree_value iters h leaves size hashes l j le lt))
    where
      le' : l ≤ h
      le' = omega (arith, le)

      left : j * 2 < 2 ^ (h - l)
      left = omega (arith, lt, width-suc iters h leaves size hashes l le)

      right : j * 2 + 1 < 2 ^ (h - l)
      right = omega (arith, lt, width-suc iters h leaves size hashes l le)

  full_row : (l : ℕ) (n : N) → Grown (suc l) (2 ^ (h - suc l)) n → Grown (suc (suc l)) 0 n
  full_row l n (inl base) = inl base
  full_row l n (inr (zero, i, before, e)) = absurd before
  full_row l n (inr (suc l', i, inl (low, lt), e)) = inr (suc l', i, inl (omega arith, lt), e)
  full_row l n (inr (suc l', i, inr (same, lt), e)) =
      inr (suc l', i, inl (omega arith, subst (λ m. i < 2 ^ (h - m)) (sym same) lt), e)

  row_full : (l : ℕ) (n : N) → Grown (suc (suc l)) 0 n → Grown (suc l) (2 ^ (h - suc l)) n
  row_full l n (inl base) = inl base
  row_full l n (inr (zero, i, before, e)) = absurd before
  row_full l n (inr (suc l', i, inr (same, lt), e)) = absurd (omega (arith, lt))
  row_full l n (inr (suc l', i, inl (low, lt), e)) = elim (ℕ_discrete l' l) [
    | yes same ↦ inr (suc l', i, inr (ap suc same, subst (λ m. i < 2 ^ (h - suc m)) same lt), e)
    | no other ↦ inr (suc l', i, inl (omega (arith, low, other), lt), e)
  ]

  -- The loop over one level.
  pub row-Good :
      (l : ℕ)
      → suc l ≤ h
      → (b : Builder) → Good (suc l) 0 b
      → Ensures
          (Good (suc (suc l)) 0)
          (λ _. ⊥)
          (each (place_round l) b (range_from 0 (2 ^ (h - suc l))))
  row-Good l le b good =
      Ensures-mono (λ _. ⊥) (Good (suc l) (2 ^ (h - suc l))) (Good (suc (suc l)) 0)
        (each (place_round l) b (range_from 0 (2 ^ (h - suc l))))
        (range_inv (λ _. ⊥) (2 ^ (h - suc l)) (Good (suc l)) (place_round l)
          (λ j b lt good. place_round-Good l le j b lt good) (2 ^ (h - suc l)) 0 b (omega arith)
          good)
        λ b good.
          Stages-same text_eq text text_injective value Source (full_row l) (row_full l) good

  only_base : (n : N) → Grown 1 0 n → Base n
  only_base n (inl base) = base
  only_base n (inr (zero, i, before, e)) = absurd before
  only_base n (inr (suc l, i, inl (low, _), e)) = absurd (omega (arith, low))
  only_base n (inr (suc l, i, inr (_, lt), e)) = absurd (omega (arith, lt))

  -- What is staged once the tree is.
  abbrev pub Full : N → Type 0
  Full n =
      Base n ⊎ ((l : ℕ) × (i : ℕ) × (suc l ≤ h) × (i < 2 ^ (h - suc l)) × (n ≡ place (suc l) i))

  Full-Grown : (n : N) → Full n → Grown (suc h) 0 n
  Full-Grown n (inl base) = inl base
  Full-Grown n (inr (l, i, le, lt, e)) = inr (suc l, i, inl (omega (arith, le), lt), e)

  Grown-Full : (n : N) → Grown (suc h) 0 n → Full n
  Grown-Full n (inl base) = inl base
  Grown-Full n (inr (zero, i, before, e)) = absurd before
  Grown-Full n (inr (suc l, i, inr (_, lt), e)) = absurd (omega (arith, lt))
  Grown-Full n (inr (suc l, i, inl (low, lt), e)) = inr (l, i, omega (arith, low), lt, e)

  -- The loop over the levels, whose rounds are loops over one level.
  pub levels-Good :
      (round : Builder → ℕ → Outcome (BuildError Text) Builder)
      → ((l : ℕ) (b : Builder)
          → suc l ≤ h
          → round b (suc l) ≡ each (place_round l) b (range_from 0 (2 ^ (h - suc l))))
      → (b : Builder) → Stages text_eq text text_injective value Source Base b
      → Ensures
          (Stages text_eq text text_injective value Source Full)
          (λ _. ⊥)
          (each round b (range_from 1 h))
  levels-Good round row b good =
      Ensures-mono (λ _. ⊥) (Climbed (suc h)) (Stages text_eq text text_injective value Source Full)
        (each round b (range_from 1 h))
        (range_inv (λ _. ⊥) (suc h) Climbed round climb h 1 b (omega arith)
          (
            omega arith,
            Stages-same text_eq text text_injective value Source (λ n base. inl base) only_base
                good,
          ))
        λ b (_, good).
          Stages-same text_eq text text_injective value Source Grown-Full Full-Grown good
    where
      Climbed : ℕ → Builder → Type 0
      Climbed l b = (0 < l) × Good l 0 b

      climb :
          (k : ℕ) (b : Builder)
          → k < suc h
          → Climbed k b
          → Ensures (Climbed (suc k)) (λ _. ⊥) (round b k)
      climb zero b lt (some_level, good) = absurd (omega (arith, some_level))
      climb (suc l) b lt (_, good) =
          Ensures-mono (λ _. ⊥) (Good (suc (suc l)) 0) (Climbed (suc (suc l))) (round b (suc l))
            (subst (Ensures (Good (suc (suc l)) 0) (λ _. ⊥)) (sym (row l b (omega (arith, lt))))
              (row-Good l (omega (arith, lt)) b good))
            λ b good. (omega arith, good)
