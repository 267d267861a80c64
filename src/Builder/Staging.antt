-- ===== src/Builder/Staging.antt =====
-- `insert_node` and the methods over it: what they do to a lookup, and the invariant they keep.
use rust_dag_executor.Prelude.{
  ℕ, ◌≡◌, refl, ap, ◌∙◌, ◌⊎◌, List, [], ◌∷◌, ◌++◌, none, some, inl, inr, ite, length, get_elem?,
  get_elem?-append_last, get_elem?-append_cases, get_elem?-append_left, Option-cases,
}
use rust_dag_executor.Prelude.HashMap.{
  get, insert, get-insert, get-insert_self, get-insert_ne, get-insert_cases,
}
use rust_dag_executor.Prelude.Result.{ok, err}
use rust_dag_executor.Error.{duplicate_key}
use rust_dag_executor.Graph.{TaskFn}
use rust_dag_executor.Builder.{
  StagedKind, staged_source, staged_task, StagedNode, DagBuilder, new, insert_node, add_source,
  add_task,
}

module _ {K O E : Type 0} (eq : Discrete K) where
  -- The index leads from every key to the place of its node, keys are distinct, and only a task
  -- has dependencies.
  pub record IsConsistent (b : DagBuilder K O E) : Type 0 where
    pub sound :
        (k : K) (i : ℕ)
        → get eq b.index k ≡ some i
        → (s : StagedNode K O E) × (get_elem? b.staging i ≡ some s) × (s.key ≡ k)
    pub full :
        (i : ℕ) (s : StagedNode K O E)
        → get_elem? b.staging i ≡ some s
        → get eq b.index s.key ≡ some i
    pub leaf :
        (i : ℕ) (s : StagedNode K O E)
        → get_elem? b.staging i ≡ some s
        → (v : O) → s.kind ≡ staged_source v
        → s.deps ≡ []

  new-IsConsistent : IsConsistent new
  unfolding get
  new-IsConsistent = record { sound = λ k i h. cc; full = λ i s h. cc; leaf = λ i s h v e. cc }

  module _ (b : DagBuilder K O E) (n : StagedNode K O E) where
    -- The builder with the node `n` staged last.
    abbrev pub staged : DagBuilder K O E
    staged = record {
      index = insert eq b.index n.key (length b.staging);
      staging = b.staging ++ n ∷ [];
    }

    module _ (fresh : get eq b.index n.key ≡ none) (h : IsConsistent b) where
      staged_sound :
          (k : K) (i : ℕ)
          → get eq staged.index k ≡ some i
          → (s : StagedNode K O E) × (get_elem? staged.staging i ≡ some s) × (s.key ≡ k)
      staged_sound k i found = elim (get-insert_cases eq b.index n.key (length b.staging) k found) [
        | inl (p, here) ↦ (n, rw (← here) (get_elem?-append_last b.staging n), p)
        | inr (_, old) ↦
            let (s, at, named) = h.sound k i old in
            (s, get_elem?-append_left b.staging (n ∷ []) i at, named)
      ]

      staged-full :
          (i : ℕ) (s : StagedNode K O E)
          → get_elem? staged.staging i ≡ some s
          → get eq staged.index s.key ≡ some i
      staged-full i s at = elim (get_elem?-append_cases b.staging n i at) [
        | inl old ↦
            get-insert_ne eq b.index n.key (length b.staging)
              (λ p. cc (fresh, h.full i s old, ap (get eq b.index) p))
            ∙ h.full i s old
        | inr (last, same) ↦
            rw last (get-insert_self eq b.index n.key (length b.staging) (ap (λ s. s.key) same))
      ]

      pub staged-IsConsistent :
          ((v : O) → n.kind ≡ staged_source v → n.deps ≡ []) → IsConsistent staged
      staged-IsConsistent bare = record {
        sound = staged_sound;
        full = staged-full;
        leaf = λ i s at v e. elim (get_elem?-append_cases b.staging n i at) [
          | inl old ↦ h.leaf i s old v e
          | inr (last, same) ↦ rw (← same) (bare v (ap (λ s. s.kind) same ∙ e))
        ];
      }

  insert_node-IsConsistent :
      (b : DagBuilder K O E) (key : K) (deps : List K) (kind : StagedKind O E)
      → ((v : O) → kind ≡ staged_source v → deps ≡ [])
      → IsConsistent b
      → IsConsistent (insert_node eq b key deps kind).0
  unfolding insert_node
  insert_node-IsConsistent b key deps kind bare h = elim (Option-cases (get eq b.index key)) [
    | inr (i, e) ↦ rw e h
    | inl e ↦ rw e (staged-IsConsistent b (record { key = key; deps = deps; kind = kind }) e h bare)
  ]

  -- The builders that the methods can make.
  pub data Built : DagBuilder K O E → Type 0 where
    fresh : Built new
    with_source :
        {b : DagBuilder K O E}
        → Built b
        → (key : K) (value : O) → Built (add_source eq b key value).0
    with_task :
        {b : DagBuilder K O E}
        → Built b
        → (key : K) (deps : List K) (f : TaskFn O E) → Built (add_task eq b key deps f).0

  -- Every builder that the methods can make is consistent, failed calls included.
  pub Built-IsConsistent : {b : DagBuilder K O E} → Built b → IsConsistent b
  unfolding add_source add_task
  Built-IsConsistent fresh = new-IsConsistent
  Built-IsConsistent (with_source {b} r key value) =
      insert_node-IsConsistent b key [] (staged_source value) (λ _ _. refl) (Built-IsConsistent r)
  Built-IsConsistent (with_task {b} r key deps f) =
      insert_node-IsConsistent b key deps (staged_task f) (λ v e. cc) (Built-IsConsistent r)

  -- A key is staged once: a call with a key that is there changes nothing and is refused, any
  -- other appends its node, and makes its key lead to it and leaves every other key alone.
  pub insert_node_lem :
      (b : DagBuilder K O E) (key : K) (deps : List K) (kind : StagedKind O E)
      → ((i : ℕ) × (get eq b.index key ≡ some i)
          × (insert_node eq b key deps kind ≡ (b, err (duplicate_key key))))
        ⊎ ((get eq b.index key ≡ none)
            × (insert_node eq b key deps kind
                ≡ (staged b (record { key = key; deps = deps; kind = kind }), ok tt))
            × ((k : K)
                → get eq (insert_node eq b key deps kind).0.index k
                  ≡ ite (eq key k) (some (length b.staging)) (get eq b.index k)))
  unfolding insert_node
  insert_node_lem b key deps kind = elim (Option-cases (get eq b.index key)) [
    | inr (i, e) ↦ inl (i, e, rw e)
    | inl e ↦ inr (e, rw e, λ k. rw e (get-insert eq b.index key (length b.staging) k))
  ]
