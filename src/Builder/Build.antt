-- ===== src/Builder/Build.antt =====
-- What `build` returns: a well-formed graph that has the staged nodes, or an error that is true.
use mathlib.Core.List.{Memᴰ}
use rust_dag_executor.Prelude.{
  ℕ, ◌+◌, ◌≡◌, sym, ap, ◌∙◌, subst, ◌⊎◌, List, [], none, some, inl, inr, arith, get_elem?,
  get_elem?-eq-some, Option-cases, Bool-cases, is_empty, is_empty-eq-nil,
}
use rust_dag_executor.Prelude.HashMap.{get}
use rust_dag_executor.Prelude.Result.{Result, ok, err, ◌>>=◌, Result-cases, >>=-eq-ok, >>=-eq-err}
use rust_dag_executor.Error.{BuildError, missing_dependency, empty_graph}
use rust_dag_executor.Graph.{source, Node, Dag}
use rust_dag_executor.Graph.WellFormed.{IsClosed, IsIndexed, IsWellFormed}
use rust_dag_executor.Builder.{
  StagedKind, staged_source, staged_task, StagedNode, DagBuilder, compile_kind, resolve_nodes,
  key_ids, build,
}
use rust_dag_executor.Builder.Staging.{IsConsistent, Built, Built-IsConsistent}
use rust_dag_executor.Builder.Resolve.{
  get-assign_ids, assign_ids_sound, LeadTo, LeadTo-source, LeadTo-nil, AllCompile,
  resolve_nodes-eq-ok, resolve_nodes-eq-err, AllCompile-staged, AllCompile-compiled,
}

pub compile_kind-eq-source :
    {O E : Type 0} (kind : StagedKind O E) {v : O}
    → compile_kind kind ≡ source v
    → kind ≡ staged_source v
compile_kind-eq-source (staged_source w) h = ap staged_source (cc)
compile_kind-eq-source (staged_task f) h = cc

module _ {K O E : Type 0} (eq : Discrete K) (b : DagBuilder K O E) where
  module _ (h : IsConsistent eq b) where
    distinct :
        (j l : ℕ) (s t : StagedNode K O E)
        → get_elem? b.staging j ≡ some s
        → get_elem? b.staging l ≡ some t
        → s.key ≡ t.key
        → j ≡ l
    distinct j l s t p q e = cc (h.full j s p, h.full l t q, ap (get eq b.index) e)

    -- The identifiers that `build` assigns are the places in `staging` that `index` holds.
    pub get-key_ids : (k : K) → get eq (key_ids eq b) k ≡ get eq b.index k
    unfolding key_ids get
    get-key_ids k = elim (Option-cases (get eq b.index k)) [
      | inr (i, e) ↦
          let (s, at, named) = h.sound k i e in
          let i' : 0 + i ≡ i = omega arith in
          subst (λ k'. get eq (key_ids eq b) k' ≡ get eq b.index k) named
            (get-assign_ids eq 0 b.staging [] distinct i s at ∙ ap some i' ∙ sym e)
      | inl e ↦ elim (Option-cases (get eq (key_ids eq b) k)) [
        | inl e' ↦ e' ∙ sym e
        | inr (l, e') ↦ elim (assign_ids_sound eq 0 b.staging [] k l e') [
          | inl (j, s, at, named, _) ↦ cc (h.full j s at, ap (get eq b.index) named)
          | inr nothing ↦ cc
        ]
      ]
    ]

    module _ (nodes : List (Node K O E))
        (compiled : AllCompile eq (key_ids eq b) b.staging nodes) where
      compiled_dag : Dag K O E
      compiled_dag = record { nodes = nodes; index = key_ids eq b }

      compiled-IsIndexed : IsIndexed eq compiled_dag
      unfolding compiled_dag
      compiled-IsIndexed = record {
        sound = λ k i found.
            let (s, at, named) = h.sound k i (sym (get-key_ids k) ∙ found) in
            let (node, at', c) =
              AllCompile-compiled eq (key_ids eq b) b.staging nodes i compiled at in
            (node, at', c.key ∙ named);
        full = λ i node at.
            let (s, at', c) = AllCompile-staged eq (key_ids eq b) b.staging nodes i compiled at in
            get-key_ids node.key ∙ ap (get eq b.index) c.key ∙ h.full i s at';
      }

      compiled-IsClosed : IsClosed compiled_dag
      unfolding compiled_dag
      compiled-IsClosed = record {
        bounded = λ i {node} at d dep.
            let (s, at', c) = AllCompile-staged eq (key_ids eq b) b.staging nodes i compiled at in
            let (k, found) = LeadTo-source eq (key_ids eq b) s.deps node.deps c.deps dep in
            let (_, there, _) = compiled-IsIndexed.sound k d found in
            get_elem?-eq-some nodes d there;
        source_leaf = λ i {node} at {v} e.
            let (s, at', c) = AllCompile-staged eq (key_ids eq b) b.staging nodes i compiled at in
            let bare = h.leaf i s at' v (compile_kind-eq-source s.kind (sym c.kind ∙ e)) in
            LeadTo-nil eq (key_ids eq b) node.deps
              (subst (λ ks. LeadTo eq (key_ids eq b) ks node.deps) bare c.deps);
      }

  -- The two branches of `build`.
  build_cases :
      (b.staging ≡ []) × (build eq b ≡ err empty_graph)
      ⊎ (build eq b ≡ (
          resolve_nodes eq (key_ids eq b) b.staging >>= λ nodes.
          ok (record { nodes = nodes; index = key_ids eq b })))
  unfolding build
  build_cases = elim (Bool-cases (is_empty b.staging)) [
    | inl e ↦ inl (is_empty-eq-nil b.staging e, rw e)
    | inr e ↦ inr (rw e)
  ]

  build-eq-ok :
      {dag : Dag K O E}
      → build eq b ≡ ok dag
      → (nodes : List (Node K O E)) × AllCompile eq (key_ids eq b) b.staging nodes
        × (dag ≡ record { nodes = nodes; index = key_ids eq b })
  build-eq-ok {dag} h = elim build_cases [
    | inl (_, e) ↦ cc
    | inr e ↦
        let (nodes, r, same) =
          >>=-eq-ok (resolve_nodes eq (key_ids eq b) b.staging)
            (λ nodes. ok (record { nodes = nodes; index = key_ids eq b })) (sym e ∙ h) in
        (nodes, resolve_nodes-eq-ok eq (key_ids eq b) b.staging nodes r, cc)
  ]

  build-eq-err :
      {x : BuildError K}
      → build eq b ≡ err x
      → (b.staging ≡ []) × (x ≡ empty_graph)
        ⊎ ((s : StagedNode K O E) × (k : K) × Memᴰ s b.staging
            × Memᴰ k s.deps
            × (get eq (key_ids eq b) k ≡ none)
            × (x ≡ missing_dependency s.key k))
  build-eq-err {x} h = elim build_cases [
    | inl (empty, e) ↦ inl (empty, cc)
    | inr e ↦
        elim (>>=-eq-err (resolve_nodes eq (key_ids eq b) b.staging)
          (λ nodes. ok (record { nodes = nodes; index = key_ids eq b })) (sym e ∙ h)) [
            | inl r ↦ inr (resolve_nodes-eq-err eq (key_ids eq b) b.staging r)
            | inr (_, _, impossible) ↦ cc
          ]
  ]

  -- A graph from a builder is well formed.
  pub build-IsWellFormed :
      {dag : Dag K O E} → Built eq b → build eq b ≡ ok dag → IsWellFormed eq dag
  unfolding compiled_dag
  build-IsWellFormed {dag} built h =
      let (nodes, compiled, same) = build-eq-ok h in
      let consistent = Built-IsConsistent eq built in
      subst (IsWellFormed eq) (sym same) (record {
        closed = compiled-IsClosed consistent nodes compiled;
        indexed = compiled-IsIndexed consistent nodes compiled;
      })

  -- What a result of `build` says of the builder: a graph has the staged nodes in their order,
  -- each with the identifiers of its dependency keys in their order; an error says that nothing was
  -- staged, or names a staged task and a key among its dependencies that was not staged.
  abbrev pub Reports : Result (Dag K O E) (BuildError K) → Type 0
  Reports (ok dag) =
      AllCompile eq dag.index b.staging dag.nodes
      × ((k : K) → get eq dag.index k ≡ get eq b.index k)
  Reports (err x) =
      (b.staging ≡ []) × (x ≡ empty_graph)
      ⊎ ((s : StagedNode K O E) × (k : K) × Memᴰ s b.staging
          × Memᴰ k s.deps
          × (get eq b.index k ≡ none)
          × (x ≡ missing_dependency s.key k))

  -- The result of `build` is what `Reports` says of it.
  pub build_lem : Built eq b → Reports (build eq b)
  build_lem built = elim (Result-cases (build eq b)) [
    | inl (dag, h) ↦
        let (nodes, compiled, same) = build-eq-ok h in
        subst Reports (sym (h ∙ ap ok same)) (compiled, get-key_ids (Built-IsConsistent eq built))
    | inr (x, h) ↦ subst Reports (sym h) (elim (build-eq-err h) [
      | inl empty ↦ inl empty
      | inr (s, k, here, at, lost, named) ↦
          inr (s, k, here, at, sym (get-key_ids (Built-IsConsistent eq built) k) ∙ lost, named)
    ])
  ]
