-- ===== src/Builder/Values.antt =====
-- What the calls of a builder mean, in keys alone: the value of a staged node, with no identifiers
-- and no graph. `build` keeps it.
use mathlib.Core.List.{Memᴰ}
use mathlib.Core.List.Memᴰ
use rust_dag_executor.Prelude.{
  ℕ, ◌≡◌, ◌≢◌, sym, ap, ◌∙◌, subst, List, [], ◌∷◌, none, some, inl, inr, get_elem?,
  get_elem?-append_left, Memᴰ-get_elem?,
}
use rust_dag_executor.Prelude.HashMap.{get}
use rust_dag_executor.Prelude.Result.{ok, Result-cases}
use rust_dag_executor.Graph.{NodeId, TaskFn, Dag}
use rust_dag_executor.Graph.Semantics.{Eval, EvalAll}
use rust_dag_executor.Builder.{
  staged_source, staged_task, StagedNode, DagBuilder, compile_kind, build,
}
use rust_dag_executor.Builder.Staging.{IsConsistent, Built, Built-IsConsistent, staged}
use rust_dag_executor.Builder.Resolve.{LeadTo, AllCompile-compiled}
use rust_dag_executor.Builder.Build.{Reports, build_lem}

module _ {K O E : Type 0} (b : DagBuilder K O E) where
  -- `Value k v`: the node staged under `k` is a source of `v`, or a task that returns `v` at the
  -- values of its dependency keys.
  mutual
    pub data Value : K → O → Type 0 where
      of_source :
          {k : K} {v : O} (i : ℕ) (s : StagedNode K O E)
          → get_elem? b.staging i ≡ some s
          → s.key ≡ k
          → s.kind ≡ staged_source v
          → Value k v
      of_task :
          {k : K} {v : O} {f : TaskFn O E} {args : List O} (i : ℕ) (s : StagedNode K O E)
          → get_elem? b.staging i ≡ some s
          → s.key ≡ k
          → s.kind ≡ staged_task f
          → ValueAll s.deps args
          → f args ≡ ok v
          → Value k v

    pub data ValueAll : List K → List O → Type 0 where
      nil : ValueAll [] []
      cons :
          {k : K} {v : O} {ks : List K} {vs : List O}
          → Value k v
          → ValueAll ks vs
          → ValueAll (k ∷ ks) (v ∷ vs)

module _ {K O E : Type 0} (eq : Discrete K) (b : DagBuilder K O E) (n : StagedNode K O E) where
  mutual
    staged-Value_go : {k : K} {v : O} → Value b k v → Value (staged eq b n) k v
    staged-Value_go (of_source i s at named is) =
        of_source i s (get_elem?-append_left b.staging (n ∷ []) i at) named is
    staged-Value_go (of_task i s at named is all r) =
        of_task i s (get_elem?-append_left b.staging (n ∷ []) i at) named is
          (staged-ValueAll_go all) r

    staged-ValueAll_go :
        {ks : List K} {vs : List O} → ValueAll b ks vs → ValueAll (staged eq b n) ks vs
    staged-ValueAll_go nil = nil
    staged-ValueAll_go (cons e all) = cons (staged-Value_go e) (staged-ValueAll_go all)

  -- A node that is staged later changes no value.
  pub staged-Value : {k : K} {v : O} → Value b k v → Value (staged eq b n) k v
  staged-Value = staged-Value_go

  pub staged-ValueAll :
      {ks : List K} {vs : List O} → ValueAll b ks vs → ValueAll (staged eq b n) ks vs
  staged-ValueAll = staged-ValueAll_go

module _ {K O E : Type 0} (eq : Discrete K) (b : DagBuilder K O E) (built : Built eq b) where
  -- `build` refuses only an empty builder, or one where a dependency key was not staged.
  pub build-total :
      b.staging ≢ []
      → ((i : ℕ) (s : StagedNode K O E) (k : K)
          → get_elem? b.staging i ≡ some s
          → Memᴰ k s.deps
          → get eq b.index k ≢ none)
      → (dag : Dag K O E) × (build eq b ≡ ok dag)
  build-total some_node closed = elim (Result-cases (build eq b)) [
    | inl (dag, h) ↦ (dag, h)
    | inr (x, h) ↦ elim (subst (Reports eq b) h (build_lem eq b built)) [
      | inl (empty, _) ↦ absurd (some_node empty)
      | inr (s, k, here, at, lost, _) ↦
          let (i, there) = Memᴰ-get_elem? here in absurd (closed i s k there at lost)
    ]
  ]

  module _ (dag : Dag K O E) (h : build eq b ≡ ok dag) where
    consistent : IsConsistent eq b
    consistent = Built-IsConsistent eq built

    kept : Reports eq b (ok dag)
    kept = subst (Reports eq b) h (build_lem eq b built)

    -- The place of a staged node is the identifier of its key.
    id_of :
        {k : K} (i : ℕ) (s : StagedNode K O E)
        → get_elem? b.staging i ≡ some s
        → s.key ≡ k
        → get eq dag.index k ≡ some i
    id_of i s at named = ap (get eq dag.index) (sym named) ∙ kept.1 s.key ∙ consistent.full i s at

    mutual
      Value-Eval_go :
          {k : K} {v : O}
          → Value b k v
          → (i : NodeId) × (get eq dag.index k ≡ some i) × Eval dag i v
      Value-Eval_go (of_source i s at named is) =
          let (node, there, c) = AllCompile-compiled eq dag.index b.staging dag.nodes i kept.0 at in
          (i, id_of i s at named, Eval.of_source there (c.kind ∙ ap compile_kind is))
      Value-Eval_go (of_task i s at named is all r) =
          let (node, there, c) = AllCompile-compiled eq dag.index b.staging dag.nodes i kept.0 at in
          (
            i,
            id_of i s at named,
            Eval.of_task there (c.kind ∙ ap compile_kind is)
                (ValueAll-EvalAll_go all node.deps c.deps) r,
          )

      ValueAll-EvalAll_go :
          {ks : List K} {vs : List O}
          → ValueAll b ks vs
          → (is : List NodeId) → LeadTo eq dag.index ks is
          → EvalAll dag is vs
      ValueAll-EvalAll_go nil [] l = EvalAll.nil
      ValueAll-EvalAll_go nil (i ∷ is) l = absurd l
      ValueAll-EvalAll_go (cons e all) [] l = absurd l
      ValueAll-EvalAll_go (cons {v} e all) (i ∷ is) l =
          let (j, found, value) = Value-Eval_go e in
          let same : j ≡ i = cc (found, l.0) in
          EvalAll.cons (subst (λ i. Eval dag i v) same value) (ValueAll-EvalAll_go all is l.1)

    -- In the graph that `build` makes the key of a staged node leads to a node of its value.
    pub Value-Eval :
        {k : K} {v : O} → Value b k v → (i : NodeId) × (get eq dag.index k ≡ some i) × Eval dag i v
    Value-Eval = Value-Eval_go

  module _
      (valued : (i : ℕ) (s : StagedNode K O E)
        → get_elem? b.staging i ≡ some s
        → (v : O) × Value b s.key v) where
    Value-staged : {k : K} {v : O} → Value b k v → get eq b.index k ≢ none
    Value-staged (of_source i s at named _) lost =
        cc ((Built-IsConsistent eq built).full i s at, ap (get eq b.index) named)
    Value-staged (of_task i s at named _ _ _) lost =
        cc ((Built-IsConsistent eq built).full i s at, ap (get eq b.index) named)

    ValueAll-staged :
        {ks : List K} {vs : List O}
        → ValueAll b ks vs
        → (k : K) → Memᴰ k ks
        → get eq b.index k ≢ none
    ValueAll-staged nil k m = absurd (Memᴰ.not-nil m)
    ValueAll-staged (cons e all) k (Memᴰ.head same) =
        subst (λ k. get eq b.index k ≢ none) (sym same) (Value-staged e)
    ValueAll-staged (cons e all) k (Memᴰ.tail m) = ValueAll-staged all k m

    deps_staged :
        (i : ℕ) (s : StagedNode K O E) {v : O}
        → get_elem? b.staging i ≡ some s
        → Value b s.key v
        → (k : K) → Memᴰ k s.deps
        → get eq b.index k ≢ none
    deps_staged i s at (of_source j t at' named is) k m =
        let c = Built-IsConsistent eq built in
        let same : j ≡ i = cc (c.full i s at, c.full j t at', ap (get eq b.index) named) in
        let node : t ≡ s = cc in
        absurd
          (Memᴰ.not-nil (subst (Memᴰ k) (c.leaf i s at _ (ap (λ s. s.kind) (sym node) ∙ is)) m))
    deps_staged i s at (of_task j t at' named is all r) k m =
        let c = Built-IsConsistent eq built in
        let same : j ≡ i = cc (c.full i s at, c.full j t at', ap (get eq b.index) named) in
        let node : t ≡ s = cc in
        ValueAll-staged all k (subst (Memᴰ k) (ap (λ s. s.deps) (sym node)) m)

    -- It makes a graph if something was staged and every staged node has a value.
    pub build_valued : b.staging ≢ [] → (dag : Dag K O E) × (build eq b ≡ ok dag)
    build_valued some_node =
        build-total some_node
          (λ i s k at m. let (v, value) = valued i s at in deps_staged i s at value k m)
