-- ===== src/Builder/Resolve.antt =====
-- The two loops of `build`: `key_to_id` finds the place of every staged key, and each dependency
-- key is replaced by what it finds there, or reported.
use mathlib.Core.List.{Memᴰ}
use mathlib.Core.List.Memᴰ
use rust_dag_executor.Prelude.{
  ℕ, zero, suc, ◌+◌, ◌≡◌, ◌≢◌, refl, sym, ap, ◌∙◌, subst, ◌⊎◌, List, [], ◌∷◌, none, some, inl, inr,
  arith, get_elem?, Option-cases,
}
use rust_dag_executor.Prelude.HashMap.{
  HashMap, get, insert, get-insert_self, get-insert_ne, get-insert_cases,
}
use rust_dag_executor.Prelude.Result.{ok, err, >>=-eq-ok, >>=-eq-err}
use rust_dag_executor.Error.{BuildError, missing_dependency}
use rust_dag_executor.Graph.{NodeId, Node}
use rust_dag_executor.Builder.{StagedNode, compile_kind, assign_ids, resolve_deps, resolve_nodes}

module _ {K O E : Type 0} (eq : Discrete K) where
  abbrev Absent : K → List (StagedNode K O E) → Type 0
  Absent k ss = (j : ℕ) (s : StagedNode K O E) → get_elem? ss j ≡ some s → s.key ≢ k

  get-assign_ids-Absent :
      (i : ℕ) (ss : List (StagedNode K O E)) (m : HashMap K NodeId) (k : K)
      → Absent k ss
      → get eq (assign_ids eq i ss m) k ≡ get eq m k
  unfolding assign_ids
  get-assign_ids-Absent i [] m k away = refl
  get-assign_ids-Absent i (x ∷ ss) m k away =
      get-assign_ids-Absent (suc i) ss (insert eq m x.key i) k (λ j s. away (suc j) s)
      ∙ get-insert_ne eq m x.key i (away zero x refl)

  -- With distinct keys `key_to_id` sends each staged key to the place of its node.
  pub get-assign_ids :
      (i : ℕ) (ss : List (StagedNode K O E)) (m : HashMap K NodeId)
      → ((j l : ℕ) (s t : StagedNode K O E)
          → get_elem? ss j ≡ some s
          → get_elem? ss l ≡ some t
          → s.key ≡ t.key
          → j ≡ l)
      → (j : ℕ) (s : StagedNode K O E) → get_elem? ss j ≡ some s
      → get eq (assign_ids eq i ss m) s.key ≡ some (i + j)
  unfolding assign_ids
  get-assign_ids i [] m distinct j s at = cc
  get-assign_ids i (x ∷ ss) m distinct zero s at =
      let same : x ≡ s = cc in
      let here : i ≡ i + 0 = omega arith in
      get-assign_ids-Absent (suc i) ss (insert eq m x.key i) s.key
        (λ j t found e. absurd (omega (arith, distinct (suc j) zero t s found at e)))
      ∙ get-insert_self eq m x.key i (ap (λ s. s.key) same)
      ∙ ap some here
  get-assign_ids i (x ∷ ss) m distinct (suc j) s at =
      let here : suc i + j ≡ i + suc j = omega arith in
      get-assign_ids (suc i) ss (insert eq m x.key i)
        (λ j l s t p q e. omega (arith, distinct (suc j) (suc l) s t p q e)) j s at
      ∙ ap some here

  -- It has no other keys than the staged ones.
  pub assign_ids_sound :
      (i : ℕ) (ss : List (StagedNode K O E)) (m : HashMap K NodeId) (k : K) (l : ℕ)
      → get eq (assign_ids eq i ss m) k ≡ some l
      → ((j : ℕ) × (s : StagedNode K O E) × (get_elem? ss j ≡ some s) × (s.key ≡ k) × (l ≡ i + j))
        ⊎ (get eq m k ≡ some l)
  unfolding assign_ids
  assign_ids_sound i [] m k l h = inr h
  assign_ids_sound i (x ∷ ss) m k l h =
      elim (assign_ids_sound (suc i) ss (insert eq m x.key i) k l h) [
        | inl (j, s, at, named, e) ↦ inl (suc j, s, at, named, omega arith)
        | inr old ↦ elim (get-insert_cases eq m x.key i k old) [
          | inl (p, here) ↦ inl (zero, x, refl, p, omega arith)
          | inr (_, before) ↦ inr before
        ]
      ]

module _ {K : Type 0} (eq : Discrete K) (m : HashMap K NodeId) where
  -- The keys lead to these identifiers, in order.
  abbrev pub LeadTo : List K → List NodeId → Type 0
  LeadTo [] [] = Unit
  LeadTo (k ∷ ks) (i ∷ is) = (get eq m k ≡ some i) × LeadTo ks is
  LeadTo _ _ = ⊥

  pub LeadTo-source :
      (ks : List K) (is : List NodeId) {i : NodeId}
      → LeadTo ks is
      → Memᴰ i is
      → (k : K) × (get eq m k ≡ some i)
  LeadTo-source [] [] l at = absurd (Memᴰ.not-nil at)
  LeadTo-source [] (j ∷ is) l at = absurd l
  LeadTo-source (k ∷ ks) [] l at = absurd l
  LeadTo-source (k ∷ ks) (j ∷ is) l at = elim (Memᴰ.cases_cons at) [
    | inl here ↦ (k, l.0 ∙ ap some (sym here))
    | inr below ↦ LeadTo-source ks is l.1 below
  ]

  pub LeadTo-nil : (is : List NodeId) → LeadTo [] is → is ≡ []
  LeadTo-nil [] l = refl
  LeadTo-nil (i ∷ is) l = absurd l

  resolve_deps-eq-ok :
      (key : K) (ks : List K) (is : List NodeId) → resolve_deps eq m key ks ≡ ok is → LeadTo ks is
  unfolding resolve_deps
  resolve_deps-eq-ok key [] [] h = tt
  resolve_deps-eq-ok key [] (i ∷ is) h = cc
  resolve_deps-eq-ok key (k ∷ ks) [] h = ground arith
  resolve_deps-eq-ok key (k ∷ ks) (i ∷ is) h = ground (arith, resolve_deps-eq-ok key ks is)

  resolve_deps-eq-err :
      (key : K) (ks : List K) {x : BuildError K}
      → resolve_deps eq m key ks ≡ err x
      → (k : K) × Memᴰ k ks × (get eq m k ≡ none) × (x ≡ missing_dependency key k)
  unfolding resolve_deps
  resolve_deps-eq-err key [] h = cc
  resolve_deps-eq-err key (k ∷ ks) h = elim (Option-cases (get eq m k)) [
    | inl e ↦ (k, Memᴰ.head refl, e, ground arith)
    | inr (i, e) ↦
        let (d, at, lost, named) = resolve_deps-eq-err key ks (ground arith) in
        (d, Memᴰ.tail at, lost, named)
  ]

module _ {K O E : Type 0} (eq : Discrete K) (m : HashMap K NodeId) where
  -- What one staged node becomes.
  pub record Compiles (s : StagedNode K O E) (node : Node K O E) : Type 0 where
    pub key : node.key ≡ s.key
    pub kind : node.kind ≡ compile_kind s.kind
    pub deps : LeadTo eq m s.deps node.deps

  abbrev pub AllCompile : List (StagedNode K O E) → List (Node K O E) → Type 0
  AllCompile [] [] = Unit
  AllCompile (s ∷ ss) (node ∷ nodes) = Compiles s node × AllCompile ss nodes
  AllCompile _ _ = ⊥

  -- A result of the loop has the staged nodes in order, each with its dependencies resolved.
  pub resolve_nodes-eq-ok :
      (ss : List (StagedNode K O E)) (nodes : List (Node K O E))
      → resolve_nodes eq m ss ≡ ok nodes
      → AllCompile ss nodes
  unfolding resolve_nodes
  resolve_nodes-eq-ok [] [] h = tt
  resolve_nodes-eq-ok [] (n ∷ nodes) h = cc
  resolve_nodes-eq-ok (s ∷ ss) nodes h =
      let (dep_ids, resolved, h') = >>=-eq-ok (resolve_deps eq m s.key s.deps) _ h in
      let (rest, compiled, h'') = >>=-eq-ok (resolve_nodes eq m ss) _ h' in
      let node : Node K O E = record { key = s.key; deps = dep_ids; kind = compile_kind s.kind } in
      let whole : node ∷ rest ≡ nodes = cc in
      subst (AllCompile (s ∷ ss)) whole (
        record {
          key = refl;
          kind = refl;
          deps = resolve_deps-eq-ok eq m s.key s.deps dep_ids resolved;
        },
        resolve_nodes-eq-ok ss rest compiled,
      )

  -- An error names a staged task and a key of its dependencies that was not staged.
  pub resolve_nodes-eq-err :
      (ss : List (StagedNode K O E)) {x : BuildError K}
      → resolve_nodes eq m ss ≡ err x
      → (s : StagedNode K O E) × (k : K) × Memᴰ s ss
        × Memᴰ k s.deps
        × (get eq m k ≡ none)
        × (x ≡ missing_dependency s.key k)
  unfolding resolve_nodes
  resolve_nodes-eq-err [] h = cc
  resolve_nodes-eq-err (s ∷ ss) h = elim (>>=-eq-err (resolve_deps eq m s.key s.deps) _ h) [
    | inl e ↦
        let (k, at, lost, named) = resolve_deps-eq-err eq m s.key s.deps e in
        (s, k, Memᴰ.head refl, at, lost, named)
    | inr (dep_ids, _, h') ↦ elim (>>=-eq-err (resolve_nodes eq m ss) _ h') [
      | inl e ↦
          let (t, k, here, at, lost, named) = resolve_nodes-eq-err ss e in
          (t, k, Memᴰ.tail here, at, lost, named)
      | inr (_, _, impossible) ↦ cc
    ]
  ]

  pub AllCompile-staged :
      (ss : List (StagedNode K O E)) (nodes : List (Node K O E)) (i : ℕ) {node : Node K O E}
      → AllCompile ss nodes
      → get_elem? nodes i ≡ some node
      → (s : StagedNode K O E) × (get_elem? ss i ≡ some s) × Compiles s node
  AllCompile-staged [] [] i c at = cc
  AllCompile-staged [] (n ∷ nodes) i c at = absurd c
  AllCompile-staged (s ∷ ss) [] i c at = absurd c
  AllCompile-staged (s ∷ ss) (n ∷ nodes) zero c at =
      let same : n ≡ _ = cc in (s, refl, subst (Compiles s) same c.0)
  AllCompile-staged (s ∷ ss) (n ∷ nodes) (suc i) c at = AllCompile-staged ss nodes i c.1 at

  pub AllCompile-compiled :
      (ss : List (StagedNode K O E)) (nodes : List (Node K O E)) (i : ℕ) {s : StagedNode K O E}
      → AllCompile ss nodes
      → get_elem? ss i ≡ some s
      → (node : Node K O E) × (get_elem? nodes i ≡ some node) × Compiles s node
  AllCompile-compiled [] [] i c at = cc
  AllCompile-compiled [] (n ∷ nodes) i c at = absurd c
  AllCompile-compiled (s ∷ ss) [] i c at = absurd c
  AllCompile-compiled (s ∷ ss) (n ∷ nodes) zero c at =
      let same : s ≡ _ = cc in (n, refl, subst (λ t. Compiles t n) same c.0)
  AllCompile-compiled (s ∷ ss) (n ∷ nodes) (suc i) c at = AllCompile-compiled ss nodes i c.1 at
