-- ===== src/Builder/Named.antt =====
-- A program that stages one node after another under keys made from names: what holds after each
-- call, where the names staged so far are those of a predicate.
use rust_dag_executor.Prelude.{
  ◌≡◌, ◌≢◌, refl, sym, ap, ◌∙◌, subst, ◌⊎◌, List, [], ◌∷◌, some, inl, inr, map, ℕ, length,
  get_elem?, get_elem?-append_last, get_elem?-append_cases,
}
use rust_dag_executor.Prelude.HashMap.{get, get-insert_cases}
use rust_dag_executor.Prelude.Result.{Result, ok, err}
use rust_dag_executor.Prelude.Outcome.{Outcome, done, fail, Ensures}
use rust_dag_executor.Prelude.Each.{Each, nil, cons}
use rust_dag_executor.Error.{BuildError}
use rust_dag_executor.Graph.{TaskFn, Dag}
use rust_dag_executor.Builder.{
  staged_source, staged_task, StagedNode, DagBuilder, new, add_source, add_task, build,
}
use rust_dag_executor.Builder.Staging.{Built, staged, insert_node_lem, Built-IsConsistent}
use rust_dag_executor.Builder.Values
use rust_dag_executor.Builder.Values.{
  Value, ValueAll, of_source, of_task, staged-Value, staged-ValueAll, build_valued,
}

-- `b.method(...)?`: the builder goes on if the call succeeds.
abbrev pub attempt :
    {K O E : Type 0}
    → DagBuilder K O E × Result (Unit {0}) (BuildError K)
    → Outcome (BuildError K) (DagBuilder K O E)
attempt (b, ok _) = done b
attempt (b, err e) = fail e

module _ {K O E N : Type 0} (eq : Discrete K) (text : N → K)
    (text_injective : (n m : N) → text n ≡ text m → n ≡ m) (value : N → O)
    (Source : N → Type 0) where
  -- The builder `b` has staged the names of `D`, each with its value, sources only under names of
  -- `Source`.
  pub record Stages (D : N → Type 0) (b : DagBuilder K O E) : Type 0 where
    pub built : Built eq b
    pub sound : (k : K) (i : ℕ) → get eq b.index k ≡ some i → (n : N) × D n × (text n ≡ k)
    pub valued : (n : N) → D n → Value b (text n) (value n)
    pub sources :
        (i : ℕ) (s : StagedNode K O E) (v : O)
        → get_elem? b.staging i ≡ some s
        → s.kind ≡ staged_source v
        → (n : N) × Source n × (text n ≡ s.key)

  pub new-Stages : {D : N → Type 0} → ((n : N) → D n → ⊥) → Stages D new
  unfolding get
  new-Stages none_yet = record {
    built = Built.fresh;
    sound = λ k i h. cc;
    valued = λ n d. absurd (none_yet n d);
    sources = λ i s v at e. cc;
  }

  -- A predicate may be replaced by an equivalent one.
  pub Stages-same :
      {D D' : N → Type 0} {b : DagBuilder K O E}
      → ((n : N) → D n → D' n)
      → ((n : N) → D' n → D n)
      → Stages D b
      → Stages D' b
  Stages-same there back h = record {
    built = h.built;
    sound = λ k i found. let (n, d, e) = h.sound k i found in (n, there n d, e);
    valued = λ n d. h.valued n (back n d);
    sources = h.sources;
  }

  ValueAll-names :
      {D : N → Type 0} {b : DagBuilder K O E}
      → Stages D b
      → (ns : List N) → Each D ns
      → ValueAll b (map text ns) (map value ns)
  ValueAll-names h [] nil = Values.nil
  ValueAll-names h (n ∷ ns) (cons d ds) = Values.cons (h.valued n d) (ValueAll-names h ns ds)

  module _ {D D' : N → Type 0} (n : N) (fresh : D n → ⊥) (keep : (m : N) → D m → D' m)
      (added : D' n) (split : (m : N) → D' m → D m ⊎ (m ≡ n)) (b : DagBuilder K O E)
      (h : Stages D b) where
    unused : (i : ℕ) → get eq b.index (text n) ≢ some i
    unused i found =
        let (m, d, e) = h.sound (text n) i found in fresh (subst D (text_injective m n e) d)

    module _ (node : StagedNode K O E) (named : node.key ≡ text n) where
      staged-Stages :
          Built eq (staged eq b node)
          → Value (staged eq b node) (text n) (value n)
          → ((v : O) → node.kind ≡ staged_source v → Source n)
          → Stages D' (staged eq b node)
      staged-Stages built here is = record {
        built = built;
        sound = λ k i found.
            elim (get-insert_cases eq b.index node.key (length b.staging) k found) [
              | inl (p, _) ↦ (n, added, sym named ∙ p)
              | inr (_, old) ↦ let (m, d, e) = h.sound k i old in (m, keep m d, e)
            ];
        valued = λ m d. elim (split m d) [
          | inl old ↦ staged-Value eq b node (h.valued m old)
          | inr same ↦ subst (λ m. Value (staged eq b node) (text m) (value m)) (sym same) here
        ];
        sources = λ i s v at e. elim (get_elem?-append_cases b.staging node i at) [
          | inl old ↦ h.sources i s v old e
          | inr (_, same) ↦ (n, is v (ap (λ s. s.kind) same ∙ e), sym named ∙ ap (λ s. s.key) same)
        ];
      }

    pub add_source-Stages :
        Source n → Ensures (Stages D') (λ _. ⊥) (attempt (add_source eq b (text n) (value n)))
    unfolding add_source
    add_source-Stages is = elim (insert_node_lem eq b (text n) [] (staged_source (value n))) [
      | inl (i, found, _) ↦ absurd (unused i found)
      | inr (_, e, _) ↦ rw e (
          staged-Stages _ refl
            (subst (Built eq) (ap (λ r. r.0) e) (Built.with_source h.built (text n) (value n)))
            (of_source (length b.staging) _ (get_elem?-append_last b.staging _) refl refl)
            (λ v _. is))
    ]

    -- A task is staged under a new name: its dependencies are staged, and it returns its value at
    -- theirs.
    pub add_task-Stages :
        (ns : List N) (f : TaskFn O E)
        → Each D ns
        → f (map value ns) ≡ ok (value n)
        → Ensures (Stages D') (λ _. ⊥) (attempt (add_task eq b (text n) (map text ns) f))
    unfolding add_task
    add_task-Stages ns f ready r =
        elim (insert_node_lem eq b (text n) (map text ns) (staged_task f)) [
          | inl (i, found, _) ↦ absurd (unused i found)
          | inr (_, e, _) ↦ rw e (
              staged-Stages _ refl
                (subst (Built eq) (ap (λ r. r.0) e)
                  (Built.with_task h.built (text n) (map text ns) f))
                (of_task (length b.staging) _ (get_elem?-append_last b.staging _) refl refl
                  (staged-ValueAll eq b _ (ValueAll-names h ns ready)) r)
                (λ v e. cc))
        ]

  -- A builder with a name staged becomes a graph.
  pub Stages-build :
      {D : N → Type 0} (b : DagBuilder K O E)
      → Stages D b
      → (n : N) → D n
      → (dag : Dag K O E) × (build eq b ≡ ok dag)
  Stages-build {D} b h n d = build_valued eq b h.built valued (some_node (h.valued n d))
    where
      some_node : Value b (text n) (value n) → b.staging ≢ []
      some_node (of_source i s at _ _) e = cc
      some_node (of_task i s at _ _ _ _) e = cc

      valued :
          (i : ℕ) (s : StagedNode K O E)
          → get_elem? b.staging i ≡ some s
          → (v : O) × Value b s.key v
      valued i s at =
          let (m, d, e) = h.sound s.key i ((Built-IsConsistent eq h.built).full i s at) in
          (value m, subst (λ k. Value b k (value m)) e (h.valued m d))

  -- A name that is not one of a source has no source staged under it.
  pub Stages-IsTask :
      {D : N → Type 0} {b : DagBuilder K O E}
      → Stages D b
      → (n : N) → (Source n → ⊥)
      → (i : ℕ) (s : StagedNode K O E) (v : O) → get_elem? b.staging i ≡ some s
      → s.key ≡ text n
      → s.kind ≢ staged_source v
  Stages-IsTask h n is_task i s v at named is =
      let (m, source, e) = h.sources i s v at is in
      is_task (subst Source (text_injective m n (e ∙ named)) source)
