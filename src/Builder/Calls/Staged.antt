-- ===== src/Builder/Calls/Staged.antt =====
-- builder.rs: what one call of a builder does to the node under a key.
use rust_dag_executor.Prelude.{
  ℕ, ◌≡◌, refl, sym, ap, ◌∙◌, List, [], ◌∷◌, ◌++◌, Option, none, some, inl, inr, length,
  get_elem?-append_last, get_elem?-append_left, Option-cases, ite, ◌⊎◌, ◌≢◌,
}
use mathlib.Core.Logic.{if_pos, if_neg}
use rust_dag_executor.Prelude.HashMap.{get, get-insert_self, get-insert_ne}
use rust_dag_executor.Prelude.Result.{ok, err}
use rust_dag_executor.Error.{duplicate_key}
use rust_dag_executor.Builder.{StagedNode, DagBuilder, insert_node, add_source, add_task}
use rust_dag_executor.Builder.Staging.{IsConsistent, Built, staged, insert_node_lem}
use rust_dag_executor.Builder.Calls.{
  Call, source_call, task_call, node_of, perform, at_place, staged_at, first_call,
}

-- The first of two that is there.
abbrev pub or_else : {A : Type 0} → Option A → Option A → Option A
or_else none y = y
or_else (some a) y = some a

or_else-ite :
    {A P : Type 0} (d : Dec P) (a : A) (x y : Option A)
    → ite d (some a) (or_else x y) ≡ or_else (ite d (some a) x) y
or_else-ite (yes p) a x y = refl
or_else-ite (no p) a x y = refl

or_else-none : {A : Type 0} (x : Option A) → or_else x none ≡ x
or_else-none none = refl
or_else-none (some a) = refl

module _ {K O E : Type 0} (eq : Discrete K) where
  perform-insert_node :
      (b : DagBuilder K O E) (c : Call K O E)
      → perform eq b c ≡ insert_node eq b (node_of c).key (node_of c).deps (node_of c).kind
  unfolding add_source add_task
  perform-insert_node b (source_call key value) = refl
  perform-insert_node b (task_call key deps f) = refl

  pub perform-Built :
      (b : DagBuilder K O E) (c : Call K O E) → Built eq b → Built eq (perform eq b c).0
  perform-Built b (source_call key value) built = Built.with_source built key value
  perform-Built b (task_call key deps f) built = Built.with_task built key deps f

  pub first_call-append :
      (k : K) (calls : List (Call K O E)) (c : Call K O E)
      → first_call eq k (calls ++ c ∷ [])
        ≡ or_else (first_call eq k calls) (ite (eq (node_of c).key k) (some (node_of c)) none)
  first_call-append k [] c = refl
  first_call-append k (d ∷ calls) c =
      ap (ite (eq (node_of d).key k) (some (node_of d))) (first_call-append k calls c)
      ∙ or_else-ite (eq (node_of d).key k) (node_of d) (first_call eq k calls)
          (ite (eq (node_of c).key k) (some (node_of c)) none)

  -- A key with a place leads to a node.
  staged_at-some :
      (b : DagBuilder K O E)
      → IsConsistent eq b
      → (k : K) (i : ℕ) → get eq b.index k ≡ some i
      → (s : StagedNode K O E) × (staged_at eq b k ≡ some s)
  staged_at-some b h k i e = let (s, at, _) = h.sound k i e in (s, ap (at_place b) e ∙ at)

  pub perform_cases :
      (b : DagBuilder K O E) (c : Call K O E)
      → IsConsistent eq b
      → ((s : StagedNode K O E) × (staged_at eq b (node_of c).key ≡ some s)
          × (perform eq b c ≡ (b, err (duplicate_key (node_of c).key))))
        ⊎ ((get eq b.index (node_of c).key ≡ none)
            × (perform eq b c ≡ (staged eq b (node_of c), ok tt)))
  perform_cases b c h =
      elim (insert_node_lem eq b (node_of c).key (node_of c).deps (node_of c).kind) [
        | inl (i, e, same) ↦
            let (s, at) = staged_at-some b h (node_of c).key i e in
            inl (s, at, perform-insert_node b c ∙ same)
        | inr (e, same, _) ↦ inr (e, perform-insert_node b c ∙ same)
      ]

  -- Staging a node under a new key.
  staged_at-staged_self :
      (b : DagBuilder K O E) (n : StagedNode K O E) → staged_at eq (staged eq b n) n.key ≡ some n
  staged_at-staged_self b n =
      ap (at_place (staged eq b n)) (get-insert_self eq b.index n.key (length b.staging) refl)
      ∙ get_elem?-append_last b.staging n

  staged_at-staged_ne :
      (b : DagBuilder K O E) (n : StagedNode K O E)
      → IsConsistent eq b
      → (k : K) → n.key ≢ k
      → staged_at eq (staged eq b n) k ≡ staged_at eq b k
  staged_at-staged_ne b n h k other =
      ap (at_place (staged eq b n)) (get-insert_ne eq b.index n.key (length b.staging) other)
      ∙ elim (Option-cases (get eq b.index k)) [
        | inl e ↦ ap (at_place (staged eq b n)) e ∙ sym (ap (at_place b) e)
        | inr (i, e) ↦
            let (s, at, _) = h.sound k i e in
            ap (at_place (staged eq b n)) e
            ∙ get_elem?-append_left b.staging (n ∷ []) i at
            ∙ sym (ap (at_place b) e ∙ at)
      ]

  abbrev pub offered : Call K O E → K → Option (StagedNode K O E)
  offered c k = ite (eq (node_of c).key k) (some (node_of c)) none

  offered_self : (c : Call K O E) (k : K) → (node_of c).key ≡ k → offered c k ≡ some (node_of c)
  offered_self c k p = if_pos (eq (node_of c).key k) p _ _

  or_else-offered :
      (c : Call K O E) (k : K) (x : Option (StagedNode K O E))
      → (node_of c).key ≢ k
      → or_else x (offered c k) ≡ x
  or_else-offered c k x other =
      ap (or_else x) (if_neg (eq (node_of c).key k) other _ _) ∙ or_else-none x

  -- A call adds its node under its key, unless there is one.
  pub staged_at-perform :
      (b : DagBuilder K O E) (c : Call K O E) (k : K)
      → IsConsistent eq b
      → staged_at eq (perform eq b c).0 k ≡ or_else (staged_at eq b k) (offered c k)
  staged_at-perform b c k h = elim (perform_cases b c h) [
    | inl (s, at, same) ↦ ap (λ r. staged_at eq r.0 k) same ∙ elim (eq (node_of c).key k) [
      | yes p ↦
          let there : staged_at eq b k ≡ some s = ap (staged_at eq b) (sym p) ∙ at in
          there ∙ sym (ap (λ x. or_else x (offered c k)) there)
      | no p ↦ sym (or_else-offered c k (staged_at eq b k) p)
    ]
    | inr (e, same) ↦ ap (λ r. staged_at eq r.0 k) same ∙ elim (eq (node_of c).key k) [
      | yes p ↦
          let missing : staged_at eq b k ≡ none =
            ap (λ k. at_place b (get eq b.index k)) (sym p) ∙ ap (at_place b) e in
          ap (staged_at eq (staged eq b (node_of c))) (sym p)
          ∙ staged_at-staged_self b (node_of c)
          ∙ sym (ap (λ x. or_else x (offered c k)) missing ∙ offered_self c k p)
      | no p ↦
          staged_at-staged_ne b (node_of c) h k p ∙ sym (or_else-offered c k (staged_at eq b k) p)
    ]
  ]
