-- ===== src/Builder/Calls/First.antt =====
-- builder.rs: a builder after any sequence of calls keeps the first node of each key.
use rust_dag_executor.Prelude.{
  ◌≡◌, refl, sym, ap, ◌∙◌, subst, List, [], ◌∷◌, ◌++◌, inl, inr, is_some, Option-cases,
  if◌then◌else◌,
}
use mathlib.Core.List.{append-nil, append_assoc}
use rust_dag_executor.Prelude.HashMap.{get}
use rust_dag_executor.Builder.{DagBuilder, new}
use rust_dag_executor.Builder.Staging.{Built, Built-IsConsistent}
use rust_dag_executor.Builder.Calls.{
  Call, node_of, perform, perform_all, at_place, staged_at, first_call, first_calls, answer,
}
use rust_dag_executor.Builder.Calls.Staged.{
  or_else, offered, first_call-append, perform-Built, perform_cases, staged_at-perform,
}

module _ {K O E : Type 0} (eq : Discrete K) where
  -- The builder `b` is what the calls make of an empty one.
  record Shows (calls : List (Call K O E)) (b : DagBuilder K O E) : Type 0 where
    built : Built eq b
    lookups : (k : K) → staged_at eq b k ≡ first_call eq k calls

  perform-Shows :
      (before : List (Call K O E)) (b : DagBuilder K O E) (c : Call K O E)
      → Shows before b
      → Shows (before ++ c ∷ []) (perform eq b c).0
  perform-Shows before b c h = record {
    built = perform-Built eq b c h.built;
    lookups = λ k.
        staged_at-perform eq b c k (Built-IsConsistent eq h.built)
        ∙ ap (λ x. or_else x (offered eq c k)) (h.lookups k)
        ∙ sym (first_call-append eq k before c);
  }

  perform_all-Shows :
      (before calls : List (Call K O E)) (b : DagBuilder K O E)
      → Shows before b
      → Shows (before ++ calls) (perform_all eq b calls)
  perform_all-Shows before [] b h = subst (λ cs. Shows cs b) (sym (append-nil before)) h
  perform_all-Shows before (c ∷ calls) b h =
      subst (λ cs. Shows cs (perform_all eq b (c ∷ calls))) (append_assoc before (c ∷ []) calls)
        (perform_all-Shows (before ++ c ∷ []) calls (perform eq b c).0 (perform-Shows before b c h))

  new-Shows : Shows [] new
  unfolding get
  new-Shows = record { built = Built.fresh; lookups = λ k. refl }

  perform-answer :
      (before : List (Call K O E)) (b : DagBuilder K O E) (c : Call K O E)
      → Shows before b
      → (perform eq b c).1 ≡ answer c (first_call eq (node_of c).key before)
  perform-answer before b c h =
      let shown = h.lookups (node_of c).key in
      elim (perform_cases eq b c (Built-IsConsistent eq h.built)) [
        | inl (s, at, same) ↦ ap (λ r. r.1) same ∙ ap (answer c) (sym at ∙ shown)
        | inr (e, same) ↦ ap (λ r. r.1) same ∙ ap (answer c) (sym (ap (at_place b) e) ∙ shown)
      ]

  perform-staging :
      (before : List (Call K O E)) (b : DagBuilder K O E) (c : Call K O E)
      → Shows before b
      → (perform eq b c).0.staging
        ≡ b.staging
          ++ (if is_some (first_call eq (node_of c).key before) then [] else node_of c ∷ [])
  perform-staging before b c h =
      let shown = h.lookups (node_of c).key in
      elim (perform_cases eq b c (Built-IsConsistent eq h.built)) [
        | inl (s, at, same) ↦
            ap (λ r. r.0.staging) same
            ∙ sym (append-nil b.staging)
            ∙ ap (λ x. b.staging ++ (if is_some x then [] else node_of c ∷ [])) (sym at ∙ shown)
        | inr (e, same) ↦
            ap (λ r. r.0.staging) same
            ∙ ap (λ x. b.staging ++ (if is_some x then [] else node_of c ∷ []))
                (sym (ap (at_place b) e) ∙ shown)
      ]

  first_calls-cons :
      (before : List (Call K O E)) (c : Call K O E) (calls : List (Call K O E))
      → first_calls eq before (c ∷ calls)
        ≡ (if is_some (first_call eq (node_of c).key before) then [] else node_of c ∷ [])
          ++ first_calls eq (before ++ c ∷ []) calls
  first_calls-cons before c calls = elim (Option-cases (first_call eq (node_of c).key before)) [
    | inl e ↦ rw e refl
    | inr (s, e) ↦ rw e refl
  ]

  perform_all-staging :
      (before calls : List (Call K O E)) (b : DagBuilder K O E)
      → Shows before b
      → (perform_all eq b calls).staging ≡ b.staging ++ first_calls eq before calls
  perform_all-staging before [] b h = sym (append-nil b.staging)
  perform_all-staging before (c ∷ calls) b h =
      perform_all-staging (before ++ c ∷ []) calls (perform eq b c).0 (perform-Shows before b c h)
      ∙ ap (◌++ first_calls eq (before ++ c ∷ []) calls) (perform-staging before b c h)
      ∙ append_assoc b.staging _ _
      ∙ ap (b.staging ++◌) (sym (first_calls-cons before c calls))

  -- After any sequence of calls, failed ones included, a builder has under every key the node of the
  -- first call with that key, and has staged these nodes in the order of their calls. The next call
  -- is refused if and only if its key was in an earlier one.
  pub perform_all_lem :
      (calls : List (Call K O E))
      → ((k : K) → staged_at eq (perform_all eq new calls) k ≡ first_call eq k calls)
        × ((perform_all eq new calls).staging ≡ first_calls eq [] calls)
        × ((c : Call K O E)
            → (perform eq (perform_all eq new calls) c).1
              ≡ answer c (first_call eq (node_of c).key calls))
  perform_all_lem calls =
      let shows = perform_all-Shows [] calls new new-Shows in
      (
        shows.lookups,
        perform_all-staging [] calls new new-Shows,
        λ c. perform-answer calls (perform_all eq new calls) c shows,
      )
