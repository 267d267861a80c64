-- ===== src/Exec/Sequential/Valued.antt =====
-- Where a node's value was computed, its dependencies have values.
use mathlib.Core.List.Memᴰ
use mathlib.Core.Logic.{⊎_elim}
use rust_dag_executor.Prelude.{
  ◌≡◌, sym, ap, ◌∙◌, subst, List, [], ◌∷◌, ◌++◌, true, none, inl, inr, Option-cases, Memᴰ, is_some,
  get_or_of_eq-some,
}
use rust_dag_executor.Prelude.Outcome.{
  Outcome, done, ◌>>=◌, index, each, or_fail, Partial, Partial-bind, Partial-mono, Partial-done,
  Partial-all, index-done,
}
use rust_dag_executor.Error.{ExecError, internal_invariant}
use rust_dag_executor.Graph.{NodeId, Node, Dag}
use rust_dag_executor.Graph.Semantics.{NodeAt}
use rust_dag_executor.Graph.Values.{NodeKind-cases}
use rust_dag_executor.Graph.WellFormed.{IsClosed}
use rust_dag_executor.Exec.Common.{NodeValues}
use rust_dag_executor.Exec.Scheduling.{collect_args}
use rust_dag_executor.Exec.Scheduling.Waiting.{has_value}
use rust_dag_executor.Exec.Sequential.{run_task, compute}

module _ {K O E : Type 0} (dag : Dag K O E) (wf : IsClosed dag) where
  abbrev pub Valued : NodeValues O → List NodeId → Type 0
  Valued vals ds = (d : NodeId) → Memᴰ d ds → has_value vals d ≡ true

  abbrev arg_round : NodeValues O → List O → NodeId → Outcome (ExecError K E) (List O)
  arg_round vals args dep = do
    slot ← index vals dep
    v ← or_fail slot (internal_invariant "dep missing during exec")
    done (args ++ v ∷ [])

  arg_round-Valued :
      (vals : NodeValues O) (args : List O) (dep : NodeId)
      → Partial (λ _. has_value vals dep ≡ true) (arg_round vals args dep)
  arg_round-Valued vals args dep =
      Partial-bind (λ _. has_value vals dep ≡ true) (index vals dep) _
        λ slot e. elim (Option-cases slot) [
          | inl missing ↦ rw missing tt
          | inr (v, there) ↦ rw there (
              ap is_some (
                get_or_of_eq-some vals dep none (index-done {X = ExecError K E} vals dep e)
                ∙ there))
        ]

  -- Where the arguments were collected the dependencies have values.
  args-Valued :
      (vals : NodeValues O) (ds : List NodeId) (args : List O)
      → Partial (λ _. Valued vals ds) (each (arg_round vals) args ds)
  unfolding each
  args-Valued vals [] args = λ d m. absurd (Memᴰ.not-nil m)
  args-Valued vals (x ∷ ds) args =
      Partial-bind (λ _. Valued vals (x ∷ ds)) (arg_round vals args x) _
        λ args' e.
          let here =
            Partial-done (λ _. has_value vals x ≡ true) (arg_round vals args x)
              (arg_round-Valued vals args x) e in
          Partial-mono (λ _. Valued vals ds) (λ _. Valued vals (x ∷ ds))
            (each (arg_round vals) args' ds) (args-Valued vals ds args')
            λ _ rest d m.
              ⊎_elim (λ same. subst (λ d. has_value vals d ≡ true) (sym same) here) (rest d)
                (Memᴰ.cases_cons m)

  pub compute-Valued :
      (vals : NodeValues O) (id : NodeId) (node : Node K O E)
      → NodeAt dag id node
      → Partial (λ _. Valued vals node.deps) (compute dag node.key node.deps vals node.kind)
  unfolding compute collect_args
  compute-Valued vals id node at = elim (NodeKind-cases node.kind) [
    | inl (v, e) ↦
        rw (e, compute) (λ d m. absurd (Memᴰ.not-nil (subst (Memᴰ d) (wf.source_leaf id at e) m)))
    | inr (f, e) ↦
        rw (e, compute)
          (Partial-bind (λ _. Valued vals node.deps) (collect_args dag vals node.deps) _
            λ args h.
              Partial-all (λ _. Valued vals node.deps) (run_task node.key (f args))
                λ _.
                  Partial-done (λ _. Valued vals node.deps) (each (arg_round vals) [] node.deps)
                    (args-Valued vals node.deps []) h)
  ]
