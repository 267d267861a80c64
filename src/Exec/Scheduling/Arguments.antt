-- ===== src/Exec/Scheduling/Arguments.antt =====
-- `collect_args` finds the values of dependencies that all have one.
use mathlib.Core.List.{append_assoc, append-nil}
use rust_dag_executor.Prelude.{
  ◌<◌, ◌≡◌, refl, sym, ap, ◌∙◌, List, [], ◌∷◌, ◌++◌, none, some, inl, inr, arith, length, Memᴰ,
  Option-cases,
}
use rust_dag_executor.Prelude.Outcome.{Outcome, done, ◌>>=◌, index, index-eq-done, or_fail, each}
use rust_dag_executor.Error.{ExecError, internal_invariant}
use rust_dag_executor.Graph.{NodeId, Dag}
use rust_dag_executor.Graph.Semantics.{Eval, EvalAll, nil, cons}
use rust_dag_executor.Exec.Common.{NodeValues}
use rust_dag_executor.Exec.Scheduling.{collect_args}
use rust_dag_executor.Exec.Scheduling.Waiting.{value_at, undone}

module _ {K O E : Type 0} (dag : Dag K O E) (vals : NodeValues O)
    (sound : (i : NodeId) (v : O) → value_at vals i ≡ some v → Eval dag i v) where
  abbrev arg_round : List O → NodeId → Outcome (ExecError K E) (List O)
  arg_round args dep = do
    slot ← index vals dep
    v ← or_fail slot (internal_invariant "dep missing during exec")
    done (args ++ v ∷ [])

  args_from :
      (ds : List NodeId) (args : List O)
      → ((d : NodeId) → Memᴰ d ds → d < length vals)
      → undone vals ds ≡ 0
      → (rest : List O) × EvalAll dag ds rest × (each arg_round args ds ≡ done (args ++ rest))
  unfolding each
  args_from [] args in_range free = ([], nil, ap done (sym (append-nil args)))
  args_from (d ∷ ds) args in_range free = elim (Option-cases (value_at vals d)) [
    | inl e ↦ absurd (ground arith)
    | inr (v, e) ↦
        let (rest, all, collected) =
          args_from ds (args ++ v ∷ []) (λ i m. in_range i (Memᴰ.tail m)) (ground arith) in
        (
          v ∷ rest,
          cons (sound d v e) all,
          rw (index-eq-done vals d none (in_range d (Memᴰ.head refl)), e)
              (collected ∙ ap done (append_assoc args (v ∷ []) rest)),
        )
  ]

  pub collect_args_lem :
      (ds : List NodeId)
      → ((d : NodeId) → Memᴰ d ds → d < length vals)
      → undone vals ds ≡ 0
      → (args : List O) × EvalAll dag ds args × (collect_args dag vals ds ≡ done args)
  unfolding collect_args
  collect_args_lem ds = args_from ds []
