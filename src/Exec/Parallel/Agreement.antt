-- ===== src/Exec/Parallel/Agreement.antt =====
-- The parallel executor against the sequential one.
use rust_dag_executor.Prelude.{
  ◌≡◌, refl, sym, ap, ◌∙◌, subst, List, [], some, inl, inr, Option-cases,
}
use rust_dag_executor.Prelude.HashMap.{HashMap, get}
use rust_dag_executor.Prelude.Outcome.{done, fail, Allows}
use rust_dag_executor.Error.{internal_invariant}
use rust_dag_executor.Graph.{NodeId, ExecutorConfig, Dag}
use rust_dag_executor.Graph.Semantics.{Needed, Eval}
use rust_dag_executor.Graph.Values.{Needed-Eval, Eval-unique, Eval-Acc, not-Fails_of_Eval}
use rust_dag_executor.Graph.WellFormed.{IsWellFormed}
use rust_dag_executor.Exec.Common.Collect.{IsAnswer}
use rust_dag_executor.Exec.Sequential.Requests.{run_answers}
use rust_dag_executor.Exec.Executor.{new, run_sequential, run_parallel}
use rust_dag_executor.Exec.Parallel
use rust_dag_executor.Exec.Parallel.{Actor, run_with_observer}
use rust_dag_executor.Exec.Parallel.Requests.{IsParallelError, run_parallel_lem}

module _ {K O E : Type 0} (eq : Discrete K) (dag : Dag K O E) (wf : IsWellFormed eq dag) where
  -- So all that a request needs has a value, once the outputs have.
  pub Needed-value :
      (outputs : List K) (out : HashMap K O)
      → IsAnswer eq dag outputs out
      → {i : NodeId} → Needed dag eq outputs i
      → (v : O) × Eval dag i v
  Needed-value outputs out a = Needed-Eval dag wf.closed eq outputs λ i (k, m, at).
      let (v, found) = a.full k m in
      let (_, j, at', value) = a.sound k v found in
      let same : j ≡ i = cc in (v, subst (λ i. Eval dag i v) same value)

  -- Two answers to one request have the same values.
  pub lookups_agree :
      (outputs : List K) (out out' : HashMap K O)
      → IsAnswer eq dag outputs out
      → IsAnswer eq dag outputs out'
      → (k : K) → get eq out k ≡ get eq out' k
  lookups_agree outputs out out' a a' k = elim (Option-cases (get eq out k)) [
    | inl e ↦ elim (Option-cases (get eq out' k)) [
      | inl e' ↦ e ∙ sym e'
      | inr (v', e') ↦ let (v, found) = a.full k (a'.sound k v' e').0 in cc
    ]
    | inr (v, e) ↦
        let (asked, i, at, value) = a.sound k v e in
        let (v', found') = a'.full k asked in
        let (_, i', at', value') = a'.sound k v' found' in
        let same : i' ≡ i = cc in
        e ∙ ap some (Eval-unique dag value (subst (λ i. Eval dag i v') same value')) ∙ sym found'
  ]

  module _ (cfg : ExecutorConfig) (schedule : List Actor) where
    run_parallel-nil :
        Parallel.run eq dag cfg schedule [] ≡ fail (internal_invariant "outputs must be non-empty")
    unfolding Parallel.run run_with_observer
    run_parallel-nil = refl

    -- On a well-formed graph, where the parallel executor answers a request under some schedule, the
    -- sequential one answers it, and finds the same under every key.
    pub run_parallel_agrees :
        (outputs : List K) (out : HashMap K O)
        → run_parallel eq (new cfg) dag schedule outputs ≡ done out
        → (out' : HashMap K O) × (run_sequential eq (new cfg) dag outputs ≡ done out')
          × ((k : K) → get eq out k ≡ get eq out' k)
    run_parallel_agrees outputs out h =
        let a : IsAnswer eq dag outputs out =
          subst (Allows (IsAnswer eq dag outputs) (IsParallelError eq dag cfg outputs)) h
            (run_parallel_lem eq dag cfg outputs wf schedule) in
        let (out', h', a') =
          run_answers eq dag wf outputs
            (λ empty. cc (run_parallel-nil, ap (Parallel.run eq dag cfg schedule) empty))
            (λ k m lost. let (v, found) = a.full k m in let (_, i, at, _) = a.sound k v found in cc)
            (λ i n. Eval-Acc dag wf.closed (Needed-value outputs out a n).1)
            (λ i e n f. not-Fails_of_Eval dag (Needed-value outputs out a n).1 f) in
        (out', h', lookups_agree outputs out out' a a')
