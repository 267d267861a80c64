-- ===== src/Exec/Sequential/Requests.antt =====
-- What a caller of `run_sequential` can rely on.
use mathlib.Core.List.Memᴰ
use mathlib.Core.WellFounded.{Acc}
use rust_dag_executor.Prelude.{◌≡◌, ◌≢◌, sym, ap, ◌∙◌, subst, List, [], none, some, Memᴰ}
use rust_dag_executor.Prelude.HashMap.{HashMap, get}
use rust_dag_executor.Prelude.Outcome.{done, fail, Ensures-done, Ensures_fail, Ensures-total}
use rust_dag_executor.Error.{ExecError, cycle}
use rust_dag_executor.Graph.{NodeId, Dag}
use rust_dag_executor.Graph.Semantics.{Dep, Needed, Eval, Fails}
use rust_dag_executor.Graph.Values.{Eval-unique}
use rust_dag_executor.Graph.WellFormed.{IsWellFormed}
use rust_dag_executor.Exec.Common.Collect.{IsAnswer}
use rust_dag_executor.Exec.Scheduling.Finish.{IsCycle, not-Acc_of_IsCycle}
use rust_dag_executor.Exec.Sequential.{run}
use rust_dag_executor.Exec.Sequential.Correct.{
  IsExecError, no_outputs, missing, failure, cyclic, run_lem,
}

module _ {K O E : Type 0} (eq : Discrete K) (dag : Dag K O E) (wf : IsWellFormed eq dag) where
  -- A request for keys of the graph is answered if no needed node fails and none starts an endless
  -- chain of dependencies.
  pub run_answers :
      (outputs : List K)
      → outputs ≢ []
      → ((k : K) → Memᴰ k outputs → get eq dag.index k ≢ none)
      → ((i : NodeId) → Needed dag eq outputs i → Acc (Dep dag) i)
      → ((i : NodeId) (e : E) → Needed dag eq outputs i → Fails dag i e → ⊥)
      → (out : HashMap K O) × (run eq dag outputs ≡ done out) × IsAnswer eq dag outputs out
  run_answers outputs some_output known acyclic safe =
      Ensures-total (IsAnswer eq dag outputs) (IsExecError eq dag outputs) (run eq dag outputs)
        (run_lem eq dag outputs wf) never
    where
      never : (x : ExecError K E) → IsExecError eq dag outputs x → ⊥
      never x (no_outputs e _) = some_output e
      never x (missing (k, m, lost, _)) = known k m lost
      never x (failure f) = safe f.id f.error f.needed f.fails
      never x (cyclic keys c _) =
          let (i, r) = c.some_node in
          not-Acc_of_IsCycle eq dag outputs keys c i (acyclic i r.needed) r

  -- `Cycle` is reported only where a needed node starts an endless chain of dependencies, and it
  -- names such nodes only.
  pub run-cycle :
      (outputs keys : List K)
      → run eq dag outputs ≡ fail (cycle keys)
      → (keys ≢ [])
        × ((k : K)
            → Memᴰ k keys
            → (i : NodeId) × (get eq dag.index k ≡ some i)
              × Needed dag eq outputs i
              × (¬ Acc (Dep dag) i))
  run-cycle outputs keys h = conclude (
      Ensures_fail (IsAnswer eq dag outputs) (IsExecError eq dag outputs) (run eq dag outputs)
        (run_lem eq dag outputs wf) h)
    where
      go :
          (c : IsCycle eq dag outputs keys)
          → (keys ≢ [])
            × ((k : K)
                → Memᴰ k keys
                → (i : NodeId) × (get eq dag.index k ≡ some i)
                  × Needed dag eq outputs i
                  × (¬ Acc (Dep dag) i))
      go c = (
        λ empty. let (i, r) = c.some_node in Memᴰ.not-nil (subst (Memᴰ r.node.key) empty r.listed),
        λ k m.
            let (i, r, named) = c.named k m in
            (
              i,
              ap (get eq dag.index) (sym named) ∙ wf.indexed.full i r.node r.at,
              r.needed,
              λ a. not-Acc_of_IsCycle eq dag outputs keys c i a r,
            ),
      )

      conclude :
          IsExecError eq dag outputs (cycle keys)
          → (keys ≢ [])
            × ((k : K)
                → Memᴰ k keys
                → (i : NodeId) × (get eq dag.index k ≡ some i)
                  × Needed dag eq outputs i
                  × (¬ Acc (Dep dag) i))
      conclude (no_outputs _ e) = cc
      conclude (missing (k, _, _, e)) = cc
      conclude (failure f) = cc (f.same)
      conclude (cyclic keys' c e) =
          let same : keys' ≡ keys = cc in go (subst (IsCycle eq dag outputs) same c)

  -- The value of a key does not depend on what else is asked for.
  pub run_agrees :
      (these those : List K) (out out' : HashMap K O)
      → run eq dag these ≡ done out
      → run eq dag those ≡ done out'
      → (k : K) → Memᴰ k these
      → Memᴰ k those
      → get eq out k ≡ get eq out' k
  run_agrees these those out out' h h' k m m' =
      let a =
        Ensures-done (IsAnswer eq dag these) (IsExecError eq dag these) (run eq dag these)
          (run_lem eq dag these wf) h in
      let a' =
        Ensures-done (IsAnswer eq dag those) (IsExecError eq dag those) (run eq dag those)
          (run_lem eq dag those wf) h' in
      let (v, found) = a.full k m in
      let (v', found') = a'.full k m' in
      let (_, i, at, value) = a.sound k v found in
      let (_, i', at', value') = a'.sound k v' found' in
      let same : i' ≡ i = cc in
      found ∙ ap some (Eval-unique dag value (subst (λ i. Eval dag i v') same value')) ∙ sym found'
