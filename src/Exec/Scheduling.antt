-- ===== src/Exec/Scheduling.antt =====
-- What the two schedulers share: the frontier of ready nodes with the counters of what each needed
-- node still waits for. exec/sequential.rs has the seeding, the release and the list of what
-- remains inline; exec/parallel.rs has the same text, with the release as a function of its own.
pub mod Waiting
pub mod Moving
pub mod Seeding
pub mod Arguments
pub mod Remaining
pub mod Finish
use rust_dag_executor.Prelude.{
  ℕ, ◌+◌, List, [], ◌∷◌, ◌++◌, Bool, not, Option, none, some, length, range_from, if◌then◌else◌,
  ltb, ◌==◌, ◌&&◌,
}
use rust_dag_executor.Prelude.Outcome.{
  Outcome, done, fail, panic, out_of_fuel, ◌>>=◌, index, assign, or_fail, decrement, each,
}
use rust_dag_executor.Error.{ExecError, internal_invariant}
use rust_dag_executor.Graph.{NodeId, Node, Dag}
use rust_dag_executor.Exec.Observe.{ExecObserver}
use rust_dag_executor.Exec.Common.{NodeValues, NeededMask}

pub record Frontier (R : Type 0) : Type 0 where
  pub indeg : List ℕ
  pub ready : List NodeId
  pub observer : R

module _ {R : Type 0} (watch : ExecObserver R) where
  -- `push_back`, and the call of `mark_ready` behind it.
  unfoldable pub push_ready : Frontier R → NodeId → Frontier R
  push_ready s id =
      let ready = s.ready ++ id ∷ [] in
      record s { ready = ready; observer = watch.mark_ready s.observer id (length ready) }

  -- Seed: nodes with indeg = 0 in the needed subgraph.
  unfoldable pub seed_round :
      {X : Type 0} → NeededMask → Frontier R → NodeId → Outcome X (Frontier R)
  seed_round needed s i = do
    is_needed ← index needed i
    if not is_needed
        then done s
        else do d ← index s.indeg i; done (if d == 0 then push_ready s i else s)

  unfoldable pub seed : {X : Type 0} → NeededMask → Frontier R → Outcome X (Frontier R)
  seed needed s = each (seed_round needed) s (range_from 0 (length needed))

  unfoldable pub release_round : {X : Type 0} → Frontier R → NodeId → Outcome X (Frontier R)
  release_round s dst = do
    d ← index s.indeg dst
    left ← decrement d
    indeg ← assign s.indeg dst left
    let s' = record s { indeg = indeg }
    done (if left == 0 then push_ready s' dst else s')

  -- `release_dependents`, after `dependents[from.0]` is read.
  unfoldable pub release_dependents :
      {X : Type 0} → List NodeId → Frontier R → Outcome X (Frontier R)
  release_dependents dependents s = each release_round s dependents

module _ {K O E : Type 0} (dag : Dag K O E) where
  -- `args`: the values of the dependencies, in their order.
  unfoldable pub collect_args : NodeValues O → List NodeId → Outcome (ExecError K E) (List O)
  collect_args vals =
      each
        (λ args dep. do
          slot ← index vals dep
          v ← or_fail slot (internal_invariant "dep missing during exec")
          done (args ++ v ∷ []))
        []

  unfoldable pub remaining_round :
      NeededMask → List ℕ → List K → NodeId → Outcome (ExecError K E) (List K)
  remaining_round needed indeg keys i = do
    is_needed ← index needed i
    if not is_needed then done keys else do
      d ← index indeg i
      if d == 0 then done keys else do node ← index dag.nodes i; done (keys ++ node.key ∷ [])

  -- The keys of needed nodes that still wait, for `ExecError::Cycle`.
  unfoldable pub remaining : NeededMask → List ℕ → Outcome (ExecError K E) (List K)
  remaining needed indeg = each (remaining_round needed indeg) [] (range_from 0 (length needed))
