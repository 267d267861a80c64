-- ===== src/Exec/Common.antt =====
-- exec/common.rs: the needed mask, the counters of Kahn's algorithm, and the result map.
-- A vector used as a stack has its top at the head of the list.
pub mod Marking
pub mod Needed
pub mod Counters
pub mod Collect
use rust_dag_executor.Prelude.{
  ℕ, zero, suc, ◌+◌, List, [], ◌∷◌, ◌++◌, Bool, true, false, not, Option, none, some, length,
  replicate, range_from, if◌then◌else◌,
}
use rust_dag_executor.Prelude.HashMap.{HashMap, get, insert}
use rust_dag_executor.Prelude.Outcome.{
  Outcome, done, fail, panic, out_of_fuel, ◌>>=◌, index, assign, or_fail, each,
}
use rust_dag_executor.Error.{ExecError, output_missing}
use rust_dag_executor.Graph.{NodeId, Node, Dag}

abbrev pub NodeValues : Type 0 → Type 0
NodeValues O = List (Option O)

abbrev pub NeededMask : Type 0
NeededMask = List Bool

unfoldable pub push_all : List NodeId → List NodeId → List NodeId
push_all [] stack = stack
push_all (d ∷ deps) stack = push_all deps (d ∷ stack)

-- The number of dependencies in all, which bounds the pushes of the `while` loop.
unfoldable pub edge_count : {K O E : Type 0} → List (Node K O E) → ℕ
edge_count [] = 0
edge_count (n ∷ nodes) = length n.deps + edge_count nodes

module _ {K O E : Type 0} (eq : Discrete K) (dag : Dag K O E) where
  -- The loop over `outputs` that fills `stack`.
  unfoldable pub push_outputs : List K → Outcome (ExecError K E) (List NodeId)
  push_outputs =
      each (λ stack k. do id ← or_fail (get eq dag.index k) (output_missing k); done (id ∷ stack))
        []

module _ {K O E : Type 0} (dag : Dag K O E) where
  -- One round of `while let Some(id) = stack.pop()`, after `id` left the stack.
  unfoldable pub mark_round :
      NeededMask → NodeId → List NodeId → Outcome (ExecError K E) (NeededMask × List NodeId)
  mark_round needed id stack = do
    seen ← index needed id
    if seen then done (needed, stack) else do
      needed' ← assign needed id true
      node ← index dag.nodes id
      done (needed', push_all node.deps stack)

  unfoldable pub mark_loop : ℕ → NeededMask → List NodeId → Outcome (ExecError K E) NeededMask
  mark_loop fuel needed [] = done needed
  mark_loop zero needed (id ∷ stack) = out_of_fuel
  mark_loop (suc fuel) needed (id ∷ stack) = do
    (needed', stack') ← mark_round needed id stack
    mark_loop fuel needed' stack'

-- Every node pushes its dependencies once, so the fuel is the number of pushes there can be.
unfoldable pub mark_needed :
    {K O E : Type 0} (eq : Discrete K) → Dag K O E → List K → Outcome (ExecError K E) NeededMask
mark_needed eq dag outputs = do
  stack ← push_outputs eq dag outputs
  mark_loop dag (length outputs + edge_count dag.nodes) (replicate (length dag.nodes) false) stack

-- The result of `build_kahn_metadata`.
pub record KahnMetadata : Type 0 where
  pub dependents : List (List NodeId)
  pub indeg : List ℕ
  pub needed_count : ℕ

module _ {K O E : Type 0} (dag : Dag K O E) (needed : NeededMask) where
  -- `dependents[dep.0].push(NodeId(i))` for every dependency.
  unfoldable pub add_dependent :
      NodeId → List (List NodeId) → List NodeId → Outcome (ExecError K E) (List (List NodeId))
  add_dependent i =
      each λ dependents dep. do row ← index dependents dep; assign dependents dep (row ++ i ∷ [])

  unfoldable pub kahn_round : KahnMetadata → NodeId → Outcome (ExecError K E) KahnMetadata
  kahn_round m i = do
    is_needed ← index needed i
    if not is_needed then done m else do
      node ← index dag.nodes i
      indeg ← assign m.indeg i (length node.deps)
      dependents ← add_dependent i m.dependents node.deps
      done (record { dependents = dependents; indeg = indeg; needed_count = m.needed_count + 1 })

  unfoldable pub build_kahn_metadata : Outcome (ExecError K E) KahnMetadata
  build_kahn_metadata =
      let n = length dag.nodes in
      each kahn_round
        (record { dependents = replicate n []; indeg = replicate n 0; needed_count = 0 })
        (range_from 0 n)

module _ {K O E : Type 0} (eq : Discrete K) (dag : Dag K O E) (vals : NodeValues O) where
  unfoldable pub collect_outputs : List K → Outcome (ExecError K E) (HashMap K O)
  collect_outputs =
      each
        (λ out k. do
          id ← or_fail (get eq dag.index k) (output_missing k)
          v ← index vals id
          value ← or_fail v (output_missing k)
          done (insert eq out k value))
        []
