-- ===== src/Builder.antt =====
-- builder.rs: nodes are staged under their keys, then `build` gives each a dense identifier and
-- resolves the keys of its dependencies. A `&mut self` method returns the builder after the call.
-- The hash of a key plays no part: a key type comes with its decidable equality `eq`.
pub mod Staging
pub mod Resolve
pub mod Build
pub mod Values
pub mod Named
pub mod Calls
use rust_dag_executor.Prelude.{
  ℕ, suc, List, [], ◌∷◌, ◌++◌, Bool, Option, none, some, length, is_empty, is_some, if◌then◌else◌,
}
use rust_dag_executor.Prelude.HashMap.{HashMap, get, contains_key, insert}
use rust_dag_executor.Prelude.Result.{Result, ok, err, ◌>>=◌, ok_or}
use rust_dag_executor.Error.{BuildError, duplicate_key, missing_dependency, empty_graph}
use rust_dag_executor.Graph.{NodeId, TaskFn, NodeKind, source, task, Node, Dag}

pub data StagedKind (O E : Type 0) : Type 0 where
  staged_source : O → StagedKind O E
  staged_task : TaskFn O E → StagedKind O E

pub record StagedNode (K O E : Type 0) : Type 0 where
  pub key : K
  pub deps : List K
  pub kind : StagedKind O E

pub record DagBuilder (K O E : Type 0) : Type 0 where
  pub index : HashMap K ℕ
  pub staging : List (StagedNode K O E)

abbrev pub new : {K O E : Type 0} → DagBuilder K O E
new = record { index = []; staging = [] }

-- `match n.kind` in `build`
abbrev pub compile_kind : {O E : Type 0} → StagedKind O E → NodeKind O E
compile_kind (staged_source v) = source v
compile_kind (staged_task f) = task f

-- The loop that fills `dep_ids`, for the task `key`.
unfoldable pub resolve_deps :
    {K : Type 0} (eq : Discrete K)
    → HashMap K NodeId
    → K
    → List K
    → Result (List NodeId) (BuildError K)
resolve_deps eq key_to_id key [] = ok []
resolve_deps eq key_to_id key (dep_key ∷ deps) = do
  dep_id ← ok_or (get eq key_to_id dep_key) (missing_dependency key dep_key)
  dep_ids ← resolve_deps eq key_to_id key deps
  ok (dep_id ∷ dep_ids)

module _ {K O E : Type 0} (eq : Discrete K) where
  unfoldable pub insert_node :
      DagBuilder K O E
      → K
      → List K
      → StagedKind O E
      → DagBuilder K O E × Result (Unit {0}) (BuildError K)
  insert_node b key deps kind =
      if contains_key eq b.index key then (b, err (duplicate_key key)) else (
        record {
          index = insert eq b.index key (length b.staging);
          staging = b.staging ++ record { key = key; deps = deps; kind = kind } ∷ [];
        },
        ok tt,
      )

  unfoldable pub add_source :
      DagBuilder K O E → K → O → DagBuilder K O E × Result (Unit {0}) (BuildError K)
  add_source b key value = insert_node b key [] (staged_source value)

  unfoldable pub add_task :
      DagBuilder K O E
      → K
      → List K
      → TaskFn O E
      → DagBuilder K O E × Result (Unit {0}) (BuildError K)
  add_task b key deps f = insert_node b key deps (staged_task f)

  -- The loop that fills `key_to_id`, from the index `i` on.
  unfoldable pub assign_ids : ℕ → List (StagedNode K O E) → HashMap K NodeId → HashMap K NodeId
  assign_ids i [] key_to_id = key_to_id
  assign_ids i (n ∷ staging) key_to_id = assign_ids (suc i) staging (insert eq key_to_id n.key i)

  module _ (key_to_id : HashMap K NodeId) where
    -- The loop that fills `nodes`.
    unfoldable pub resolve_nodes :
        List (StagedNode K O E) → Result (List (Node K O E)) (BuildError K)
    resolve_nodes [] = ok []
    resolve_nodes (n ∷ staging) = do
      dep_ids ← resolve_deps eq key_to_id n.key n.deps
      nodes ← resolve_nodes staging
      ok (record { key = n.key; deps = dep_ids; kind = compile_kind n.kind } ∷ nodes)

  unfoldable pub key_ids : DagBuilder K O E → HashMap K NodeId
  key_ids b = assign_ids 0 b.staging []

  unfoldable pub build : DagBuilder K O E → Result (Dag K O E) (BuildError K)
  build b = if is_empty b.staging then err empty_graph else do
    nodes ← resolve_nodes (key_ids b) b.staging
    ok (record { nodes = nodes; index = key_ids b })
