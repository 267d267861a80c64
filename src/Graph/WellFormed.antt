-- ===== src/Graph/WellFormed.antt =====
-- What the executor relies on in a compiled graph. `Builder.build` makes no other.
use mathlib.Core.List.{Memᴰ}
use rust_dag_executor.Prelude.{◌<◌, ◌≡◌, [], some, length}
use rust_dag_executor.Prelude.HashMap.{get}
use rust_dag_executor.Graph.{NodeId, source, Node, Dag}
use rust_dag_executor.Graph.Semantics.{NodeAt}

module _ {K O E : Type 0} where
  -- Dependencies are nodes of the graph, and a source has none.
  pub record IsClosed (dag : Dag K O E) : Type 0 where
    pub bounded :
        (i : NodeId) {node : Node K O E}
        → NodeAt dag i node
        → (d : NodeId) → Memᴰ d node.deps
        → d < length dag.nodes
    pub source_leaf :
        (i : NodeId) {node : Node K O E}
        → NodeAt dag i node
        → {v : O} → node.kind ≡ source v
        → node.deps ≡ []

  -- The index finds every node under its key, and nothing else.
  pub record IsIndexed (eq : Discrete K) (dag : Dag K O E) : Type 0 where
    pub sound :
        (k : K) (i : NodeId)
        → get eq dag.index k ≡ some i
        → (node : Node K O E) × NodeAt dag i node × (node.key ≡ k)
    pub full :
        (i : NodeId) (node : Node K O E) → NodeAt dag i node → get eq dag.index node.key ≡ some i

  pub record IsWellFormed (eq : Discrete K) (dag : Dag K O E) : Type 0 where
    pub closed : IsClosed dag
    pub indexed : IsIndexed eq dag
