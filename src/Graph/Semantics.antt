-- ===== src/Graph/Semantics.antt =====
-- What a graph means, with no schedule in it: which nodes a request needs, the value of a node, and
-- the nodes that no chain of dependencies leaves without end.
use mathlib.Core.List.{Memᴰ}
use rust_dag_executor.Prelude.{◌≡◌, List, [], ◌∷◌, some, get_elem?}
use rust_dag_executor.Prelude.HashMap.{get}
use rust_dag_executor.Prelude.Result.{ok, err}
use rust_dag_executor.Graph.{NodeId, TaskFn, source, task, Node, Dag}

module _ {K O E : Type 0} (dag : Dag K O E) where
  abbrev pub NodeAt : NodeId → Node K O E → Type 0
  NodeAt i node = get_elem? dag.nodes i ≡ some node

  pub NodeAt-unique : (i : NodeId) {n m : Node K O E} → NodeAt i n → NodeAt i m → n ≡ m
  NodeAt-unique i p q = cc

  -- `Dep d i`: node `d` is a dependency of node `i`.
  pub data Dep (d i : NodeId) : Type 0 where
    dep : {node : Node K O E} → NodeAt i node → Memᴰ d node.deps → Dep d i

  module _ (eq : Discrete K) (outputs : List K) where
    -- `Output i`: node `i` is requested.
    abbrev pub Output : NodeId → Type 0
    Output i = (k : K) × Memᴰ k outputs × (get eq dag.index k ≡ some i)

    -- The nodes that a request needs: the requested ones, and the dependencies of what is needed.
    pub data Needed : NodeId → Type 0 where
      root : {i : NodeId} → Output i → Needed i
      step : {d i : NodeId} → Needed i → Dep d i → Needed d

  -- `Eval i v`: node `i` has the value `v`. A derivation is a finite tree, so a node on a cycle
  -- has no value.
  mutual
    pub data Eval : NodeId → O → Type 0 where
      of_source :
          {i : NodeId} {v : O} {node : Node K O E} → NodeAt i node → node.kind ≡ source v → Eval i v
      of_task :
          {i : NodeId} {v : O} {node : Node K O E} {f : TaskFn O E} {args : List O}
          → NodeAt i node
          → node.kind ≡ task f
          → EvalAll node.deps args
          → f args ≡ ok v
          → Eval i v

    pub data EvalAll : List NodeId → List O → Type 0 where
      nil : EvalAll [] []
      cons :
          {d : NodeId} {v : O} {ds : List NodeId} {vs : List O}
          → Eval d v
          → EvalAll ds vs
          → EvalAll (d ∷ ds) (v ∷ vs)

  -- `Fails i e`: node `i` is a task whose dependencies have values, at which it returns `e`.
  pub record Fails (i : NodeId) (e : E) : Type 0 where
    pub node : Node K O E
    pub at : NodeAt i node
    pub function : TaskFn O E
    pub is_task : node.kind ≡ task function
    pub args : List O
    pub evaluated : EvalAll node.deps args
    pub returns : function args ≡ err e
