-- ===== src/Graph/Values.antt =====
-- A node has at most one value, a node with a value neither fails nor lies on a cycle.
use mathlib.Core.List.{Memᴰ}
use mathlib.Core.List.Memᴰ
use mathlib.Core.WellFounded.{Acc}
use rust_dag_executor.Prelude.{◌⊎◌, ◌≡◌, refl, sym, ap, ◌∙◌, subst, List, inl, inr}
use rust_dag_executor.Graph.{NodeId, TaskFn, NodeKind, source, task, Node, Dag}
use mathlib.Core.Logic.{⊎_elim}
use rust_dag_executor.Graph.WellFormed.{IsClosed}
use rust_dag_executor.Graph.Semantics.{
  NodeAt, NodeAt-unique, Dep, dep, Output, Needed, root, step, Eval, of_source, of_task, EvalAll,
  nil, cons, Fails,
}

pub NodeKind-cases :
    {O E : Type 0} (kind : NodeKind O E)
    → ((v : O) × (kind ≡ source v)) ⊎ ((f : TaskFn O E) × (kind ≡ task f))
NodeKind-cases (source v) = inl (v, refl)
NodeKind-cases (task f) = inr (f, refl)

module _ {K O E : Type 0} (dag : Dag K O E) where
  pub deps_of :
      (i : NodeId) {node : Node K O E}
      → NodeAt dag i node
      → (d : NodeId) → Dep dag d i
      → Memᴰ d node.deps
  deps_of i at d (dep {node = n} at' m) =
      subst (Memᴰ d) (ap (λ n. n.deps) (NodeAt-unique dag i at' at)) m

  mutual
    Eval-unique_go : {i : NodeId} {v : O} → Eval dag i v → (w : O) → Eval dag i w → v ≡ w
    Eval-unique_go (of_source at e) w (of_source at' e') = cc
    Eval-unique_go (of_source at e) w (of_task at' e' _ _) = cc
    Eval-unique_go (of_task at e all r) w (of_source at' e') = cc
    Eval-unique_go (of_task {node} {args} at e all r) w
          (of_task {node = n'} {args = args'} at' e' all' r') =
        let same : node.deps ≡ n'.deps = ap (λ n. n.deps) (NodeAt-unique dag _ at at') in
        let args_same : args ≡ args' =
          EvalAll-unique_go all args' (subst (λ ds. EvalAll dag ds args') (sym same) all') in
        cc

    EvalAll-unique_go :
        {ds : List NodeId} {vs : List O}
        → EvalAll dag ds vs
        → (ws : List O) → EvalAll dag ds ws
        → vs ≡ ws
    EvalAll-unique_go nil ws nil = refl
    EvalAll-unique_go (cons e all) ws (cons {v = v'} {vs = vs'} e' all') =
        cc (Eval-unique_go e v' e', EvalAll-unique_go all vs' all')

  -- A node has at most one value.
  pub Eval-unique : {i : NodeId} {v w : O} → Eval dag i v → Eval dag i w → v ≡ w
  Eval-unique {w} p q = Eval-unique_go p w q

  pub EvalAll-unique :
      {ds : List NodeId} {vs ws : List O} → EvalAll dag ds vs → EvalAll dag ds ws → vs ≡ ws
  EvalAll-unique {ws} p q = EvalAll-unique_go p ws q

  -- A node that has a value does not fail.
  pub not-Fails_of_Eval : {i : NodeId} {v : O} {e : E} → Eval dag i v → Fails dag i e → ⊥
  not-Fails_of_Eval (of_source at is) f = cc (NodeAt-unique dag _ at f.at, f.is_task)
  not-Fails_of_Eval (of_task {node} {args} at is all r) f =
      let same : node.deps ≡ f.node.deps = ap (λ n. n.deps) (NodeAt-unique dag _ at f.at) in
      let args_same : args ≡ f.args =
        EvalAll-unique all (subst (λ ds. EvalAll dag ds f.args) (sym same) f.evaluated) in
      cc (NodeAt-unique dag _ at f.at, f.is_task, f.returns)

  module _ (closed : IsClosed dag) where
    no-Dep_of_source :
        {i : NodeId} {v : O} {node : Node K O E}
        → NodeAt dag i node
        → node.kind ≡ source v
        → (d : NodeId) → Dep dag d i
        → ⊥
    no-Dep_of_source {i} at e d (dep {node = n} at' m) =
        let same = NodeAt-unique dag i at' at in
        Memᴰ.not-nil (subst (Memᴰ d) (ap (λ n. n.deps) same ∙ closed.source_leaf i at e) m)

    mutual
      Eval-Acc_go : {i : NodeId} {v : O} → Eval dag i v → Acc (Dep dag) i
      Eval-Acc_go (of_source at e) = Acc.intro _ (λ d m. absurd (no-Dep_of_source at e d m))
      Eval-Acc_go (of_task {i} {node} at e all r) =
          Acc.intro _ (λ d m. EvalAll-Acc_go all d (deps_of i at d m))

      EvalAll-Acc_go :
          {ds : List NodeId} {vs : List O}
          → EvalAll dag ds vs
          → (d : NodeId) → Memᴰ d ds
          → Acc (Dep dag) d
      EvalAll-Acc_go nil d m = absurd (Memᴰ.not-nil m)
      EvalAll-Acc_go (cons {d = d'} e all) d m =
          ⊎_elim (λ here. subst (Acc (Dep dag)) (sym here) (Eval-Acc_go e)) (EvalAll-Acc_go all d)
            (Memᴰ.cases_cons m)

    -- A node with a value starts no endless chain of dependencies.
    pub Eval-Acc : {i : NodeId} {v : O} → Eval dag i v → Acc (Dep dag) i
    Eval-Acc = Eval-Acc_go

    EvalAll-at :
        {ds : List NodeId} {vs : List O}
        → EvalAll dag ds vs
        → (d : NodeId) → Memᴰ d ds
        → (v : O) × Eval dag d v
    EvalAll-at nil d m = absurd (Memᴰ.not-nil m)
    EvalAll-at (cons {v} e all) d (Memᴰ.head same) = (v, subst (λ d. Eval dag d v) (sym same) e)
    EvalAll-at (cons e all) d (Memᴰ.tail m) = EvalAll-at all d m

    -- The dependencies of a node with a value have values.
    Eval-Dep : {i d : NodeId} {v : O} → Eval dag i v → Dep dag d i → (w : O) × Eval dag d w
    Eval-Dep {d} (of_source at is) e = absurd (no-Dep_of_source at is d e)
    Eval-Dep {i} {d} (of_task at is all r) e = EvalAll-at all d (deps_of i at d e)

    -- All that a request needs has a value, once the requested nodes have.
    pub Needed-Eval :
        (eq : Discrete K) (outputs : List K)
        → ((i : NodeId) → Output dag eq outputs i → (v : O) × Eval dag i v)
        → {i : NodeId} → Needed dag eq outputs i
        → (v : O) × Eval dag i v
    Needed-Eval eq outputs known (root {i} r) = known i r
    Needed-Eval eq outputs known (step r e) =
        let (_, value) = Needed-Eval eq outputs known r in Eval-Dep value e
