-- ===== src/Exec/Scheduling/Finish.antt =====
-- After the loop: either every needed node has its value, or what remains waits for itself.
use mathlib.Core.WellFounded.{Acc}
use rust_dag_executor.Prelude.{
  ℕ, ◌≤◌, ◌<◌, ◌≡◌, ◌≢◌, sym, ap, ◌∙◌, subst, List, [], true, none, some, inl, inr, arith, bit,
  length, get_or, get_elem?-exists, Memᴰ, Option-cases, count, total, total_mono, total_eq_terms,
  total-find,
}
use rust_dag_executor.Prelude.HashMap.{get}
use rust_dag_executor.Error.{ExecError, task_failed}
use rust_dag_executor.Graph.{NodeId, Node, Dag}
use rust_dag_executor.Graph.Semantics.{NodeAt, Dep, dep, Needed, step, Eval, Fails}
use rust_dag_executor.Graph.WellFormed.{IsWellFormed}
use rust_dag_executor.Exec.Common.{NodeValues, NeededMask}
use rust_dag_executor.Exec.Common.Needed.{marked, Needed-lt, IsNeededMask}
use rust_dag_executor.Exec.Common.Counters.{deps_at, deps_at-eq}
use rust_dag_executor.Exec.Scheduling.{Frontier}
use rust_dag_executor.Exec.Scheduling.Waiting.{value_at, has_value, undone-find, IsFrontier}
use rust_dag_executor.Exec.Scheduling.Moving.{finished, HoldsValues}
use rust_dag_executor.Exec.Scheduling.Remaining.{IsWaiting, IsListed}

module _ {K O E : Type 0} (eq : Discrete K) (dag : Dag K O E) (outputs : List K) where
  -- An error of the loop: a needed task failed, and this is its error.
  pub record IsFailure (x : ExecError K E) : Type 0 where
    pub id : NodeId
    pub error : E
    pub needed : Needed dag eq outputs id
    pub fails : Fails dag id error
    pub same : x ≡ task_failed fails.node.key error

  -- `Remains keys i`: node `i` is needed, and its key is among `keys`.
  pub record Remains (keys : List K) (i : NodeId) : Type 0 where
    pub node : Node K O E
    pub at : NodeAt dag i node
    pub needed : Needed dag eq outputs i
    pub listed : Memᴰ node.key keys

  -- What `ExecError::Cycle` says: the keys are those of needed nodes, there is one, and every
  -- node that remains has a dependency that remains.
  pub record IsCycle (keys : List K) : Type 0 where
    pub some_node : (i : NodeId) × Remains keys i
    pub named : (key : K) → Memᴰ key keys → (i : NodeId) × (r : Remains keys i) × (r.node.key ≡ key)
    pub waits : (i : NodeId) → Remains keys i → (d : NodeId) × Dep dag d i × Remains keys d

  -- No chain of dependencies ends from a node that remains.
  pub not-Acc_of_IsCycle :
      (keys : List K) → IsCycle keys → (i : NodeId) → Acc (Dep dag) i → Remains keys i → ⊥
  not-Acc_of_IsCycle keys c i (Acc.intro _ below) r =
      let (d, e, r') = c.waits i r in not-Acc_of_IsCycle keys c d (below d e) r'

  -- The values that a finished run holds: those of exactly the needed nodes.
  pub record IsComplete (vals : NodeValues O) : Type 0 where
    pub size : length vals ≡ length dag.nodes
    pub values :
        (i : NodeId) → Needed dag eq outputs i → (v : O) × (value_at vals i ≡ some v) × Eval dag i v
    pub pruned : (i : NodeId) → has_value vals i ≡ true → Needed dag eq outputs i

  module _ (wf : IsWellFormed eq dag) (needed : NeededMask)
      (mask : IsNeededMask eq dag wf outputs needed) {R : Type 0} (vals : NodeValues O)
      (h : HoldsValues dag vals) (f : Frontier R) where
    module _ {busy : NodeId → ℕ} (frontier : IsFrontier dag needed vals busy [] f) where
      has_value-le : (i : NodeId) → bit (has_value vals i) ≤ bit (marked needed i)
      has_value-le i = omega (arith, frontier.places i)

      pub finished-le :
          finished (length dag.nodes) vals ≤ total (length dag.nodes) (λ i. bit (marked needed i))
      finished-le =
          total_mono (length dag.nodes) (λ i. bit (has_value vals i)) (λ i. bit (marked needed i))
            λ i lt. has_value-le i

      pub complete :
          finished (length dag.nodes) vals ≡ total (length dag.nodes) (λ i. bit (marked needed i))
          → IsComplete vals
      complete all = record {
        size = h.size;
        values = λ i n. elim (Option-cases (value_at vals i)) [
          | inr (v, e) ↦ (v, e, h.sound i v e)
          | inl e ↦
              let on = (mask.exact i).1 n in
              absurd (
                ground (
                  arith,
                  total_eq_terms (length dag.nodes) (λ i. bit (has_value vals i))
                      (λ i. bit (marked needed i)) (λ i lt. has_value-le i) all i
                      (Needed-lt eq dag wf outputs n),
                  on,
                  e,
                ))
        ];
        pruned = λ i has. (mask.exact i).0 (ground (arith, has_value-le i));
      }

    module _ (frontier : IsFrontier dag needed vals (λ _. 0) [] f) (empty : f.ready ≡ []) where
      -- A needed node without a value waits.
      waiting_of_none :
          (i : NodeId) → marked needed i ≡ true → value_at vals i ≡ none → 0 < get_or f.indeg i 0
      waiting_of_none i on new = ground (arith, frontier.places i, ap (count i) empty)

      abbrev Waits : NodeId → Node K O E → Type 0
      Waits = IsWaiting dag needed f.indeg mask.size frontier.counters

      -- A node that waits has a dependency that waits.
      next_waiting :
          (i : NodeId) {node : Node K O E}
          → Waits i node
          → (d : NodeId) × Dep dag d i × (other : Node K O E) × Waits d other
      next_waiting i {node} w =
          let (d, m, new) =
            undone-find vals (deps_at dag i) (ground (arith, frontier.waits i, w.waits)) in
          let e : Dep dag d i = dep w.at (subst (Memᴰ d) (deps_at-eq dag i w.at) m) in
          let n : Needed dag eq outputs d = step ((mask.exact i).0 w.wanted) e in
          let (other, at) = get_elem?-exists dag.nodes d (Needed-lt eq dag wf outputs n) in
          let on = (mask.exact d).1 n in
          (d, e, other, record { at = at; wanted = on; waits = waiting_of_none d on new })

      -- Where not all needed nodes are finished, some wait.
      some_waiting :
          finished (length dag.nodes) vals ≢ total (length dag.nodes) (λ i. bit (marked needed i))
          → (i : NodeId) × (node : Node K O E) × Waits i node
      some_waiting differ =
          let (i, lt, less) =
            total-find (length dag.nodes) (λ i. bit (has_value vals i)) (λ i. bit (marked needed i))
              (λ i lt. has_value-le frontier i) differ in
          let (node, at) = get_elem?-exists dag.nodes i lt in
          (
            i,
            node,
            record {
              at = at;
              wanted = ground arith;
              waits = ground (arith, frontier.places i, ap (count i) empty);
            },
          )

      module _ (keys : List K)
          (listed : IsListed dag needed f.indeg mask.size frontier.counters
            (length needed)
            keys) where
        remains_of_waiting : (i : NodeId) (node : Node K O E) → Waits i node → Remains keys i
        remains_of_waiting i node w = record {
          node = node;
          at = w.at;
          needed = (mask.exact i).0 w.wanted;
          listed =
              listed.full i node
                (omega (arith, mask.size, Needed-lt eq dag wf outputs ((mask.exact i).0 w.wanted)))
                w;
        }

        waiting_of_remains : (i : NodeId) (r : Remains keys i) → Waits i r.node
        waiting_of_remains i r =
            let (j, other, w, named) = listed.sound r.node.key r.listed in
            let same : j ≡ i = cc (
              wf.indexed.full j other w.at,
              wf.indexed.full i r.node r.at,
              ap (get eq dag.index) named,
            ) in
            record {
              at = r.at;
              wanted = ap (marked needed) (sym same) ∙ w.wanted;
              waits = subst (λ i. 0 < get_or f.indeg i 0) same w.waits;
            }

        -- The keys that `remaining` lists are those of nodes that wait for one another.
        pub stuck :
            finished (length dag.nodes) vals ≢ total (length dag.nodes) (λ i. bit (marked needed i))
            → IsCycle keys
        unfolding remains_of_waiting
        stuck differ = record {
          some_node = let (i, node, w) = some_waiting differ in (i, remains_of_waiting i node w);
          named = λ key m.
              let (i, node, w, named) = listed.sound key m in
              (i, remains_of_waiting i node w, named);
          waits = λ i r.
              let (d, e, other, w) = next_waiting i (waiting_of_remains i r) in
              (d, e, remains_of_waiting d other w);
        }
