-- ===== src/Exec/Scheduling/Moving.antt =====
-- How a node moves: from the ready ones into a worker's hands, and from there, with its value, to
-- the finished ones. In the sequential scheduler both moves happen in one round.
use rust_dag_executor.Prelude.{
  ℕ, ◌+◌, ◌<◌, ◌≡◌, ap, ◌∙◌, List, [], ◌∷◌, true, Option, none, some, arith, ◌==◌, bit, length,
  length-set, subst, ℕ_discrete, set, get_or-set, if◌then◌else◌, count, total, total_update,
  total_congr, total_const_zero, is_some, replicate, get_or-replicate, total-lt,
}
use rust_dag_executor.Graph.{NodeId, Dag}
use rust_dag_executor.Graph.Semantics.{Eval}
use rust_dag_executor.Exec.Common.{NodeValues, NeededMask}
use rust_dag_executor.Exec.Common.Needed.{marked}
use rust_dag_executor.Exec.Common.Counters.{deps_at, row}
use rust_dag_executor.Exec.Scheduling.{Frontier}
use rust_dag_executor.Exec.Scheduling.Waiting.{value_at, has_value, undone, undone-set, IsFrontier}

-- `busy` with the node `id` besides.
abbrev pub with_busy : NodeId → (NodeId → ℕ) → NodeId → ℕ
with_busy id busy i = bit (id == i) + busy i

module _ {K O E : Type 0} (dag : Dag K O E) (needed : NeededMask) where
  -- What is known of a node in a worker's hands.
  pub record IsHeld (vals : NodeValues O) (id : NodeId) : Type 0 where
    pub wanted : marked needed id ≡ true
    pub new : value_at vals id ≡ none
    pub free : undone vals (deps_at dag id) ≡ 0

  module _ {R : Type 0} {vals : NodeValues O} (busy : NodeId → ℕ) (id : NodeId) where
    pub held :
        (f : Frontier R) → IsFrontier dag needed vals (with_busy id busy) [] f → IsHeld vals id
    held f h = record {
      wanted = ground (arith, h.places id);
      new = ground (arith, h.places id);
      free = ground (arith, h.places id, h.waits id);
    }

    -- `pop_front`
    pub take_ready :
        (rest : List NodeId) (f : Frontier R)
        → f.ready ≡ id ∷ rest
        → IsFrontier dag needed vals busy [] f
        → (r : R)
        → IsFrontier dag needed vals
            (with_busy id busy)
            []
            (record { indeg = f.indeg; ready = rest; observer = r })
    take_ready rest f e h r = record {
      counters = h.counters;
      waits = h.waits;
      places = λ i. ground (arith, h.places i, ap (count i) e);
    }

    -- The value of `id` is there, and its row is still to be released.
    pub settle :
        (v : O) (dependents : List (List NodeId)) (f : Frontier R)
        → id < length vals
        → ((i : NodeId)
            → count i (row dependents id)
              ≡ (if marked needed i then count id (deps_at dag i) else 0))
        → IsFrontier dag needed vals (with_busy id busy) [] f
        → IsFrontier dag needed (set vals id (some v)) busy (row dependents id) f
    settle v dependents f lt rows h = record {
      counters = h.counters;
      waits = λ i.
          ground (arith, h.waits i, rows i, undone-set vals id v (deps_at dag i) lt (held f h).new);
      places =
          λ i. ground (arith, h.places i, (held f h).new, get_or-set vals id (some v) i none lt);
    }

-- The number of nodes with a value.
abbrev pub finished : {O : Type 0} → ℕ → NodeValues O → ℕ
finished n vals = total n (λ i. bit (has_value vals i))

pub finished-set :
    {O : Type 0} (n : ℕ) (vals : NodeValues O) (id : NodeId) (v : O)
    → length vals ≡ n
    → id < n
    → value_at vals id ≡ none
    → finished n (set vals id (some v)) ≡ finished n vals + 1
finished-set n vals id v size lt new = omega (
  arith,
  total_update n (λ i. bit (has_value vals i)) (λ i. bit (has_value (set vals id (some v)) i)) id lt
      (λ i other. ground (arith, get_or-set vals id (some v) i none (omega arith))),
  there,
  gone,
)
  where
    there : bit (has_value (set vals id (some v)) id) ≡ 1
    there = ground (arith, get_or-set vals id (some v) id none (omega arith))

    gone : bit (has_value vals id) ≡ 0
    gone = rw new

pub finished-replicate : (O : Type 0) (n : ℕ) → finished n (replicate {A = Option O} n none) ≡ 0
finished-replicate O n =
    total_congr n _ (λ _. 0)
      (λ i lt. ap (λ o. bit (is_some o)) (get_or-replicate {A = Option O} n none i))
    ∙ total_const_zero n

-- Not all nodes are finished while one has no value.
pub finished-lt :
    {O : Type 0} (n : ℕ) (vals : NodeValues O) (id : NodeId)
    → id < n
    → value_at vals id ≡ none
    → finished n vals < n
finished-lt n vals id lt new =
    total-lt n (λ i. bit (has_value vals i)) id (λ i. ground arith) lt (rw new)

-- A value for each node of the graph, or none, and every value is that of its node.
module _ {K O E : Type 0} (dag : Dag K O E) where
  pub record HoldsValues (vals : NodeValues O) : Type 0 where
    pub size : length vals ≡ length dag.nodes
    pub sound : (i : NodeId) (v : O) → value_at vals i ≡ some v → Eval dag i v

  pub HoldsValues-set :
      (vals : NodeValues O) (id : NodeId) (v : O)
      → HoldsValues vals
      → id < length dag.nodes
      → Eval dag id v
      → HoldsValues (set vals id (some v))
  HoldsValues-set vals id v h lt e = record {
    size = length-set vals id (some v) ∙ h.size;
    sound = λ i w at.
        let split = get_or-set vals id (some v) i none (omega (arith, h.size)) in
        elim (ℕ_discrete id i) [
          | yes same ↦
              let here : v ≡ w = ground arith in
              subst (λ i. Eval dag i w) same (subst (Eval dag id) here e)
          | no other ↦ h.sound i w (ground arith)
        ];
  }
