-- ===== src/Exec/Scheduling/Waiting.antt =====
-- The invariant of both schedulers, and what `release_dependents` does to it: every needed node is
-- at one place, waiting, ready, busy or finished, and waits for exactly the dependencies that have
-- no value yet.
use rust_dag_executor.Prelude.{
  ℕ, ◌+◌, ◌-◌, ◌<◌, ◌≡◌, refl, ◌∙◌, List, [], ◌∷◌, Bool, not, Option, none, some, arith, ltb, ◌==◌,
  bit, is_some, length, get_or, set, replicate, get_or-set, length-set, get_or-replicate,
  Bool-cases, Option-cases, inl, inr, if◌then◌else◌, count, count-append, Memᴰ, get_or-pos-lt,
}
use rust_dag_executor.Prelude.Outcome.{
  Ensures, decrement-suc, index-eq-done, assign-eq-done, each_inv,
}
use rust_dag_executor.Graph.{NodeId, Dag}
use rust_dag_executor.Exec.Observe.{ExecObserver}
use rust_dag_executor.Exec.Common.{NodeValues, NeededMask}
use rust_dag_executor.Exec.Common.Needed.{marked}
use rust_dag_executor.Exec.Common.Counters.{deps_at}
use rust_dag_executor.Exec.Scheduling.{Frontier, push_ready, release_round, release_dependents}

module _ {O : Type 0} where
  abbrev pub value_at : NodeValues O → NodeId → Option O
  value_at vals i = get_or vals i none

  abbrev pub has_value : NodeValues O → NodeId → Bool
  has_value vals i = is_some (value_at vals i)

  -- The occurrences among `ds` of nodes with no value.
  abbrev pub undone : NodeValues O → List NodeId → ℕ
  undone vals [] = 0
  undone vals (d ∷ ds) = bit (not (has_value vals d)) + undone vals ds

  -- A new value is no longer waited for.
  pub undone-set :
      (vals : NodeValues O) (id : NodeId) (v : O) (ds : List NodeId)
      → id < length vals
      → value_at vals id ≡ none
      → undone (set vals id (some v)) ds + count id ds ≡ undone vals ds
  undone-set vals id v [] lt new = refl
  undone-set vals id v (d ∷ ds) lt new =
      ground (arith, undone-set vals id v ds lt new, get_or-set vals id (some v) d none lt)

pub undone-find :
    {O : Type 0} (vals : NodeValues O) (ds : List NodeId)
    → 0 < undone vals ds
    → (d : NodeId) × Memᴰ d ds × (value_at vals d ≡ none)
undone-find vals [] h = elim h [ ]
undone-find vals (d ∷ ds) h = elim (Option-cases (value_at vals d)) [
  | inl e ↦ (d, Memᴰ.head refl, e)
  | inr (v, e) ↦ let (i, m, lost) = undone-find vals ds (ground arith) in (i, Memᴰ.tail m, lost)
]

pub undone-replicate :
    (O : Type 0) (n : ℕ) (ds : List NodeId) → undone {O = O} (replicate n none) ds ≡ length ds
undone-replicate O n [] = refl
undone-replicate O n (d ∷ ds) =
    ground (arith, get_or-replicate {A = Option O} n none d, undone-replicate O n ds)

module _ {K O E : Type 0} (dag : Dag K O E) (needed : NeededMask) where
  -- What node `i` waits for.
  abbrev pub expected : NodeValues O → NodeId → ℕ
  expected vals i = if marked needed i then undone vals (deps_at dag i) else 0

  -- `busy` counts the nodes in the hands of a worker; those of `left` are still to be released.
  pub record IsFrontier {R : Type 0} (vals : NodeValues O) (busy : NodeId → ℕ) (left : List NodeId)
      (f : Frontier R) : Type 0 where
    pub counters : length f.indeg ≡ length dag.nodes
    pub waits : (i : NodeId) → get_or f.indeg i 0 ≡ expected vals i + count i left
    pub places :
        (i : NodeId)
        → count i f.ready + busy i + bit (has_value vals i) + bit (ltb 0 (get_or f.indeg i 0))
          ≡ bit (marked needed i)

  module _ {R : Type 0} (watch : ExecObserver R) {vals : NodeValues O} {busy : NodeId → ℕ} where
    module _ (dst : NodeId) (left : List NodeId) (f : Frontier R)
        (h : IsFrontier vals busy (dst ∷ left) f) where
      abbrev lowered : Frontier R
      lowered = record f { indeg = set f.indeg dst (get_or f.indeg dst 0 - 1) }

      waits-pos : 0 < get_or f.indeg dst 0
      waits-pos = ground (arith, h.waits dst)

      get_or-lowered :
          (i : NodeId)
          → get_or lowered.indeg i 0
            ≡ (if dst == i then get_or f.indeg dst 0 - 1 else get_or f.indeg i 0)
      get_or-lowered i =
          get_or-set f.indeg dst (get_or f.indeg dst 0 - 1) i 0
            (get_or-pos-lt f.indeg dst waits-pos)

      lowered-waits : (i : NodeId) → get_or lowered.indeg i 0 ≡ expected vals i + count i left
      lowered-waits i = ground (arith, h.waits i, get_or-lowered i)

      -- The counter reached 0, and the node joins the ready ones.
      release_last :
          get_or f.indeg dst 0 ≡ 1 → IsFrontier vals busy left (push_ready watch lowered dst)
      unfolding push_ready
      release_last last = record {
        counters = length-set f.indeg dst _ ∙ h.counters;
        waits = lowered-waits;
        places = λ i.
            ground (
              arith,
              h.places i,
              h.places dst,
              get_or-lowered i,
              count-append i f.ready (dst ∷ []),
            );
      }

      release_more : 1 < get_or f.indeg dst 0 → IsFrontier vals busy left lowered
      release_more more = record {
        counters = length-set f.indeg dst _ ∙ h.counters;
        waits = lowered-waits;
        places = λ i. ground (arith, h.places i, get_or-lowered i);
      }

    release_round_lem :
        {X : Type 0} (Q : X → Type 0) (dst : NodeId) (left : List NodeId) (f : Frontier R)
        → IsFrontier vals busy (dst ∷ left) f
        → Ensures (IsFrontier vals busy left) Q (release_round watch f dst)
    unfolding release_round
    release_round_lem Q dst left f h =
        let lt = get_or-pos-lt f.indeg dst (waits-pos dst left f h) in
        rw
          (
            index-eq-done f.indeg dst 0 lt,
            decrement-suc (get_or f.indeg dst 0) (get_or f.indeg dst 0 - 1)
                (omega (arith, waits-pos dst left f h)),
            assign-eq-done f.indeg dst (get_or f.indeg dst 0 - 1) lt,
          )
          (elim (Bool-cases (get_or f.indeg dst 0 - 1 == 0)) [
            | inl last ↦
                rw last (release_last dst left f h (ground (arith, waits-pos dst left f h)))
            | inr more ↦
                rw more (release_more dst left f h (ground (arith, waits-pos dst left f h)))
          ])

    -- Releasing the row of a node whose value has just come in restores the invariant.
    pub release_dependents_lem :
        {X : Type 0} (Q : X → Type 0) (row : List NodeId) (f : Frontier R)
        → IsFrontier vals busy row f
        → Ensures (IsFrontier vals busy []) Q (release_dependents watch row f)
    unfolding release_dependents
    release_dependents_lem Q row f h =
        each_inv Q (IsFrontier vals busy) (release_round watch) (release_round_lem Q) row f h
