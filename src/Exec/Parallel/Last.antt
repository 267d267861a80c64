-- ===== src/Exec/Parallel/Last.antt =====
-- Where every needed source is a dependency of a needed node, the last node to be finished is a task.
use mathlib.Core.List.{Memᴰ}
use mathlib.Core.List.Memᴰ
use rust_dag_executor.Prelude.{
  ℕ, ◌<◌, ◌≤◌, ◌≡◌, ◌≢◌, sym, ap, subst, List, [], ◌∷◌, none, some, true, arith, bit, length, set,
  get_or-set, total, total_mono, total_eq_terms, dec_lt, inl, inr, Option-cases,
}
use rust_dag_executor.Graph.{NodeId, source, Node, Dag}
use rust_dag_executor.Graph.Semantics.{NodeAt, Dep, dep}
use rust_dag_executor.Graph.Values.{deps_of}
use rust_dag_executor.Graph.WellFormed.{IsClosed}
use rust_dag_executor.Exec.Common.{NodeValues, NeededMask}
use rust_dag_executor.Exec.Common.Needed.{marked}
use rust_dag_executor.Exec.Common.Counters.{deps_at, deps_at-eq}
use rust_dag_executor.Exec.Scheduling.{Frontier}
use rust_dag_executor.Exec.Scheduling.Waiting.{value_at, has_value, undone, IsFrontier}
use rust_dag_executor.Exec.Scheduling.Moving.{held, with_busy}
use rust_dag_executor.Exec.Parallel.Machine.{IsUnfinished}

undone-pos :
    {O : Type 0} (vals : NodeValues O) (d : NodeId) (ds : List NodeId)
    → Memᴰ d ds
    → value_at vals d ≡ none
    → 0 < undone vals ds
undone-pos vals d [] m e = absurd (Memᴰ.not-nil m)
undone-pos vals d (c ∷ ds) (Memᴰ.head same) e = ground (arith, ap (value_at vals) same)
undone-pos vals d (c ∷ ds) (Memᴰ.tail m) e = omega (arith, undone-pos vals d ds m e)

-- A sum with one smaller term is smaller.
total-lt_term :
    (n : ℕ) (f g : ℕ → ℕ) (j : ℕ)
    → ((i : ℕ) → i < n → f i ≤ g i)
    → j < n
    → f j < g j
    → total n f < total n g
total-lt_term n f g j le lt less = elim (dec_lt (total n f) (total n g)) [
  | yes h ↦ h
  | no h ↦
      absurd
        (omega (arith, less, total_eq_terms n f g le (omega (arith, h, total_mono n f g le)) j lt))
]

mem-deps_at :
    {K O E : Type 0} (dag : Dag K O E) (d i : NodeId) → Dep dag d i → Memᴰ d (deps_at dag i)
mem-deps_at dag d i (dep at m) = subst (Memᴰ d) (sym (deps_at-eq dag i at)) m

module _ {K O E : Type 0} (dag : Dag K O E) (closed : IsClosed dag) (needed : NeededMask)
    (marked-lt : (i : NodeId) → marked needed i ≡ true → i < length dag.nodes) {R : Type 0}
    (vals : NodeValues O) (busy : NodeId → ℕ) (f : Frontier R) (id : NodeId)
    (frontier : IsFrontier dag needed vals (with_busy id busy) [] f)
    (size : length vals ≡ length dag.nodes) where
  -- A node that depends on one in the scheduler's hands has no value.
  dependent-new : (j : NodeId) → Dep dag id j → value_at vals j ≡ none
  dependent-new j e = elim (Option-cases (value_at vals j)) [
    | inl new ↦ new
    | inr (w, has) ↦
        let awaited =
          undone-pos vals id (deps_at dag j) (mem-deps_at dag id j e)
            (held dag needed busy id f frontier).new in
        absurd (ground (arith, frontier.places j, frontier.waits j, awaited, has))
  ]

  abbrev after : O → NodeValues O
  after v = set vals id (some v)

  pub set-IsUnfinished :
      (node : Node K O E) (v : O)
      → NodeAt dag id node
      → node.kind ≡ source v
      → IsUnfinished dag needed (after v)
  set-IsUnfinished node v at is_source feeds =
      let grip = held dag needed busy id f frontier in
      let lt = marked-lt id grip.wanted in
      let (j, on, e) = feeds id node v at is_source grip.wanted in
      let apart : id ≢ j = λ same. Memᴰ.not-nil (
        subst (Memᴰ id) (closed.source_leaf id at is_source)
          (deps_of dag id at id (subst (Dep dag id) (sym same) e))) in
      total-lt_term (length dag.nodes) (λ i. bit (has_value (after v) i))
        (λ i. bit (marked needed i)) j
        (λ i _. ground (
          arith,
          frontier.places i,
          get_or-set vals id (some v) i none (omega (arith, lt, size)),
          grip.wanted,
        ))
        (marked-lt j on)
        (ground (
          arith,
          get_or-set vals id (some v) j none (omega (arith, lt, size)),
          dependent-new j e,
          on,
          apart,
        ))
