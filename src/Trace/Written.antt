-- ===== src/Trace/Written.antt =====
-- What is recorded once a node has run.
use rust_dag_executor.Prelude.{
  ℕ, ◌+◌, ◌≤◌, ◌<◌, ◌≡◌, refl, sym, ap, ◌∙◌, subst, List, [], ◌∷◌, ◌++◌, true, false, Option, none,
  some, inl, inr, arith, length, is_some, bit, get_or, set, Memᴰ, ◌==◌, if◌then◌else◌, get_or-set,
  length-set, count-append, Bool-cases, ℕ_discrete,
}
use rust_dag_executor.Graph.{NodeId, Node, Dag}
use rust_dag_executor.Graph.Semantics.{NodeAt, NodeAt-unique}
use rust_dag_executor.Exec.Common.{NodeValues}
use rust_dag_executor.Exec.Scheduling.Waiting.{has_value}
use rust_dag_executor.Trace.{Duration, TraceObserver}
use rust_dag_executor.Trace.Recorded.{begin, stop, IsClock, IsRecorded}

is_some-set :
    {A B : Type 0} (xs : List (Option A)) (ys : List (Option B)) (id : ℕ) (a : A) (b : B) (i : ℕ)
    → id < length xs
    → id < length ys
    → is_some (get_or xs i none) ≡ is_some (get_or ys i none)
    → is_some (get_or (set xs id (some a)) i none) ≡ is_some (get_or (set ys id (some b)) i none)
is_some-set xs ys id a b i lt lt' e =
    rw (get_or-set xs id (some a) i none lt, get_or-set ys id (some b) i none lt')
      (elim (Bool-cases (id == i)) [ inl t ↦ rw t refl | inr f ↦ rw f e ])

module _ {K O E : Type 0} (clock : ℕ → Duration) (mono : IsClock clock) (dag : Dag K O E)
    (vals : NodeValues O) (t : TraceObserver) (h : IsRecorded clock mono dag vals t) where
  module _ (id : NodeId) (v : O) (node : Node K O E) (at : NodeAt dag id node)
      (lt : id < length dag.nodes)
      (deps : (d : NodeId) → Memᴰ d node.deps → has_value vals d ≡ true) (workers : List (Option ℕ))
      (size : length workers ≡ length dag.nodes) where
    abbrev started' : List (Option Duration)
    started' = set t.started_at id (some (clock t.readings))

    abbrev finished' : List (Option Duration)
    finished' = set t.finished_at id (some (clock (t.readings + 1)))

    abbrev vals' : NodeValues O
    vals' = set vals id (some v)

    begin-set :
        (i : NodeId)
        → begin started' i ≡ (if id == i then clock t.readings else begin t.started_at i)
    begin-set i =
        rw
          (get_or-set t.started_at id (some (clock t.readings)) i none
            (omega (arith, lt, h.started_size)))
          (elim (Bool-cases (id == i)) [ inl e ↦ rw e refl | inr e ↦ rw e refl ])

    stop-set :
        (i : NodeId)
        → stop started' finished' i
          ≡ (if id == i then clock (t.readings + 1) else stop t.started_at t.finished_at i)
    stop-set i =
        rw
          (
            get_or-set t.started_at id (some (clock t.readings)) i none
                (omega (arith, lt, h.started_size)),
            get_or-set t.finished_at id (some (clock (t.readings + 1))) i none
                (omega (arith, lt, h.finished_size)),
          )
          (elim (Bool-cases (id == i)) [ inl e ↦ rw e refl | inr e ↦ rw e refl ])

    has_value-set : (i : NodeId) → has_value vals' i ≡ (if id == i then true else has_value vals i)
    has_value-set i =
        rw (get_or-set vals id (some v) i none (omega (arith, lt, h.values)))
          (elim (Bool-cases (id == i)) [ inl e ↦ rw e refl | inr e ↦ rw e refl ])

    ran_after :
        has_value vals id ≡ false
        → (i : NodeId) {other : Node K O E} → NodeAt dag i other
        → has_value vals' i ≡ true
        → (d : NodeId) → Memᴰ d other.deps
        → (has_value vals' d ≡ true) × (stop started' finished' d ≤ begin started' i)
    ran_after unmet i {other} there on d m = elim (ℕ_discrete id i) [
      | yes same ↦
          let this : other ≡ node =
            NodeAt-unique dag i there (subst (λ i. NodeAt dag i node) same at) in
          let earlier = deps d (subst (λ n. Memᴰ d n.deps) this m) in
          (
            ground (arith, has_value-set d),
            ground (arith, stop-set d, begin-set i, earlier, unmet, h.past d),
          )
      | no differ ↦
          let was : has_value vals i ≡ true = ground (arith, has_value-set i) in
          let (earlier, le) = h.after i there was d m in
          (
            ground (arith, has_value-set d),
            ground (arith, stop-set d, begin-set i, earlier, unmet, le),
          )
    ]

    pub fresh_run :
        has_value vals id ≡ false
        → IsRecorded clock mono dag vals' (record t {
          readings = t.readings + 1 + 1;
          started_at = started';
          finished_at = finished';
          worker_id = workers;
          execution_order = t.execution_order ++ id ∷ [];
        })
    fresh_run unmet = record {
      values = length-set vals id _ ∙ h.values;
      ready_size = h.ready_size;
      started_size = length-set t.started_at id _ ∙ h.started_size;
      finished_size = length-set t.finished_at id _ ∙ h.finished_size;
      worker_size = size;
      started = λ i.
          is_some-set t.started_at vals id (clock t.readings) v i
            (omega (arith, lt, h.started_size)) (omega (arith, lt, h.values)) (h.started i);
      finished = λ i.
          is_some-set t.finished_at vals id (clock (t.readings + 1)) v i
            (omega (arith, lt, h.finished_size)) (omega (arith, lt, h.values)) (h.finished i);
      listed = λ i.
          ground
            (arith, count-append i t.execution_order (id ∷ []), has_value-set i, h.listed i, unmet);
      ordered = λ i. ground (
        arith,
        begin-set i,
        stop-set i,
        h.ordered i,
        mono t.readings (t.readings + 1) (omega arith),
      );
      past = λ i. ground (
        arith,
        stop-set i,
        h.past i,
        mono t.readings (t.readings + 1 + 1) (omega arith),
        mono (t.readings + 1) (t.readings + 1 + 1) (omega arith),
      );
      after = λ i there on d m. ran_after unmet i there on d m;
    }

    -- A node that had its value already: nothing is recorded again.
    pub run_again :
        has_value vals id ≡ true
        → IsRecorded clock mono dag vals' (record t { worker_id = workers })
    run_again met = record {
      values = length-set vals id _ ∙ h.values;
      ready_size = h.ready_size;
      started_size = h.started_size;
      finished_size = h.finished_size;
      worker_size = size;
      started = λ i. h.started i ∙ sym (kept i);
      finished = λ i. h.finished i ∙ sym (kept i);
      listed = λ i. h.listed i ∙ ap bit (sym (kept i));
      ordered = h.ordered;
      past = h.past;
      after = λ i there on d m.
          let (earlier, le) = h.after i there (sym (kept i) ∙ on) d m in (kept d ∙ earlier, le);
    }
      where
        kept : (i : NodeId) → has_value vals' i ≡ has_value vals i
        kept i = ground (arith, has_value-set i, met)
