-- ===== src/Trace/Listing.antt =====
-- `finalize` after any scheduler: it does not panic, and reports needed nodes once at most.
use rust_dag_executor.Prelude.{
  ℕ, zero, suc, ◌+◌, ◌≤◌, ◌<◌, ◌≡◌, refl, ◌∙◌, List, [], ◌∷◌, Bool, true, false, Option, none, inl,
  inr, arith, length, is_some, bit, get_or, count, Memᴰ, if◌then◌else◌, not, length-set, Bool-cases,
  length-replicate, get_elem?-exists,
}
use rust_dag_executor.Prelude.Outcome.{
  Ensures, Ensures-bind, Ensures-mono, index-at, index-eq-done, assign-eq-done, each, each_inv,
}
use rust_dag_executor.Graph.{NodeId, Dag}
use rust_dag_executor.Graph.WellFormed.{IsClosed}
use rust_dag_executor.Exec.Common.{NeededMask}
use rust_dag_executor.Exec.Common.Needed.{marked}
use rust_dag_executor.Trace.{
  Duration, ExecutionTrace, TraceObserver, Tally, longest_parent, finalize_round, finalize,
}
use rust_dag_executor.Trace.Report.{reported, count-reported, shown}
use rust_dag_executor.Trace.Tidy.{IsTidy}

get_or-lt :
    {A : Type 0} (xs : List (Option A)) (i : ℕ) → is_some (get_or xs i none) ≡ true → i < length xs
get_or-lt [] i e = cc
get_or-lt (x ∷ xs) zero e = omega arith
get_or-lt (x ∷ xs) (suc i) e = omega (arith, get_or-lt xs i e)

-- A report with needed nodes only, each of them once at most.
pub IsListing : {K : Type 0} → NeededMask → ExecutionTrace K → Type 0
IsListing needed trace = (i : NodeId) → count i (reported trace.nodes) ≤ bit (marked needed i)

module _ {K O E : Type 0} (X : Type 0) (clock : ℕ → Duration) (dag : Dag K O E)
    (closed : IsClosed dag) (needed : NeededMask) (size : length needed ≡ length dag.nodes)
    (t : TraceObserver) (h : IsTidy (length dag.nodes) t) where
  abbrev begun : NodeId → Bool
  begun i = is_some (get_or t.started_at i none)

  record IsPart (left : List NodeId) (s : Tally K) : Type 0 where
    paths_size : length s.longest_path ≡ length dag.nodes
    rest : (i : NodeId) → count i left ≤ bit (begun i)
    at_most :
        (i : NodeId)
        → count i (reported s.nodes) + (if marked needed i then count i left else 0)
          ≤ bit (marked needed i)

  longest_parent-IsIn :
      (paths : List Duration)
      → length paths ≡ length dag.nodes
      → (deps : List NodeId) → ((d : NodeId) → Memᴰ d deps → d < length dag.nodes)
      → Ensures {X = X} (λ _. Unit {0}) (λ _. ⊥) (longest_parent clock dag needed t paths deps)
  unfolding longest_parent
  longest_parent-IsIn paths paths_size deps within =
      Ensures-mono (λ _. ⊥) (λ _. (d : NodeId) → Memᴰ d [] → d < length dag.nodes) (λ _. Unit {0})
        (longest_parent clock dag needed t paths deps)
        (each_inv (λ _. ⊥) (λ left _. (d : NodeId) → Memᴰ d left → d < length dag.nodes) _
          (λ d left p k.
            let lt = k d (Memᴰ.head refl) in
            let rest : (e : NodeId) → Memᴰ e left → e < length dag.nodes =
              λ e m. k e (Memᴰ.tail m) in
            rw (index-eq-done needed d false (omega (arith, lt, size)))
              (elim (Bool-cases (not (marked needed d))) [
                | inl skip ↦ rw skip rest
                | inr take ↦ rw (take, index-eq-done paths d 0 (omega (arith, lt, paths_size))) rest
              ]))
          deps 0 within)
        λ p k. tt

  finalize_round-IsPart :
      (id : NodeId) (left : List NodeId) (s : Tally K)
      → IsPart (id ∷ left) s
      → Ensures {X = X} (IsPart left) (λ _. ⊥) (finalize_round clock dag needed t s id)
  unfolding finalize_round
  finalize_round-IsPart id left s k =
      let on : begun id ≡ true = ground (arith, k.rest id) in
      let lt : id < length dag.nodes =
        omega (arith, get_or-lt t.started_at id on, h.started_size) in
      let fewer : (i : NodeId) → count i left ≤ bit (begun i) = λ i. omega (arith, k.rest i) in
      let (node, at) = get_elem?-exists dag.nodes id lt in
      rw (index-eq-done needed id false (omega (arith, lt, size)))
        (elim (Bool-cases (not (marked needed id))) [
          | inl skip ↦ rw skip (record {
            paths_size = k.paths_size;
            rest = fewer;
            at_most = λ i. ground (arith, k.at_most i, skip);
          })
          | inr take ↦
              rw
                (
                  take,
                  index-eq-done t.started_at id none (omega (arith, lt, h.started_size)),
                  index-eq-done t.finished_at id none (omega (arith, lt, h.finished_size)),
                  index-at dag.nodes id at,
                )
                (Ensures-bind (λ _. ⊥) (λ _. Unit {0}) (IsPart left)
                  (longest_parent clock dag needed t s.longest_path node.deps) _
                  (longest_parent-IsIn s.longest_path k.paths_size node.deps
                    λ d m. closed.bounded id at d m)
                  λ p _.
                    rw
                      (
                        assign-eq-done s.longest_path id _ (omega (arith, lt, k.paths_size)),
                        index-eq-done t.ready_at id none (omega (arith, lt, h.ready_size)),
                        index-eq-done t.worker_id id none (omega (arith, lt, h.worker_size)),
                      )
                      (record {
                        paths_size = length-set s.longest_path id _ ∙ k.paths_size;
                        rest = fewer;
                        at_most = λ i. omega (
                          arith,
                          count-reported i s.nodes _,
                          k.at_most i,
                          shown needed id i left take,
                        );
                      }))
        ])

  pub finalize-IsListing : Ensures {X = X} (IsListing needed) (λ _. ⊥) (finalize clock dag needed t)
  unfolding finalize IsListing
  finalize-IsListing =
      Ensures-bind (λ _. ⊥) (IsPart []) (IsListing needed)
        (each (finalize_round clock dag needed t) _ t.execution_order) _
        (each_inv (λ _. ⊥) IsPart (finalize_round clock dag needed t)
          (λ id left s k. finalize_round-IsPart id left s k) t.execution_order _
          (record {
            paths_size = length-replicate _ _;
            rest = λ i. omega (arith, h.listed i);
            at_most = λ i. ground (arith, h.listed i);
          }))
        λ s k i. ground (arith, k.at_most i)
