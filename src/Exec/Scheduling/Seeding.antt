-- ===== src/Exec/Scheduling/Seeding.antt =====
-- `seed` makes the nodes ready that wait for nothing, and with that the invariant holds.
use rust_dag_executor.Prelude.{
  ℕ, suc, ◌<◌, ◌≡◌, refl, sym, ap, ◌∙◌, List, [], ◌∷◌, true, false, ◌&&◌, Option, none, inl, inr,
  arith, ltb, ◌==◌, length, get_or, replicate, get_or-replicate, Bool-cases, if◌then◌else◌, count,
  count-append,
}
use rust_dag_executor.Prelude.Outcome.{Ensures, Ensures-mono, index-eq-done, range_inv}
use rust_dag_executor.Graph.{NodeId, Dag}
use rust_dag_executor.Exec.Observe.{ExecObserver}
use rust_dag_executor.Exec.Common.{NodeValues, NeededMask}
use rust_dag_executor.Exec.Common.Needed.{marked}
use rust_dag_executor.Exec.Common.Counters.{deps_at, lt-length_of_marked}
use rust_dag_executor.Exec.Scheduling.{Frontier, push_ready, seed_round, seed}
use rust_dag_executor.Exec.Scheduling.Waiting.{undone-replicate, IsFrontier}

module _ {R : Type 0} (watch : ExecObserver R) (needed : NeededMask) (indeg : List ℕ)
    (size : length indeg ≡ length needed) where
  -- The nodes below `k` are seeded.
  record IsSeeded (k : ℕ) (f : Frontier R) : Type 0 where
    counters : f.indeg ≡ indeg
    seeds :
        (i : NodeId)
        → count i f.ready ≡ (if ltb i k && marked needed i && get_or indeg i 0 == 0 then 1 else 0)

  IsSeeded-skip :
      (k : ℕ) (f : Frontier R)
      → IsSeeded k f
      → marked needed k && get_or indeg k 0 == 0 ≡ false
      → IsSeeded (suc k) f
  IsSeeded-skip k f h off = record { counters = h.counters; seeds = λ i. ground (arith, h.seeds i) }

  IsSeeded-push :
      (k : ℕ) (f : Frontier R)
      → IsSeeded k f
      → marked needed k ≡ true
      → get_or indeg k 0 ≡ 0
      → IsSeeded (suc k) (push_ready watch f k)
  unfolding push_ready
  IsSeeded-push k f h on free = record {
    counters = h.counters;
    seeds = λ i. ground (arith, h.seeds i, count-append i f.ready (k ∷ []));
  }

  seed_round_lem :
      {X : Type 0} (Q : X → Type 0) (k : ℕ) (f : Frontier R)
      → k < length needed
      → IsSeeded k f
      → Ensures (IsSeeded (suc k)) Q (seed_round watch needed f k)
  unfolding seed_round
  seed_round_lem Q k f lt h = elim (Bool-cases (marked needed k)) [
    | inl on ↦
        let same : get_or f.indeg k 0 ≡ get_or indeg k 0 = ap (λ xs. get_or xs k 0) h.counters in
        rw
          (
            index-eq-done needed k false lt,
            on,
            index-eq-done f.indeg k 0 (omega (arith, ap length h.counters, size)),
          )
          (elim (Bool-cases (get_or f.indeg k 0 == 0)) [
            | inl free ↦ rw free (IsSeeded-push k f h on (ground arith))
            | inr waits ↦ rw waits (IsSeeded-skip k f h (ground arith))
          ])
    | inr off ↦ rw (index-eq-done needed k false lt, off) (IsSeeded-skip k f h (rw off))
  ]

  seed_seeds :
      {X : Type 0} (Q : X → Type 0) (r : R)
      → Ensures
          (IsSeeded (length needed))
          Q
          (seed watch needed (record { indeg = indeg; ready = []; observer = r }))
  unfolding seed
  seed_seeds Q r =
      range_inv Q (length needed) IsSeeded (seed_round watch needed)
        (λ k f lt h. seed_round_lem Q k f lt h) (length needed) 0 _ (omega arith)
        (record { counters = refl; seeds = λ i. ground arith })

module _ {K O E R : Type 0} (dag : Dag K O E) (watch : ExecObserver R) (needed : NeededMask)
    (indeg : List ℕ) (size : length needed ≡ length dag.nodes)
    (counters : length indeg ≡ length dag.nodes)
    (waits : (i : NodeId)
      → get_or indeg i 0 ≡ (if marked needed i then length (deps_at dag i) else 0)) where
  abbrev pub blank : NodeValues O
  blank = replicate (length dag.nodes) none

  -- The frontier after seeding, when no node has a value and none is in a worker's hands.
  pub seed_lem :
      {X : Type 0} (Q : X → Type 0) (r : R)
      → Ensures
          (IsFrontier dag needed blank (λ _. 0) [])
          Q
          (seed watch needed (record { indeg = indeg; ready = []; observer = r }))
  seed_lem Q r =
      Ensures-mono Q (IsSeeded watch needed indeg (counters ∙ sym size) (length needed))
        (IsFrontier dag needed blank (λ _. 0) []) _
        (seed_seeds watch needed indeg (counters ∙ sym size) Q r)
        λ f h. record {
          counters = ap length h.counters ∙ counters;
          waits = λ i. ground (
            arith,
            ap (λ xs. get_or xs i 0) h.counters,
            waits i,
            undone-replicate O (length dag.nodes) (deps_at dag i),
          );
          places = λ i. ground (
            arith,
            ap (λ xs. get_or xs i 0) h.counters,
            h.seeds i,
            get_or-replicate {A = Option O} (length dag.nodes) none i,
            lt-length_of_marked needed i,
            waits i,
          );
        }
