-- ===== src/Exec/Programs.antt =====
-- From the calls of a builder to the outputs of an executor: what is staged under a key is what a
-- request for that key returns.
use mathlib.Core.List.Memᴰ
use rust_dag_executor.Prelude.{
  refl, ◌≡◌, ◌≢◌, ◌≤◌, sym, ap, ◌∙◌, subst, List, [], none, some, Memᴰ, length, flatten, get_elem?,
  ℕ, map, ◌∷◌,
}
use rust_dag_executor.Prelude.HashMap.{HashMap, get}
use rust_dag_executor.Prelude.Each.{Each, nil, cons}
use rust_dag_executor.Prelude.Outcome.{done}
use rust_dag_executor.Prelude.Result.{ok}
use rust_dag_executor.Graph.{NodeId, ExecutorConfig, Dag}
use rust_dag_executor.Graph.Semantics.{Output, Needed, root, step, Eval}
use rust_dag_executor.Graph.Values.{Needed-Eval, Eval-unique, Eval-Acc, not-Fails_of_Eval}
use rust_dag_executor.Graph.WellFormed.{IsWellFormed}
use rust_dag_executor.Builder.{staged_source, StagedNode, DagBuilder, build}
use rust_dag_executor.Builder.Staging.{Built}
use rust_dag_executor.Builder.Resolve.{AllCompile-staged}
use rust_dag_executor.Builder.Build.{compile_kind-eq-source, build-IsWellFormed, Reports, build_lem}
use rust_dag_executor.Builder.Values.{Value, Value-Eval}
use rust_dag_executor.Builder.Named.{Stages, Stages-IsTask}
use rust_dag_executor.Exec.Common.Collect.{IsAnswer}
use rust_dag_executor.Exec.Sequential.Requests.{run_answers}
use rust_dag_executor.Exec.Executor.{new, run_sequential, run_parallel}
use rust_dag_executor.Exec.Parallel.{Actor}
use rust_dag_executor.Exec.Parallel.Machine.{IsConfig}
use rust_dag_executor.Exec.Parallel.Measure.{enough_rounds}
use rust_dag_executor.Exec.Parallel.Correct.{NeededSourcesFeed}
use rust_dag_executor.Exec.Parallel.Fair.{IsFair}
use rust_dag_executor.Exec.Parallel.Answers.{run_parallel_answers}

module _ {K O E : Type 0} (eq : Discrete K) (b : DagBuilder K O E) where
  -- The requested keys have these values, and nothing else is in the map.
  pub record Delivers (outputs : List K) (out : HashMap K O) : Type 0 where
    pub full : (k : K) (v : O) → Memᴰ k outputs → Value b k v → get eq out k ≡ some v
    pub sound : (k : K) (v : O) → get eq out k ≡ some v → Memᴰ k outputs × Value b k v

  -- No source is staged under `k`.
  abbrev pub IsTask : K → Type 0
  IsTask k =
      (i : ℕ) (s : StagedNode K O E) (v : O)
      → get_elem? b.staging i ≡ some s
      → s.key ≡ k
      → s.kind ≢ staged_source v

  module _ (built : Built eq b) (dag : Dag K O E) (h : build eq b ≡ ok dag) (cfg : ExecutorConfig)
      (outputs : List K) (valued : (k : K) → Memᴰ k outputs → (v : O) × Value b k v) where
    wf : IsWellFormed eq dag
    wf = build-IsWellFormed eq b built h

    known : (k : K) → Memᴰ k outputs → get eq dag.index k ≢ none
    known k m lost =
        let (v, value) = valued k m in let (i, at, _) = Value-Eval eq b built dag h value in cc

    Output-Eval : (i : NodeId) → Output dag eq outputs i → (v : O) × Eval dag i v
    Output-Eval i (k, m, at) =
        let (v, value) = valued k m in
        let (j, at', e) = Value-Eval eq b built dag h value in
        let same : j ≡ i = cc in (v, subst (λ i. Eval dag i v) same e)

    Needed-value : {i : NodeId} → Needed dag eq outputs i → (v : O) × Eval dag i v
    Needed-value = Needed-Eval dag wf.closed eq outputs Output-Eval

    IsAnswer-Delivers : (out : HashMap K O) → IsAnswer eq dag outputs out → Delivers outputs out
    IsAnswer-Delivers out a = record {
      full = λ k v m value.
          let (w, found) = a.full k m in found ∙ ap some (sym (agree k v w value found));
      sound = λ k w found.
          let (v, value) = valued k (a.sound k w found).0 in
          ((a.sound k w found).0, subst (Value b k) (agree k v w value found) value);
    }
      where
        agree : (k : K) (v w : O) → Value b k v → get eq out k ≡ some w → v ≡ w
        agree k v w value found =
            let (i, at, e) = Value-Eval eq b built dag h value in
            let (_, j, at', e') = a.sound k w found in
            let same : j ≡ i = cc in Eval-unique dag e (subst (λ i. Eval dag i w) same e')

    -- `run_sequential` returns, for requested keys that have values in the builder, these values.
    pub run_sequential-Delivers :
        outputs ≢ []
        → (out : HashMap K O) × (run_sequential eq (new cfg) dag outputs ≡ done out)
          × Delivers outputs out
    run_sequential-Delivers some_output =
        let (out, r, a) =
          run_answers eq dag wf outputs some_output known
            (λ i n. Eval-Acc dag wf.closed (Needed-value n).1)
            (λ i e n f. not-Fails_of_Eval dag (Needed-value n).1 f) in
        (out, r, IsAnswer-Delivers out a)

    sources_feed : ((k : K) → Memᴰ k outputs → IsTask k) → NeededSourcesFeed eq dag outputs
    sources_feed tasks i node v at is (step {i = j} r e) = (j, r, e)
    sources_feed tasks i node v at is (root (k, m, found)) =
        let kept = subst (Reports eq b) h (build_lem eq b built) in
        let (s, at', c) = AllCompile-staged eq dag.index b.staging dag.nodes i kept.0 at in
        let (node', there, named) = wf.indexed.sound k i found in
        let same : node' ≡ node = cc in
        absurd (
          tasks k m i s v at' (sym c.key ∙ ap (λ n. n.key) (sym same) ∙ named)
            (compile_kind-eq-source s.kind (sym c.kind ∙ is)))

    -- So does `run_parallel` for keys of tasks, with no 0 in the configuration and under every
    -- schedule of enough fair rounds.
    pub run_parallel-Delivers :
        outputs ≢ []
        → ((k : K) → Memᴰ k outputs → IsTask k)
        → IsConfig cfg
        → (rounds : List (List Actor)) → Each (IsFair cfg) rounds
        → enough_rounds dag cfg ≤ length rounds
        → (out : HashMap K O) × (run_parallel eq (new cfg) dag (flatten rounds) outputs ≡ done out)
          × Delivers outputs out
    run_parallel-Delivers some_output tasks config rounds fair enough =
        let (out, r, a) =
          run_parallel_answers eq dag wf cfg config rounds fair enough outputs some_output known
            (λ i n. Eval-Acc dag wf.closed (Needed-value n).1)
            (λ i e n f. not-Fails_of_Eval dag (Needed-value n).1 f) (sources_feed tasks) in
        (out, r, IsAnswer-Delivers out a)

module _ {K O E N : Type 0} (eq : Discrete K) (text : N → K)
    (text_injective : (n m : N) → text n ≡ text m → n ≡ m) (value : N → O) (Source : N → Type 0)
    {D : N → Type 0} (b : DagBuilder K O E) (h : Stages eq text text_injective value Source D b)
    (dag : Dag K O E) (compiled : build eq b ≡ ok dag) (cfg : ExecutorConfig) where
  -- Under the key of each name is its value.
  abbrev pub Finds : List N → HashMap K O → Type 0
  Finds ns out = Each (λ n. get eq out (text n) ≡ some (value n)) ns

  at_names :
      (P : K → Type 0) (Q : N → Type 0)
      → ((n : N) → Q n → P (text n))
      → (ns : List N) → Each Q ns
      → (k : K) → Memᴰ k (map text ns)
      → P k
  at_names P Q f [] nil k m = absurd (Memᴰ.not-nil m)
  at_names P Q f (n ∷ ns) (cons q qs) k (Memᴰ.head same) = subst P (sym same) (f n q)
  at_names P Q f (n ∷ ns) (cons q qs) k (Memᴰ.tail m) = at_names P Q f ns qs k m

  Delivers-Finds :
      (out : HashMap K O) (ns ms : List N)
      → Each D ns
      → ((k : K) → Memᴰ k (map text ns) → Memᴰ k (map text ms))
      → Delivers eq b (map text ms) out
      → Finds ns out
  Delivers-Finds out [] ms nil inside d = nil
  Delivers-Finds out (n ∷ ns) ms (cons in_d ds) inside d =
      cons (d.full (text n) (value n) (inside (text n) (Memᴰ.head refl)) (h.valued n in_d))
        (Delivers-Finds out ns ms ds (λ k m. inside k (Memᴰ.tail m)) d)

  some_key : (n : N) (ns : List N) → map text (n ∷ ns) ≢ []
  some_key n ns e = cc

  pub run_sequential-Finds :
      (n : N) (ns : List N)
      → Each D (n ∷ ns)
      → (out : HashMap K O) × (run_sequential eq (new cfg) dag (map text (n ∷ ns)) ≡ done out)
        × Finds (n ∷ ns) out
  run_sequential-Finds n ns ds =
      let (out, r, d) =
        run_sequential-Delivers eq b h.built dag compiled cfg (map text (n ∷ ns))
          (at_names (λ k. (v : O) × Value b k v) D (λ n d. (value n, h.valued n d)) (n ∷ ns) ds)
          (some_key n ns) in
      (out, r, Delivers-Finds out (n ∷ ns) (n ∷ ns) ds (λ k m. m) d)

  pub run_parallel-Finds :
      (n : N) (ns : List N)
      → Each D (n ∷ ns)
      → Each (λ n. Source n → ⊥) (n ∷ ns)
      → IsConfig cfg
      → (rounds : List (List Actor)) → Each (IsFair cfg) rounds
      → enough_rounds dag cfg ≤ length rounds
      → (out : HashMap K O) × (run_parallel eq (new cfg) dag (flatten rounds) (map text (n ∷ ns))
          ≡ done out)
        × Finds (n ∷ ns) out
  run_parallel-Finds n ns ds tasks config rounds fair enough =
      let (out, r, d) =
        run_parallel-Delivers eq b h.built dag compiled cfg (map text (n ∷ ns))
          (at_names (λ k. (v : O) × Value b k v) D (λ n d. (value n, h.valued n d)) (n ∷ ns) ds)
          (some_key n ns)
          (at_names (IsTask eq b) (λ n. Source n → ⊥)
            (Stages-IsTask eq text text_injective value Source h) (n ∷ ns) tasks)
          config rounds fair enough in
      (out, r, Delivers-Finds out (n ∷ ns) (n ∷ ns) ds (λ k m. m) d)
