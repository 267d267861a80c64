-- ===== src/Exec/Common/Needed.antt =====
-- `mark_needed` marks exactly the nodes that the outputs need, and its fuel is enough.
use mathlib.Core.List.Memᴰ
use rust_dag_executor.Prelude.{
  ◌+◌, ◌≡◌, refl, ap, ◌∙◌, subst, ◌⊎◌, ◌↔◌, inl, inr, List, [], ◌∷◌, true, false, none, some, arith,
  length, replicate, length-replicate, get_or-replicate, Option-cases, Memᴰ,
}
use rust_dag_executor.Prelude.HashMap.{get}
use rust_dag_executor.Prelude.Outcome.{
  done, ◌>>=◌, Ensures, Ensures-bind, Ensures-mono, or_fail, each_inv,
}
use rust_dag_executor.Error.{ExecError, output_missing}
use rust_dag_executor.Graph.{NodeId, Dag}
use rust_dag_executor.Graph.Semantics.{Output, Needed, root, step}
use rust_dag_executor.Graph.WellFormed.{IsWellFormed}
pub use rust_dag_executor.Exec.Common.Marking.{marked, Needed-lt}
use rust_dag_executor.Exec.Common.Marking.{IsMarking, mark_loop_lem, open_edges-replicate}
use rust_dag_executor.Exec.Common.{NeededMask, push_outputs, mark_needed}

module _ {K O E : Type 0} (eq : Discrete K) (dag : Dag K O E) (outputs : List K) where
  -- An error of `mark_needed`: some output is no key of the graph.
  abbrev pub IsMissing : ExecError K E → Type 0
  IsMissing x = (k : K) × Memᴰ k outputs × (get eq dag.index k ≡ none) × (x ≡ output_missing k)

module _ {K O E : Type 0} (eq : Discrete K) (dag : Dag K O E) (wf : IsWellFormed eq dag)
    (outputs : List K) where
  -- With `left` still to be pushed.
  record IsPushed (left : List K) (stack : List NodeId) : Type 0 where
    part : (k : K) → Memᴰ k left → Memᴰ k outputs
    sound : (i : NodeId) → Memᴰ i stack → Output dag eq outputs i
    full :
        (k : K)
        → Memᴰ k outputs
        → Memᴰ k left ⊎ ((i : NodeId) × (get eq dag.index k ≡ some i) × Memᴰ i stack)
    size : length stack + length left ≡ length outputs

  push_outputs_round :
      (k : K) (left : List K) (stack : List NodeId)
      → IsPushed (k ∷ left) stack
      → Ensures
          (IsPushed left)
          (IsMissing eq dag outputs)
          (or_fail (get eq dag.index k) (output_missing k) >>= λ id. done (id ∷ stack))
  push_outputs_round k left stack h = elim (Option-cases (get eq dag.index k)) [
    | inl lost ↦ rw lost (k, h.part k (Memᴰ.head refl), lost, refl)
    | inr (id, found) ↦ rw found (record {
      part = λ j m. h.part j (Memᴰ.tail m);
      sound = λ i m. elim (Memᴰ.cases_cons m) [
        | inl here ↦ (k, h.part k (Memᴰ.head refl), rw here found)
        | inr old ↦ h.sound i old
      ];
      full = λ j m. elim (h.full j m) [
        | inl waiting ↦ elim (Memᴰ.cases_cons waiting) [
          | inl same ↦ inr (id, ap (get eq dag.index) same ∙ found, Memᴰ.head refl)
          | inr below ↦ inl below
        ]
        | inr (i, at, pushed) ↦ inr (i, at, Memᴰ.tail pushed)
      ];
      size = omega (arith, h.size);
    })
  ]

  push_outputs_lem : Ensures (IsPushed []) (IsMissing eq dag outputs) (push_outputs eq dag outputs)
  unfolding push_outputs
  push_outputs_lem =
      each_inv (IsMissing eq dag outputs) IsPushed _ push_outputs_round outputs [] (record {
        part = λ k m. m;
        sound = λ i m. absurd (Memᴰ.not-nil m);
        full = λ k m. inl m;
        size = omega arith;
      })

  -- The mask that a request asks for: every output is a key, and the mask is as long as the graph
  -- and true at what is needed.
  pub record IsNeededMask (needed : NeededMask) : Type 0 where
    pub size : length needed ≡ length dag.nodes
    pub found : (k : K) → Memᴰ k outputs → (i : NodeId) × (get eq dag.index k ≡ some i)
    pub exact : (i : NodeId) → (marked needed i ≡ true) ↔ Needed dag eq outputs i

  IsMarking-end :
      (stack : List NodeId)
      → IsPushed [] stack
      → (needed : NeededMask) → IsMarking eq dag wf outputs needed []
      → IsNeededMask needed
  IsMarking-end stack pushed needed h = record {
    size = h.size;
    found = λ k m. let (i, at, _) = drained (pushed.full k m) in (i, at);
    exact = λ i. (h.sound i, full);
  }
    where
      drained : {A B : Type 0} {b : B} → Memᴰ b [] ⊎ A → A
      drained (inl m) = absurd (Memᴰ.not-nil m)
      drained (inr a) = a

      full : {i : NodeId} → Needed dag eq outputs i → marked needed i ≡ true
      full (root {i} out) = drained (h.rooted i out)
      full (step {d} {i} r e) = drained (h.follows d i (full r) e)

  -- On a well-formed graph `mark_needed` ends, never panics, and returns the mask of exactly the
  -- nodes that the outputs need, unless it reports an output that is no key of the graph.
  pub mark_needed_lem : Ensures IsNeededMask (IsMissing eq dag outputs) (mark_needed eq dag outputs)
  unfolding mark_needed
  mark_needed_lem =
      Ensures-bind (IsMissing eq dag outputs) (IsPushed []) IsNeededMask
        (push_outputs eq dag outputs) _ push_outputs_lem
        λ stack h.
          Ensures-mono (IsMissing eq dag outputs) (λ r. IsMarking eq dag wf outputs r [])
            IsNeededMask _
            (mark_loop_lem eq dag wf outputs (IsMissing eq dag outputs) _ _ stack (start stack h)
              (omega (arith, h.size, open_edges-replicate dag.nodes)))
            (IsMarking-end stack h)
    where
      start :
          (stack : List NodeId)
          → IsPushed [] stack
          → IsMarking eq dag wf outputs (replicate (length dag.nodes) false) stack
      start stack h = record {
        size = length-replicate (length dag.nodes) false;
        sound = λ i m. cc (get_or-replicate (length dag.nodes) false i);
        stacked = λ i m. root (h.sound i m);
        follows = λ d i m e. cc (get_or-replicate (length dag.nodes) false i);
        rooted = λ i (k, m, at). elim (h.full k m) [
          | inl left ↦ absurd (Memᴰ.not-nil left)
          | inr (j, at', here) ↦ let same : j ≡ i = cc in inl (subst (λ i. Memᴰ i stack) same here)
        ];
      }
