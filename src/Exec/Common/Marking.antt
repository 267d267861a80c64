-- ===== src/Exec/Common/Marking.antt =====
-- The `while` loop of `mark_needed`: the stack holds what is still to be visited, a round makes one
-- push fewer to come, and nothing is marked that the request does not need.
use mathlib.Core.List.Memᴰ
use rust_dag_executor.Prelude.{
  ℕ, zero, suc, ◌+◌, ◌≤◌, ◌<◌, ◌≡◌, refl, sym, ap, ◌∙◌, subst, ◌⊎◌, ◌↔◌, inl, inr, List, [], ◌∷◌,
  Bool, true, false, some, arith, length, get_elem?, get_or, set, replicate, get_or-set, length-set,
  get_elem?-exists, get_elem?-eq-some, Bool-cases, if◌then◌else◌, ◌==◌, Memᴰ, Memᴰ-cons, ℕ_discrete,
}
use rust_dag_executor.Prelude.Outcome.{
  Ensures, Ensures-bind, index-eq-done, index-at, assign-eq-done,
}
use rust_dag_executor.Error.{ExecError}
use rust_dag_executor.Graph.{NodeId, Node, Dag}
use rust_dag_executor.Graph.Semantics.{NodeAt, Dep, dep, Output, Needed, root, step}
use rust_dag_executor.Graph.Values.{deps_of}
use rust_dag_executor.Graph.WellFormed.{IsWellFormed}
use rust_dag_executor.Exec.Common.{NeededMask, push_all, edge_count, mark_round, mark_loop}

abbrev pub marked : NeededMask → NodeId → Bool
marked needed i = get_or needed i false

mem-push_all :
    (ds stack : List NodeId) (i : NodeId) → Memᴰ i (push_all ds stack) ↔ (Memᴰ i ds ⊎ Memᴰ i stack)
unfolding push_all
mem-push_all [] stack i = (inr, λ m. elim m [ inl below ↦ absurd (Memᴰ.not-nil below) | inr m ↦ m ])
mem-push_all (d ∷ ds) stack i =
    ground (arith, mem-push_all ds (d ∷ stack) i, Memᴰ-cons i d ds, Memᴰ-cons i d stack)

length-push_all : (ds stack : List NodeId) → length (push_all ds stack) ≡ length ds + length stack
unfolding push_all
length-push_all [] stack = omega arith
length-push_all (d ∷ ds) stack = omega (arith, length-push_all ds (d ∷ stack))

module _ {K O E : Type 0} where
  -- The dependencies of the nodes that are not marked.
  abbrev pub open_edges : NeededMask → List (Node K O E) → ℕ
  open_edges [] nodes = 0
  open_edges (b ∷ needed) [] = 0
  open_edges (true ∷ needed) (n ∷ nodes) = open_edges needed nodes
  open_edges (false ∷ needed) (n ∷ nodes) = length n.deps + open_edges needed nodes

  pub open_edges-replicate :
      (nodes : List (Node K O E))
      → open_edges (replicate (length nodes) false) nodes ≡ edge_count nodes
  unfolding edge_count
  open_edges-replicate [] = refl
  open_edges-replicate (n ∷ nodes) = omega (arith, open_edges-replicate nodes)

  open_edges-set :
      (needed : NeededMask) (nodes : List (Node K O E)) (i : NodeId) {node : Node K O E}
      → length needed ≡ length nodes
      → get_elem? nodes i ≡ some node
      → marked needed i ≡ false
      → open_edges (set needed i true) nodes + length node.deps ≡ open_edges needed nodes
  open_edges-set [] [] i size at new = cc
  open_edges-set [] (n ∷ nodes) i size at new = absurd (omega arith)
  open_edges-set (b ∷ needed) [] i size at new = absurd (omega arith)
  open_edges-set (true ∷ needed) (n ∷ nodes) zero size at new = cc
  open_edges-set (false ∷ needed) (n ∷ nodes) zero {node} size at new =
      let same : n ≡ node = cc in omega (arith, ap (λ (n : Node K O E). length n.deps) same)
  open_edges-set (true ∷ needed) (n ∷ nodes) (suc i) size at new =
      open_edges-set needed nodes i (omega arith) at new
  open_edges-set (false ∷ needed) (n ∷ nodes) (suc i) size at new =
      omega (arith, open_edges-set needed nodes i (omega arith) at new)

module _ {K O E : Type 0} (eq : Discrete K) (dag : Dag K O E) (wf : IsWellFormed eq dag)
    (outputs : List K) where
  pub Needed-lt : {i : NodeId} → Needed dag eq outputs i → i < length dag.nodes
  Needed-lt (root {i} (k, _, found)) = get_elem?-eq-some dag.nodes i (wf.indexed.sound k i found).1
  Needed-lt (step r (dep at m)) = wf.closed.bounded _ at _ m

  pub record IsMarking (needed : NeededMask) (stack : List NodeId) : Type 0 where
    pub size : length needed ≡ length dag.nodes
    pub sound : (i : NodeId) → marked needed i ≡ true → Needed dag eq outputs i
    pub stacked : (i : NodeId) → Memᴰ i stack → Needed dag eq outputs i
    pub follows :
        (d i : NodeId)
        → marked needed i ≡ true
        → Dep dag d i
        → Memᴰ d stack ⊎ (marked needed d ≡ true)
    pub rooted : (i : NodeId) → Output dag eq outputs i → Memᴰ i stack ⊎ (marked needed i ≡ true)

  module _ {needed : NeededMask} {id : NodeId} {stack : List NodeId}
      (h : IsMarking needed (id ∷ stack)) where
    still :
        (i : NodeId)
        → marked needed id ≡ true
        → Memᴰ i (id ∷ stack) ⊎ (marked needed i ≡ true)
        → Memᴰ i stack ⊎ (marked needed i ≡ true)
    still i seen (inr m) = inr m
    still i seen (inl m) = elim (Memᴰ.cases_cons m) [
      | inl here ↦ inr (ap (marked needed) here ∙ seen)
      | inr below ↦ inl below
    ]

    skip-IsMarking : marked needed id ≡ true → IsMarking needed stack
    skip-IsMarking seen = record {
      size = h.size;
      sound = h.sound;
      stacked = λ i m. h.stacked i (Memᴰ.tail m);
      follows = λ d i m e. still d seen (h.follows d i m e);
      rooted = λ i m. still i seen (h.rooted i m);
    }

    module _ (node : Node K O E) (at : NodeAt dag id node) where
      marked-set :
          (i : NodeId) → marked (set needed id true) i ≡ (if id == i then true else marked needed i)
      marked-set i =
          get_or-set needed id true i false
            (omega (arith, h.size, get_elem?-eq-some dag.nodes id at))

      mark-IsMarking : IsMarking (set needed id true) (push_all node.deps stack)
      mark-IsMarking = record {
        size = length-set needed id true ∙ h.size;
        sound = λ i m. elim (ℕ_discrete id i) [
          | yes e ↦ subst (Needed dag eq outputs) e here
          | no n ↦ h.sound i (ground (arith, marked-set i))
        ];
        stacked = λ i m. elim ((mem-push_all node.deps stack i).0 m) [
          | inl new ↦ step here (dep at new)
          | inr old ↦ h.stacked i (Memᴰ.tail old)
        ];
        follows = λ d i m e. elim (ℕ_discrete id i) [
          | yes same ↦ inl (
              (mem-push_all node.deps stack d).1
                (inl (deps_of dag id at d (subst (Dep dag d) (sym same) e))))
          | no n ↦ keep d (h.follows d i (ground (arith, marked-set i)) e)
        ];
        rooted = λ i m. keep i (h.rooted i m);
      }
        where
          here : Needed dag eq outputs id
          here = h.stacked id (Memᴰ.head refl)

          keep :
              (i : NodeId)
              → Memᴰ i (id ∷ stack) ⊎ (marked needed i ≡ true)
              → Memᴰ i (push_all node.deps stack) ⊎ (marked (set needed id true) i ≡ true)
          keep i m =
              ground (arith, marked-set i, mem-push_all node.deps stack i, Memᴰ-cons i id stack)

  module _ (Q : ExecError K E → Type 0) where
    -- A round keeps the invariant, and there is one push fewer to come.
    mark_round_lem :
        (needed : NeededMask) (id : NodeId) (stack : List NodeId)
        → IsMarking needed (id ∷ stack)
        → Ensures
            (λ p.
              IsMarking p.0 p.1
              × (length p.1 + open_edges p.0 dag.nodes
                  ≡ length stack + open_edges needed dag.nodes))
            Q
            (mark_round dag needed id stack)
    unfolding mark_round
    mark_round_lem needed id stack h =
        let lt : id < length dag.nodes = Needed-lt (h.stacked id (Memᴰ.head refl)) in
        elim (Bool-cases (marked needed id)) [
          | inl seen ↦
              rw (index-eq-done needed id false (omega (arith, h.size)), seen)
                (skip-IsMarking h seen, refl)
          | inr new ↦
              let (node, at) = get_elem?-exists dag.nodes id lt in
              let fits : id < length needed = omega (arith, h.size) in
              rw
                (
                  index-eq-done needed id false fits,
                  new,
                  assign-eq-done needed id true fits,
                  index-at dag.nodes id at,
                )
                (
                  mark-IsMarking h node at,
                  omega (
                    arith,
                    length-push_all node.deps stack,
                    open_edges-set needed dag.nodes id h.size at new,
                  ),
                )
        ]

    pub mark_loop_lem :
        (fuel : ℕ) (needed : NeededMask) (stack : List NodeId)
        → IsMarking needed stack
        → length stack + open_edges needed dag.nodes ≤ fuel
        → Ensures (λ r. IsMarking r []) Q (mark_loop dag fuel needed stack)
    unfolding mark_loop
    mark_loop_lem zero needed [] h enough = h
    mark_loop_lem (suc fuel) needed [] h enough = h
    mark_loop_lem zero needed (id ∷ stack) h enough = absurd (omega arith)
    mark_loop_lem (suc fuel) needed (id ∷ stack) h enough =
        Ensures-bind Q _ (λ r. IsMarking r []) (mark_round dag needed id stack) _
          (mark_round_lem needed id stack h)
          λ p k. mark_loop_lem fuel p.0 p.1 k.0 (omega (arith, k.1))
