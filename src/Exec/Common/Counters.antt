-- ===== src/Exec/Common/Counters.antt =====
-- `build_kahn_metadata`: a needed node waits for each occurrence of a dependency, and stands as
-- often in the row of that dependency.
use rust_dag_executor.Prelude.{
  ℕ, zero, suc, ◌+◌, ◌<◌, ◌≡◌, refl, sym, ap, ◌∙◌, inl, inr, List, [], ◌∷◌, ◌++◌, true, false, ◌&&◌,
  Option, none, some, arith, ltb, ◌==◌, bit, length, get_elem?, get_or, set, replicate, get_or-set,
  length-set, length-replicate, get_or-replicate, get_elem?-exists, Bool-cases, if◌then◌else◌,
  count, count-append, total, total-suc, total-zero, Memᴰ,
}
use rust_dag_executor.Prelude.Outcome.{
  ◌>>=◌, Ensures, Ensures-bind, Ensures-mono, index, assign, index-eq-done, index-at,
  assign-eq-done, each_inv, range_inv,
}
use rust_dag_executor.Error.{ExecError}
use rust_dag_executor.Graph.{NodeId, Node, Dag}
use rust_dag_executor.Graph.Semantics.{NodeAt}
use rust_dag_executor.Graph.WellFormed.{IsClosed}
use rust_dag_executor.Exec.Common.{
  NeededMask, KahnMetadata, add_dependent, kahn_round, build_kahn_metadata,
}
use rust_dag_executor.Exec.Common.Needed.{marked}

module _ {K O E : Type 0} (dag : Dag K O E) where
  abbrev pub deps_or_nil : Option (Node K O E) → List NodeId
  deps_or_nil none = []
  deps_or_nil (some node) = node.deps

  -- The dependencies of node `i`, none where there is no such node.
  unfoldable pub deps_at : NodeId → List NodeId
  deps_at i = deps_or_nil (get_elem? dag.nodes i)

  pub deps_at-eq : (i : NodeId) {node : Node K O E} → NodeAt dag i node → deps_at i ≡ node.deps
  unfolding deps_at
  deps_at-eq i at = rw at

abbrev pub row : List (List NodeId) → NodeId → List NodeId
row dependents d = get_or dependents d []

pub lt-length_of_marked :
    (needed : NeededMask) (i : NodeId) → marked needed i ≡ true → i < length needed
lt-length_of_marked [] i h = cc
lt-length_of_marked (b ∷ needed) zero h = omega arith
lt-length_of_marked (b ∷ needed) (suc i) h = omega (arith, lt-length_of_marked needed i h)

module _ {X : Type 0} (Q : X → Type 0) (n : ℕ) (i : NodeId) (before : List (List NodeId))
    (deps : List NodeId) where
  -- With `left` still to be added to the rows `before`.
  record IsAdding (left : List NodeId) (dependents : List (List NodeId)) : Type 0 where
    size : length dependents ≡ n
    in_range : (d : NodeId) → Memᴰ d left → d < n
    rows :
        (d j : NodeId)
        → count j (row dependents d) + (if i == j then count d left else 0)
          ≡ count j (row before d) + (if i == j then count d deps else 0)

  add_round :
      (d : NodeId) (left : List NodeId) (dependents : List (List NodeId))
      → IsAdding (d ∷ left) dependents
      → Ensures {X = X}
          (IsAdding left)
          Q
          (index dependents d >>= λ r. assign dependents d (r ++ i ∷ []))
  add_round d left dependents h =
      let lt : d < length dependents = omega (arith, h.size, h.in_range d (Memᴰ.head refl)) in
      rw
        (
          index-eq-done dependents d [] lt,
          assign-eq-done dependents d (row dependents d ++ i ∷ []) lt,
        )
        (record {
          size = length-set dependents d _ ∙ h.size;
          in_range = λ e m. h.in_range e (Memᴰ.tail m);
          rows = λ e j. ground (
            arith,
            h.rows e j,
            get_or-set dependents d (row dependents d ++ i ∷ []) e [] lt,
            count-append j (row dependents d) (i ∷ []),
          );
        })

module _ {K O E : Type 0} (dag : Dag K O E) (closed : IsClosed dag) (needed : NeededMask)
    (size : length needed ≡ length dag.nodes) where
  -- The nodes below `k` are counted.
  record IsCounted (k : ℕ) (m : KahnMetadata) : Type 0 where
    rows : length m.dependents ≡ length dag.nodes
    counters : length m.indeg ≡ length dag.nodes
    indeg :
        (i : NodeId)
        → get_or m.indeg i 0 ≡ (if ltb i k && marked needed i then length (deps_at dag i) else 0)
    dependents :
        (d i : NodeId)
        → count i (row m.dependents d)
          ≡ (if ltb i k && marked needed i then count d (deps_at dag i) else 0)
    needed_count : m.needed_count ≡ total k (λ i. bit (marked needed i))

  -- The metadata of the needed subgraph.
  pub record IsMetadata (m : KahnMetadata) : Type 0 where
    pub rows : length m.dependents ≡ length dag.nodes
    pub counters : length m.indeg ≡ length dag.nodes
    pub indeg :
        (i : NodeId) → get_or m.indeg i 0 ≡ (if marked needed i then length (deps_at dag i) else 0)
    pub dependents :
        (d i : NodeId)
        → count i (row m.dependents d) ≡ (if marked needed i then count d (deps_at dag i) else 0)
    pub needed_count : m.needed_count ≡ total (length dag.nodes) (λ i. bit (marked needed i))

  IsCounted-end : (m : KahnMetadata) → IsCounted (length dag.nodes) m → IsMetadata m
  IsCounted-end m h = record {
    rows = h.rows;
    counters = h.counters;
    indeg = λ i. ground (arith, h.indeg i, marked-lt i);
    dependents = λ d i. ground (arith, h.dependents d i, marked-lt i);
    needed_count = h.needed_count;
  }
    where
      marked-lt : (i : NodeId) → marked needed i ≡ true → i < length dag.nodes
      marked-lt i on = omega (arith, lt-length_of_marked needed i on, size)

  module _ (Q : ExecError K E → Type 0) where
    add_dependent_lem :
        (i : NodeId) (dependents : List (List NodeId)) (deps : List NodeId)
        → length dependents ≡ length dag.nodes
        → ((d : NodeId) → Memᴰ d deps → d < length dag.nodes)
        → Ensures
            (IsAdding Q (length dag.nodes) i dependents deps [])
            Q
            (add_dependent dag needed i dependents deps)
    unfolding add_dependent
    add_dependent_lem i dependents deps rows in_range =
        each_inv Q (IsAdding Q (length dag.nodes) i dependents deps) _
          (add_round Q (length dag.nodes) i dependents deps) deps dependents
          (record { size = rows; in_range = in_range; rows = λ d j. refl })

    IsCounted-skip :
        (k : ℕ) (m : KahnMetadata) → IsCounted k m → marked needed k ≡ false → IsCounted (suc k) m
    IsCounted-skip k m h off = record {
      rows = h.rows;
      counters = h.counters;
      indeg = λ i. ground (arith, h.indeg i);
      dependents = λ d i. ground (arith, h.dependents d i);
      needed_count =
          omega (arith, h.needed_count, total-suc k (λ i. bit (marked needed i)), ap bit off);
    }

    IsCounted-add :
        (k : ℕ) (m : KahnMetadata) (node : Node K O E) (dependents : List (List NodeId))
        → k < length dag.nodes
        → IsCounted k m
        → marked needed k ≡ true
        → NodeAt dag k node
        → IsAdding Q (length dag.nodes) k m.dependents node.deps [] dependents
        → IsCounted (suc k) (record {
          dependents = dependents;
          indeg = set m.indeg k (length node.deps);
          needed_count = m.needed_count + 1;
        })
    IsCounted-add k m node dependents lt h on at added =
        let here : deps_at dag k ≡ node.deps = deps_at-eq dag k at in
        record {
          rows = added.size;
          counters = length-set m.indeg k _ ∙ h.counters;
          indeg = λ i. ground (
            arith,
            h.indeg i,
            get_or-set m.indeg k (length node.deps) i 0 (omega (arith, h.counters)),
            here,
          );
          dependents = λ d i. ground (arith, h.dependents d i, added.rows d i, here);
          needed_count =
              omega (arith, h.needed_count, total-suc k (λ i. bit (marked needed i)), ap bit on);
        }

    kahn_round_lem :
        (m : KahnMetadata) (k : ℕ)
        → k < length dag.nodes
        → IsCounted k m
        → Ensures (IsCounted (suc k)) Q (kahn_round dag needed m k)
    unfolding kahn_round
    kahn_round_lem m k lt h = elim (Bool-cases (marked needed k)) [
      | inl on ↦
          let (node, at) = get_elem?-exists dag.nodes k lt in
          let fits : k < length m.indeg = omega (arith, h.counters) in
          rw
            (
              index-eq-done needed k false (omega (arith, size)),
              on,
              index-at dag.nodes k at,
              assign-eq-done m.indeg k (length node.deps) fits,
            )
            (Ensures-bind Q (IsAdding Q (length dag.nodes) k m.dependents node.deps [])
              (IsCounted (suc k)) (add_dependent dag needed k m.dependents node.deps) _
              (add_dependent_lem k m.dependents node.deps h.rows
                (λ d dep. closed.bounded k at d dep))
              λ dependents added. IsCounted-add k m node dependents lt h on at added)
      | inr off ↦
          rw (index-eq-done needed k false (omega (arith, size)), off) (IsCounted-skip k m h off)
    ]

    -- On a well-formed graph the metadata is computed without a panic: the counter of a needed
    -- node is the number of its dependencies, and the node stands in the row of another as often
    -- as that is a dependency of it; what is not needed counts nowhere.
    pub build_kahn_metadata_lem : Ensures IsMetadata Q (build_kahn_metadata dag needed)
    unfolding build_kahn_metadata
    build_kahn_metadata_lem =
        Ensures-mono Q (IsCounted (length dag.nodes)) IsMetadata _
          (range_inv Q (length dag.nodes) IsCounted (kahn_round dag needed)
            (λ k m lt h. kahn_round_lem m k lt h) (length dag.nodes) 0 _ (omega arith) start)
          IsCounted-end
      where
        start : IsCounted 0 (record {
          dependents = replicate (length dag.nodes) [];
          indeg = replicate (length dag.nodes) 0;
          needed_count = 0;
        })
        start = record {
          rows = length-replicate _ _;
          counters = length-replicate _ _;
          indeg = λ i. ground (arith, get_or-replicate {A = ℕ} (length dag.nodes) 0 i);
          dependents = λ d i.
              ground
                (arith, ap (count i) (get_or-replicate {A = List NodeId} (length dag.nodes) [] d));
          needed_count = sym (total-zero _);
        }
