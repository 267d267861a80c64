-- ===== src/Builder/Calls.antt =====
-- builder.rs: a builder after any sequence of calls of `add_source` and `add_task`, some of which may
-- fail, next to a description of the same calls that has neither an index nor places.
mod Staged
pub mod First
use rust_dag_executor.Prelude.{
  ℕ, ◌≡◌, refl, sym, ap, ◌∙◌, subst, List, [], ◌∷◌, ◌++◌, Option, none, some, inl, inr, is_some,
  length, get_elem?, get_elem?-append_last, get_elem?-append_left, Option-cases, if◌then◌else◌, ite,
  ◌⊎◌, ◌≢◌,
}
use mathlib.Core.Logic.{if_pos, if_neg}
use mathlib.Core.List.{append-nil, append_assoc}
use rust_dag_executor.Prelude.HashMap.{get, insert, get-insert_self, get-insert_ne}
use rust_dag_executor.Prelude.Result.{Result, ok, err}
use rust_dag_executor.Error.{BuildError, duplicate_key}
use rust_dag_executor.Graph.{TaskFn}
use rust_dag_executor.Builder.{
  staged_source, staged_task, StagedNode, DagBuilder, new, insert_node, add_source, add_task,
}
use rust_dag_executor.Builder.Staging.{
  IsConsistent, Built, Built-IsConsistent, staged, insert_node_lem,
}

-- A call of a builder with its arguments.
pub data Call (K O E : Type 0) : Type 0 where
  source_call : K → O → Call K O E
  task_call : K → List K → TaskFn O E → Call K O E

module _ {K O E : Type 0} where
  -- What the caller asks to be staged.
  abbrev pub node_of : Call K O E → StagedNode K O E
  node_of (source_call key value) = record { key = key; deps = []; kind = staged_source value }
  node_of (task_call key deps f) = record { key = key; deps = deps; kind = staged_task f }

  -- The node at a place that the index may have.
  abbrev pub at_place : DagBuilder K O E → Option ℕ → Option (StagedNode K O E)
  at_place b none = none
  at_place b (some i) = get_elem? b.staging i

  -- What a call returns, from the first call before it with its key.
  abbrev pub answer : Call K O E → Option (StagedNode K O E) → Result (Unit {0}) (BuildError K)
  answer c none = ok tt
  answer c (some _) = err (duplicate_key (node_of c).key)

  module _ (eq : Discrete K) where
    abbrev pub perform :
        DagBuilder K O E → Call K O E → DagBuilder K O E × Result (Unit {0}) (BuildError K)
    perform b (source_call key value) = add_source eq b key value
    perform b (task_call key deps f) = add_task eq b key deps f

    -- The builder after the calls, whose results the caller ignores.
    abbrev pub perform_all : DagBuilder K O E → List (Call K O E) → DagBuilder K O E
    perform_all b [] = b
    perform_all b (c ∷ calls) = perform_all (perform b c).0 calls

    -- The node that the index of a builder leads a key to.
    abbrev pub staged_at : DagBuilder K O E → K → Option (StagedNode K O E)
    staged_at b k = at_place b (get eq b.index k)

    -- The node of the first call with the key.
    abbrev pub first_call : K → List (Call K O E) → Option (StagedNode K O E)
    first_call k [] = none
    first_call k (c ∷ calls) = ite (eq (node_of c).key k) (some (node_of c)) (first_call k calls)

    -- The nodes of the calls that are the first with their key, the calls `before` included.
    abbrev pub first_calls : List (Call K O E) → List (Call K O E) → List (StagedNode K O E)
    first_calls before [] = []
    first_calls before (c ∷ calls) =
        let rest = first_calls (before ++ c ∷ []) calls in
        if is_some (first_call (node_of c).key before) then rest else node_of c ∷ rest
