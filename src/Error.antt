-- ===== src/Error.antt =====
-- error.rs: the error values, and the texts that they display.
use Prim.Native.String.{◌++◌}
use rust_dag_executor.Prelude.{String, List, [], ◌∷◌}

pub data BuildError (K : Type 0) : Type 0 where
  duplicate_key : K → BuildError K
  missing_key : K → BuildError K
  missing_dependency : (task missing : K) → BuildError K
  empty_graph : BuildError K

pub data ExecError (K E : Type 0) : Type 0 where
  build : BuildError K → ExecError K E
  cycle : (remaining : List K) → ExecError K E
  task_failed : (task : K) (error : E) → ExecError K E
  output_missing : K → ExecError K E
  internal_invariant : String → ExecError K E

-- `impl From<BuildError<K>> for ExecError<K, E>`
pub from : {K E : Type 0} → BuildError K → ExecError K E
from e = build e

-- The texts, over the ones that `{:?}` makes of keys and of errors of tasks.
module _ {K : Type 0} (debug_key : K → String) where
  unfoldable pub display_build : BuildError K → String
  display_build (duplicate_key k) = "duplicate task key: " ++ debug_key k
  display_build (missing_key k) = "missing task key: " ++ debug_key k
  display_build (missing_dependency task missing) =
      "task " ++ debug_key task ++ " depends on missing key " ++ debug_key missing
  display_build empty_graph = "empty graph"

  abbrev more_keys : List K → String
  more_keys [] = "]"
  more_keys (k ∷ keys) = ", " ++ debug_key k ++ more_keys keys

  -- `{:?}` of a vector of keys.
  abbrev pub debug_keys : List K → String
  debug_keys [] = "[]"
  debug_keys (k ∷ keys) = "[" ++ debug_key k ++ more_keys keys

  unfoldable pub display_exec : {E : Type 0} → (E → String) → ExecError K E → String
  display_exec debug_error (build e) = "build error: " ++ display_build e
  display_exec debug_error (cycle remaining) = "cycle detected; remaining: " ++ debug_keys remaining
  display_exec debug_error (task_failed task error) =
      "task " ++ debug_key task ++ " failed: " ++ debug_error error
  display_exec debug_error (output_missing k) = "requested output missing: " ++ debug_key k
  display_exec debug_error (internal_invariant msg) = "internal invariant violated: " ++ msg
