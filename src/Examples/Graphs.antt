-- ===== src/Examples/Graphs.antt =====
-- What the graphs that the examples build have in common: keys are texts, values are byte strings,
-- and the tasks are closures over the toy hash.
pub mod Leaves
pub mod Levels
use mathlib.Core.List.{List-discrete}
use rust_dag_executor.Prelude.{ℕ, List, [], ◌∷◌, String, ℕ_discrete}
use rust_dag_executor.Prelude.Result.{Result, ok, err}
use rust_dag_executor.Prelude.Outcome.{Outcome, done, fail, panic, out_of_fuel, ◌>>=◌, index}
use rust_dag_executor.Error.{BuildError}
use rust_dag_executor.Graph.{TaskFn, Dag}
use rust_dag_executor.Builder.{DagBuilder}
use rust_dag_executor.Examples.Text.{Text}
use rust_dag_executor.Examples.Common.{Bytes, ensure_32, hash_leaf_with_iters, hash_node_with_iters}

pub text_eq : Discrete Text
text_eq = List-discrete ℕ_discrete

abbrev pub DagT : Type 0
DagT = Dag Text Bytes String

abbrev pub Builder : Type 0
Builder = DagBuilder Text Bytes String

-- `?` on a result
abbrev pub of_result {ℓ κ} : {A : Type ℓ} {X : Type κ} → Result A X → Outcome X A
of_result (ok a) = done a
of_result (err x) = fail x

-- What a closure returns. A panic, which a task of the model does not have, is the error "panic".
abbrev pub as_result : Outcome String Bytes → Result Bytes String
as_result (done v) = ok v
as_result (fail e) = err e
as_result panic = err "panic"
as_result out_of_fuel = err "panic"

-- A closure as a task.
abbrev pub closure : (List Bytes → Outcome String Bytes) → TaskFn Bytes String
closure body xs = as_result (body xs)

unfoldable pub hash_leaf_body : ℕ → List Bytes → Outcome String Bytes
hash_leaf_body iters xs = do tx ← index xs 0; done (hash_leaf_with_iters iters tx)

unfoldable pub hash_node_body : ℕ → List Bytes → Outcome String Bytes
hash_node_body iters xs = do
  left ← index xs 0
  _ ← of_result (ensure_32 left)
  right ← index xs 1
  _ ← of_result (ensure_32 right)
  done (hash_node_with_iters iters left right)
