-- ===== src/Tests/Samples.antt =====
-- The graphs of tests/common/mod.rs, over numbers for keys, values and errors: a key is the code of
-- its letter. What the tests check of runs of them is checked in `Runs`.
use rust_dag_executor.Prelude.{ℕ, ◌+◌, [], ◌∷◌, ℕ_discrete}
use rust_dag_executor.Prelude.Result.{ok, err}
use rust_dag_executor.Graph.{TaskFn, Dag, source, task}
use rust_dag_executor.Builder.{DagBuilder, new, add_source, add_task}
use rust_dag_executor.Builder.Staging.{Built, fresh, with_source, with_task}

-- `Ok(*xs[0] + *xs[1])`; error 99 stands for the panic at too few arguments, which no run meets.
abbrev pub add_two : TaskFn ℕ ℕ
add_two (x ∷ y ∷ []) = ok (x + y)
add_two _ = err 99

abbrev pub one : TaskFn ℕ ℕ
one xs = ok 1

abbrev pub boom : TaskFn ℕ ℕ
boom xs = err 7

-- `build_add_chain_dag`: a = 1, b = 2, c = a + b, d = c + b.
abbrev pub sources : DagBuilder ℕ ℕ ℕ
sources = (add_source ℕ_discrete (add_source ℕ_discrete new b'a' 1).0 b'b' 2).0

abbrev pub with_sum : DagBuilder ℕ ℕ ℕ
with_sum = (add_task ℕ_discrete sources b'c' (b'a' ∷ b'b' ∷ []) add_two).0

abbrev pub chain_builder : DagBuilder ℕ ℕ ℕ
chain_builder = (add_task ℕ_discrete with_sum b'd' (b'c' ∷ b'b' ∷ []) add_two).0

pub chain_made : Built ℕ_discrete chain_builder
chain_made =
    with_task
      (with_task (with_source (with_source fresh b'a' 1) b'b' 2) b'c' (b'a' ∷ b'b' ∷ []) add_two)
      b'd' (b'c' ∷ b'b' ∷ []) add_two

abbrev pub chain : Dag ℕ ℕ ℕ
chain = record {
  nodes =
      record { key = b'a'; deps = []; kind = source 1 }
      ∷ record { key = b'b'; deps = []; kind = source 2 }
      ∷ record { key = b'c'; deps = 0 ∷ 1 ∷ []; kind = task add_two }
      ∷ record { key = b'd'; deps = 2 ∷ 1 ∷ []; kind = task add_two }
      ∷ [];
  index = (b'a', 0) ∷ (b'b', 1) ∷ (b'c', 2) ∷ (b'd', 3) ∷ [];
}

-- `build_cycle_dag`: a and b depend on one another.
abbrev pub cycle_builder : DagBuilder ℕ ℕ ℕ
cycle_builder =
    (add_task ℕ_discrete (add_task ℕ_discrete new b'a' (b'b' ∷ []) one).0 b'b' (b'a' ∷ []) one).0

pub cycle_made : Built ℕ_discrete cycle_builder
cycle_made = with_task (with_task fresh b'a' (b'b' ∷ []) one) b'b' (b'a' ∷ []) one

abbrev pub ring : Dag ℕ ℕ ℕ
ring = record {
  nodes =
      record { key = b'a'; deps = 1 ∷ []; kind = task one }
      ∷ record { key = b'b'; deps = 0 ∷ []; kind = task one }
      ∷ [];
  index = (b'a', 0) ∷ (b'b', 1) ∷ [];
}

-- `build_failing_dag`
abbrev pub failing_builder : DagBuilder ℕ ℕ ℕ
failing_builder = (add_task ℕ_discrete (add_source ℕ_discrete new b'a' 1).0 b'c' (b'a' ∷ []) boom).0
