-- ===== src/Tests/Witnesses.antt =====
-- Each property with hypotheses, applied at a concrete input that meets them.
use mathlib.Core.List.Memᴰ
use mathlib.Core.WellFounded.{Acc}
use rust_dag_executor.Prelude.{
  ℕ, zero, suc, ◌+◌, ◌<◌, ◌≡◌, ◌≢◌, refl, List, [], ◌∷◌, Bool, true, false, none, some, Memᴰ,
  ℕ_discrete, arith, ap, Option, bit, ltb, get_or, count,
}
use rust_dag_executor.Prelude.HashMap.{HashMap, get}
use rust_dag_executor.Prelude.Result.{ok}
use rust_dag_executor.Prelude.Outcome.{done, Ensures, Allows}
use rust_dag_executor.Graph.{NodeId}
use rust_dag_executor.Graph.Semantics.{Dep, Needed, Eval, of_source, of_task, nil, cons, Fails}
use rust_dag_executor.Graph.Values.{Eval-Acc, not-Fails_of_Eval}
use rust_dag_executor.Graph.WellFormed.{IsWellFormed}
use rust_dag_executor.Builder.{build}
use rust_dag_executor.Builder
use rust_dag_executor.Builder.Calls.{
  Call, source_call, task_call, node_of, perform, perform_all, staged_at, first_call, first_calls,
  answer,
}
use rust_dag_executor.Builder.Calls.First.{perform_all_lem}
use rust_dag_executor.Exec.Scheduling.{Frontier, release_dependents}
use rust_dag_executor.Exec.Common.Counters.{deps_at, IsMetadata, build_kahn_metadata_lem}
use rust_dag_executor.Exec.Common.Needed.{
  marked, Needed-lt, IsNeededMask, IsMissing, mark_needed_lem,
}
use rust_dag_executor.Exec.Scheduling.Waiting.{
  expected, has_value, IsFrontier, release_dependents_lem,
}
use rust_dag_executor.Builder.Build.{build-IsWellFormed, Reports, build_lem}
use rust_dag_executor.Exec.Observe.{noop_observer}
use rust_dag_executor.Exec.Common.{mark_needed, build_kahn_metadata}
use rust_dag_executor.Exec.Common.Collect.{IsAnswer}
use rust_dag_executor.Exec.Sequential.{run, execute}
use rust_dag_executor.Exec.Sequential.Correct.{Succeeds, IsExecError, execute_lem, run_lem}
use rust_dag_executor.Exec.Sequential.Requests.{run_answers, run-cycle, run_agrees}
use rust_dag_executor.Exec.Parallel
use rust_dag_executor.Exec.Executor.{new, run_sequential}
use rust_dag_executor.Exec.Parallel.{run_with_observer, run_until}
use rust_dag_executor.Exec.Parallel.Requests.{
  IsParallelError, run_with_observer_lem, run_parallel_lem, IsWithin, run_until_lem,
}
use rust_dag_executor.Exec.Parallel.Machine.{IsConfig}
use rust_dag_executor.Exec.Parallel.Agreement.{run_parallel_agrees}
use rust_dag_executor.Tests.ParallelRuns.{two_workers, turns, parallel_d}
use rust_dag_executor.Tests.Samples.{
  chain_builder, chain_made, chain, cycle_builder, cycle_made, ring,
}
use rust_dag_executor.Tests.Runs.{program, chain_built, ring_built, chain_d, chain_c_d, ring_a}

pub chain_wf : IsWellFormed ℕ_discrete chain
chain_wf = build-IsWellFormed ℕ_discrete chain_builder chain_made chain_built

ring_wf : IsWellFormed ℕ_discrete ring
ring_wf = build-IsWellFormed ℕ_discrete cycle_builder cycle_made ring_built

abbrev pub ask_d : List ℕ
ask_d = b'd' ∷ []

value_c : Eval chain 2 3
value_c = of_task refl refl (cons (of_source refl refl) (cons (of_source refl refl) nil)) refl

value_d : Eval chain 3 5
value_d = of_task refl refl (cons value_c (cons (of_source refl refl) nil)) refl

chain_value : (i : NodeId) → i < 4 → (v : ℕ) × Eval chain i v
chain_value zero lt = (1, of_source refl refl)
chain_value (suc zero) lt = (2, of_source refl refl)
chain_value (suc (suc zero)) lt = (3, value_c)
chain_value (suc (suc (suc zero))) lt = (5, value_d)
chain_value (suc (suc (suc (suc i)))) lt = absurd (omega arith)

run_lem_example :
    Ensures
      (IsAnswer ℕ_discrete chain ask_d)
      (IsExecError ℕ_discrete chain ask_d)
      (run ℕ_discrete chain ask_d)
run_lem_example = run_lem ℕ_discrete chain ask_d chain_wf

execute_lem_example :
    Ensures
      (Succeeds ℕ_discrete chain ask_d chain_wf noop_observer)
      (IsExecError ℕ_discrete chain ask_d)
      (execute ℕ_discrete chain noop_observer ask_d tt)
execute_lem_example = execute_lem ℕ_discrete chain ask_d chain_wf noop_observer tt

pub d_known : (k : ℕ) → Memᴰ k ask_d → get ℕ_discrete chain.index k ≢ none
unfolding program
d_known k m e = cc (ap (get ℕ_discrete chain.index) (Memᴰ.eq_of_singleton m))

Needed-value : (i : NodeId) → Needed chain ℕ_discrete ask_d i → (v : ℕ) × Eval chain i v
Needed-value i n = chain_value i (Needed-lt ℕ_discrete chain chain_wf ask_d n)

pub Needed-acyclic : (i : NodeId) → Needed chain ℕ_discrete ask_d i → Acc (Dep chain) i
Needed-acyclic i n = Eval-Acc chain chain_wf.closed (Needed-value i n).1

pub Needed-safe : (i : NodeId) (e : ℕ) → Needed chain ℕ_discrete ask_d i → Fails chain i e → ⊥
Needed-safe i e n = not-Fails_of_Eval chain (Needed-value i n).1

run_answers_example :
    (out : HashMap ℕ ℕ) × (run ℕ_discrete chain ask_d ≡ done out)
    × IsAnswer ℕ_discrete chain ask_d out
run_answers_example =
    run_answers ℕ_discrete chain chain_wf ask_d (λ e. cc) d_known Needed-acyclic Needed-safe

run-cycle_example :
    ◌≢◌ {A = List ℕ} (b'a' ∷ b'b' ∷ []) []
    × ((k : ℕ)
        → Memᴰ k (b'a' ∷ b'b' ∷ [])
        → (i : NodeId) × (get ℕ_discrete ring.index k ≡ some i)
          × Needed ring ℕ_discrete (b'a' ∷ []) i
          × (¬ Acc (Dep ring) i))
run-cycle_example = run-cycle ℕ_discrete ring ring_wf (b'a' ∷ []) (b'a' ∷ b'b' ∷ []) ring_a

run_agrees_example :
    get {V = ℕ} ℕ_discrete ((b'd', 5) ∷ []) b'd'
    ≡ get {V = ℕ} ℕ_discrete ((b'c', 3) ∷ (b'd', 5) ∷ []) b'd'
run_agrees_example =
    run_agrees ℕ_discrete chain chain_wf ask_d (b'c' ∷ b'd' ∷ []) ((b'd', 5) ∷ [])
      ((b'c', 3) ∷ (b'd', 5) ∷ []) chain_d chain_c_d b'd' (Memᴰ.head refl)
      (Memᴰ.tail (Memᴰ.head refl))

build-IsWellFormed_example : IsWellFormed ℕ_discrete ring
build-IsWellFormed_example = build-IsWellFormed ℕ_discrete cycle_builder cycle_made ring_built

build_lem_example : Reports ℕ_discrete chain_builder (build ℕ_discrete chain_builder)
build_lem_example = build_lem ℕ_discrete chain_builder chain_made

-- The third call uses the key of the first.
abbrev calls : List (Call ℕ ℕ ℕ)
calls = source_call b'b' 1 ∷ task_call b'c' (b'b' ∷ []) (λ args. ok 7) ∷ source_call b'b' 9 ∷ []

perform_all_lem_example :
    ((k : ℕ)
      → staged_at ℕ_discrete (perform_all ℕ_discrete Builder.new calls) k
        ≡ first_call ℕ_discrete k calls)
    × ((perform_all ℕ_discrete Builder.new calls).staging ≡ first_calls ℕ_discrete [] calls)
    × ((c : Call ℕ ℕ ℕ)
        → (perform ℕ_discrete (perform_all ℕ_discrete Builder.new calls) c).1
          ≡ answer c (first_call ℕ_discrete (node_of c).key calls))
perform_all_lem_example = perform_all_lem ℕ_discrete calls

mark_needed_lem_example :
    Ensures
      (IsNeededMask ℕ_discrete chain chain_wf (b'c' ∷ []))
      (IsMissing ℕ_discrete chain (b'c' ∷ []))
      (mark_needed ℕ_discrete chain (b'c' ∷ []))
mark_needed_lem_example = mark_needed_lem ℕ_discrete chain chain_wf (b'c' ∷ [])

-- d is not needed
abbrev c_mask : List Bool
c_mask = true ∷ true ∷ true ∷ false ∷ []

build_kahn_metadata_lem_example :
    Ensures
      (IsMetadata chain chain_wf.closed c_mask refl)
      (λ _. ⊥)
      (build_kahn_metadata chain c_mask)
build_kahn_metadata_lem_example = build_kahn_metadata_lem chain chain_wf.closed c_mask refl (λ _. ⊥)

-- a has just got its value, b is ready, and c and d wait: the row of a is still to be released.
abbrev halfway : Frontier (Unit {0})
halfway = record { indeg = 0 ∷ 0 ∷ 2 ∷ 2 ∷ []; ready = 1 ∷ []; observer = tt }

abbrev halfway_vals : List (Option ℕ)
halfway_vals = some 1 ∷ none ∷ none ∷ none ∷ []

halfway_waits :
    (i : NodeId)
    → get_or halfway.indeg i 0
      ≡ expected chain (true ∷ true ∷ true ∷ true ∷ []) halfway_vals i + count i (2 ∷ [])
unfolding deps_at
halfway_waits zero = refl
halfway_waits (suc zero) = refl
halfway_waits (suc (suc zero)) = refl
halfway_waits (suc (suc (suc zero))) = refl
halfway_waits (suc (suc (suc (suc i)))) = ground arith

halfway_places :
    (i : NodeId)
    → count i halfway.ready
        + 0
        + bit (has_value halfway_vals i)
        + bit (ltb 0 (get_or halfway.indeg i 0))
      ≡ bit (marked (true ∷ true ∷ true ∷ true ∷ []) i)
halfway_places zero = refl
halfway_places (suc zero) = refl
halfway_places (suc (suc zero)) = refl
halfway_places (suc (suc (suc zero))) = refl
halfway_places (suc (suc (suc (suc i)))) = ground arith

release_dependents_lem_example :
    Ensures {X = ℕ}
      (IsFrontier chain (true ∷ true ∷ true ∷ true ∷ []) halfway_vals (λ _. 0) [])
      (λ _. ⊥)
      (release_dependents noop_observer (2 ∷ []) halfway)
release_dependents_lem_example =
    release_dependents_lem chain (true ∷ true ∷ true ∷ true ∷ []) noop_observer (λ _. ⊥) (2 ∷ [])
      halfway (record { counters = refl; waits = halfway_waits; places = halfway_places })

run_with_observer_lem_example :
    Allows
      (Succeeds ℕ_discrete chain ask_d chain_wf noop_observer)
      (IsParallelError ℕ_discrete chain two_workers ask_d)
      (run_with_observer ℕ_discrete chain two_workers noop_observer (turns 30) ask_d tt)
run_with_observer_lem_example =
    run_with_observer_lem ℕ_discrete chain two_workers ask_d chain_wf noop_observer (turns 30) tt

run_parallel_lem_example :
    Allows
      (IsAnswer ℕ_discrete chain ask_d)
      (IsParallelError ℕ_discrete chain two_workers ask_d)
      (Parallel.run ℕ_discrete chain two_workers (turns 30) ask_d)
run_parallel_lem_example = run_parallel_lem ℕ_discrete chain two_workers ask_d chain_wf (turns 30)

run_parallel_agrees_example :
    (out' : HashMap ℕ ℕ) × (run_sequential ℕ_discrete (new two_workers) chain ask_d ≡ done out')
    × ((k : ℕ) → get {V = ℕ} ℕ_discrete ((b'd', 5) ∷ []) k ≡ get ℕ_discrete out' k)
run_parallel_agrees_example =
    run_parallel_agrees ℕ_discrete chain chain_wf two_workers (turns 30) ask_d ((b'd', 5) ∷ [])
      parallel_d

pub two_workers-IsConfig : IsConfig two_workers
two_workers-IsConfig = record {
  max_workers = omega arith;
  max_in_flight = omega arith;
  worker_queue_cap = omega arith;
}

run_until_lem_example :
    Ensures
      (IsWithin ℕ_discrete chain two_workers ask_d chain_wf noop_observer)
      (IsParallelError ℕ_discrete chain two_workers ask_d)
      (run_until ℕ_discrete chain two_workers noop_observer (turns 5) ask_d tt)
run_until_lem_example =
    run_until_lem ℕ_discrete chain two_workers ask_d chain_wf noop_observer two_workers-IsConfig
      (turns 5) tt
