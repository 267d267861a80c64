-- ===== src/Exec/Parallel/Measure.antt =====
-- What bounds a run of the parallel scheduler: the nodes still to be dispatched, the actions that the
-- pool has still to make, and the way to the next receipt.
use rust_dag_executor.Prelude.{ℕ, ◌+◌, ◌-◌, ◌*◌, ◌<◌, ◌≤◌, ◌≡◌, arith, bit, length, total, total-le}
use rust_dag_executor.Graph.{NodeId, ExecutorConfig, Dag}
use rust_dag_executor.Exec.Common.{NodeValues, NeededMask}
use rust_dag_executor.Exec.Common.Needed.{marked}
use rust_dag_executor.Exec.Scheduling.Waiting.{has_value}
use rust_dag_executor.Exec.Pool.{WorkerPool}
use rust_dag_executor.Exec.Pool.Load.{load}
use rust_dag_executor.Exec.Parallel.{Phase, outer, inner, sending, checking, receiving}
use rust_dag_executor.Exec.Parallel.Machine.{is}

-- The steps of a phase to the next receipt, with `n` workers.
abbrev pub rank : {O E : Type 0} → ℕ → Phase O E → ℕ
rank n outer = n + 6
rank n inner = n + 5
rank n (sending rounds t) = rounds + 3
rank n checking = 2
rank n receiving = 1

module _ (n : ℕ) where
  -- A dispatch is worth more than all it makes to do: the way back to `inner`, and three actions.
  unfoldable pub weight : ℕ → ℕ → ℕ → ℕ
  weight nodes actions way = (nodes * 4 + actions) * (n + 7) + way

  fewer : (x x' r r' : ℕ) → x' < x → r' < n + 7 → x' * (n + 7) + r' < x * (n + 7) + r
  fewer x x' r r' hx hr = grind arith

  -- One node fewer to dispatch pays for three actions.
  pub weight_dispatch :
      (u u' e e' r r' : ℕ) → u ≡ u' + 1 → e' ≤ e + 3 → r' < n + 7 → weight u' e' r' < weight u e r
  unfolding weight
  weight_dispatch u u' e e' r r' hu he hr = fewer (u * 4 + e) (u' * 4 + e') r r' (omega arith) hr

  pub weight_act :
      (u u' e e' r r' : ℕ) → u' ≤ u → e' < e → r' < n + 7 → weight u' e' r' < weight u e r
  unfolding weight
  weight_act u u' e e' r r' hu he hr = grind arith

  pub weight_work : (u u' e e' r : ℕ) → u' ≤ u → e' < e → weight u' e' r < weight u e r
  unfolding weight
  weight_work u u' e e' r hu he = grind arith

  pub weight-le : (u u' e r : ℕ) → u ≤ u' → weight u e r ≤ weight u' e r
  unfolding weight
  weight-le u u' e r hu = grind arith

  pub weight_way : (u u' e e' r r' : ℕ) → u' ≤ u → e' ≤ e → r' < r → weight u' e' r' < weight u e r
  unfolding weight
  weight_way u u' e e' r r' hu he hr = grind arith

module _ {O E : Type 0} (n : ℕ) (needed : NeededMask) where
  -- Node `i` is needed, has no value, and no worker has it.
  abbrev pub still : NodeValues O → WorkerPool O E → NodeId → ℕ
  still vals pool i = bit (marked needed i) - bit (has_value vals i) - load (is i) pool

  abbrev pub to_dispatch : NodeValues O → WorkerPool O E → ℕ
  to_dispatch vals pool = total n (still vals pool)

  pub to_dispatch-le : (vals : NodeValues O) (pool : WorkerPool O E) → to_dispatch vals pool ≤ n
  to_dispatch-le vals pool = total-le n (still vals pool) (λ i. ground arith)

-- As many rounds in which everybody has a turn are enough.
unfoldable pub enough_rounds : {K O E : Type 0} → Dag K O E → ExecutorConfig → ℕ
unfolding weight
enough_rounds dag cfg = weight cfg.max_workers (length dag.nodes) 0 (cfg.max_workers + 6) + 1
