-- ===== src/Exec/Parallel/Capacity.antt =====
-- The bound on the tasks in flight.
use native.Mathlib.Nat.{mul-pos, mul-le-mul_left}
use rust_dag_executor.Prelude.{ℕ, ◌+◌, ◌*◌, ◌<◌, ◌≤◌, arith}
use rust_dag_executor.Graph.{ExecutorConfig}
use rust_dag_executor.Exec.Parallel.{saturate, effective_cap}
use rust_dag_executor.Exec.Parallel.Machine.{IsConfig}

saturate-pos : (a : ℕ) → 0 < a → 0 < saturate a
saturate-pos a h = ground arith

pub effective_cap-pos : (cfg : ExecutorConfig) → IsConfig cfg → 0 < effective_cap cfg
unfolding effective_cap
effective_cap-pos cfg h = ground (
  arith,
  h.max_in_flight,
  saturate-pos (cfg.max_workers * saturate (cfg.worker_queue_cap + 1))
      (mul-pos h.max_workers (saturate-pos (cfg.worker_queue_cap + 1) (omega arith))),
)

pub effective_cap-le : (cfg : ExecutorConfig) → effective_cap cfg ≤ cfg.max_in_flight
unfolding effective_cap
effective_cap-le cfg = ground arith

saturate-le : (a : ℕ) → saturate a ≤ a
saturate-le a = ground arith

pub effective_cap-room :
    (cfg : ExecutorConfig) → effective_cap cfg ≤ cfg.max_workers * (cfg.worker_queue_cap + 1)
unfolding effective_cap
effective_cap-room cfg =
    let room = saturate (cfg.worker_queue_cap + 1) in
    let most = mul-le-mul_left cfg.max_workers (saturate-le (cfg.worker_queue_cap + 1)) in
    ground (arith, saturate-le (cfg.max_workers * room), most)
