-- ===== src/Examples/Rollup/Setup/Accepted.antt =====
-- examples/rollup.rs: sizes that `main` accepts, and what it makes of them.
use native.Mathlib.Nat.{pow-suc, mul-div_cancel_left, mul-mod_right}
use rust_dag_executor.Prelude.{
  ℕ, zero, suc, ◌+◌, ◌/◌, ◌%◌, ◌^◌, ◌≤◌, ◌<◌, ◌≡◌, refl, ap, ◌∙◌, true, false, not, ◌&&◌, ◌==◌, ltb,
  arith, map, range_from,
}
use rust_dag_executor.Prelude.Slices.{length-map, length-range_from}
use rust_dag_executor.Prelude.Powers.{pow-pos, pow_add}
use rust_dag_executor.Prelude.Outcome.{done}
use rust_dag_executor.Examples.Common.{fake_encoded_tx}
use rust_dag_executor.Examples.Rollup.{is_power_below}
use rust_dag_executor.Examples.Rollup.Trees.{is_power_below-pow}
use rust_dag_executor.Examples.Rollup.Graph.{RollupSpec}
use rust_dag_executor.Examples.Rollup.Graph.Whole.{IsBatch}
use rust_dag_executor.Examples.Rollup.Setup.{trailing_zeros, log2_pow2, setup}

trailing_zeros-pow : (bits h : ℕ) → h < bits → trailing_zeros bits (2 ^ h) ≡ h
trailing_zeros-pow zero h few = absurd (omega (arith, few))
trailing_zeros-pow (suc bits) zero few = refl
trailing_zeros-pow (suc bits) (suc h) few =
    let two : ◌<◌ 0 2 = omega arith in
    let half : 2 ^ suc h / 2 ≡ 2 ^ h = omega (arith, pow-suc 2 h) in
    let even : (2 ^ suc h % 2 == 1) ≡ false = ground (arith, pow-suc 2 h) in
    rw even (
      ap (λ x. suc (trailing_zeros bits x)) half
      ∙ ap suc (trailing_zeros-pow bits h (omega (arith, few))))

size-valid : (h : ℕ) → 0 < h → h < 64 → (is_power_below 64 (2 ^ h) && not (ltb (2 ^ h) 2)) ≡ true
size-valid zero pos few = absurd (omega (arith, pos))
size-valid (suc h) pos few =
    ground (arith, is_power_below-pow 64 (suc h) (2 ^ suc h) few refl, pow-suc 2 h, pow-pos h)

log2_pow2-pow : (h : ℕ) → h < 64 → log2_pow2 (2 ^ h) ≡ done h
log2_pow2-pow h few =
    let valid : (is_power_below 64 (2 ^ h) && ltb 0 (2 ^ h)) ≡ true =
      ground (arith, is_power_below-pow 64 h (2 ^ h) few refl, pow-pos h) in
    rw valid (ap done (trailing_zeros-pow 64 h few))

-- The sizes of a batch of `2 ^ k` chunks of `2 ^ h` transactions.
abbrev sized : ℕ → ℕ → ℕ → ℕ → RollupSpec
sized h k target_tx hash_iters = record {
  chunk_size = 2 ^ h;
  chunk_height = h;
  batch_height = k;
  target_tx = target_tx;
  hash_iters = hash_iters;
}

setup-sized :
    (h k target_tx hash_iters : ℕ)
    → 0 < h
    → 0 < k
    → h + k < 64
    → setup (2 ^ (h + k)) (2 ^ h) target_tx hash_iters ≡ done (sized h k target_tx hash_iters)
unfolding setup
setup-sized h k target_tx hash_iters some_chunk some_batch few =
    let chunks : 2 ^ (h + k) / 2 ^ h ≡ 2 ^ k =
      ap (◌/ 2 ^ h) (pow_add h k) ∙ mul-div_cancel_left (2 ^ k) (pow-pos h) in
    let whole : 2 ^ (h + k) % 2 ^ h ≡ 0 =
      ap (◌% 2 ^ h) (pow_add h k) ∙ mul-mod_right (2 ^ h) (2 ^ k) in
    rw
      (
        size-valid (h + k) (omega (arith, some_chunk)) few,
        size-valid h some_chunk (omega (arith, few)),
        whole,
        chunks,
        size-valid k some_batch (omega (arith, few)),
        log2_pow2-pow h (omega (arith, few)),
        log2_pow2-pow k (omega (arith, few)),
      )
      refl

-- For a batch of a power of two of at least 2 chunks, each of a power of two of at least 2 and at most
-- 2 ^ 32 transactions, with fewer than 2 ^ 64 transactions in all and a target among them, the asserts
-- of `main` hold, and the sizes and logarithms are those of a batch for the transactions it makes up.
pub setup-IsBatch :
    (h k target_tx hash_iters : ℕ)
    → 0 < h
    → h ≤ 32
    → 0 < k
    → h + k < 64
    → target_tx < 2 ^ (h + k)
    → (spec : RollupSpec) × (setup (2 ^ (h + k)) (2 ^ h) target_tx hash_iters ≡ done spec)
      × IsBatch spec (map fake_encoded_tx (range_from 0 (2 ^ (h + k))))
setup-IsBatch h k target_tx hash_iters some_chunk low some_batch few target = (
  sized h k target_tx hash_iters,
  setup-sized h k target_tx hash_iters some_chunk some_batch few,
  record {
    sized = refl;
    size =
        length-map fake_encoded_tx (range_from 0 (2 ^ (h + k))) ∙ length-range_from 0 (2 ^ (h + k));
    some_chunk = some_chunk;
    low_chunk = low;
    some_batch = some_batch;
    low_batch = omega (arith, few);
    target = target;
  },
)
