-- ===== src/Examples/Rollup/Setup.antt =====
-- examples/rollup.rs: the sizes that `main` asserts and takes logarithms of, for any batch size, chunk
-- size and target, as in a build with debug assertions.
pub mod Accepted
use native.Mathlib.Nat.{pow-suc, mul-div_cancel_left, mul-mod_right, div-add-mod, pow-le-pow_right}
use rust_dag_executor.Prelude.{
  ℕ, zero, suc, ◌+◌, ◌-◌, ◌*◌, ◌/◌, ◌%◌, ◌^◌, ◌≤◌, ◌<◌, ◌≡◌, refl, sym, ap, ◌∙◌, Bool, true, false,
  not, ◌&&◌, if◌then◌else◌, ◌==◌, ltb, arith, map, range_from, String, List, length, ◌⊎◌, inl, inr,
  Bool-cases, dec_lt,
}
use rust_dag_executor.Prelude.Slices.{length-map, length-range_from}
use rust_dag_executor.Prelude.Powers.{pow-pos, pow_add}
use rust_dag_executor.Prelude.Outcome.{Outcome, done, panic, fail, out_of_fuel, ◌>>=◌}
use rust_dag_executor.Examples.Common.{fake_encoded_tx}
use rust_dag_executor.Examples.Rollup.{is_power_below}
use rust_dag_executor.Examples.Rollup.Trees.{is_power_below-pow}
use rust_dag_executor.Examples.Rollup.Graph.{RollupSpec}
use rust_dag_executor.Examples.Rollup.Graph.Whole.{IsBatch}

-- `assert!`
abbrev pub assert : Bool → Outcome String (Unit {0})
assert true = done tt
assert false = panic

-- `trailing_zeros` of a number of so many bits.
abbrev pub trailing_zeros : ℕ → ℕ → ℕ
trailing_zeros zero x = 0
trailing_zeros (suc bits) x =
    let rest = trailing_zeros bits (x / 2) in if x % 2 == 1 then 0 else suc rest

abbrev pub log2_pow2 : ℕ → Outcome String ℕ
log2_pow2 x = if is_power_below 64 x && ltb 0 x then done (trailing_zeros 64 x) else panic

unfoldable pub setup : (batch_size chunk_size target_tx hash_iters : ℕ) → Outcome String RollupSpec
setup batch_size chunk_size target_tx hash_iters = do
  _ ← assert (is_power_below 64 batch_size && not (ltb batch_size 2))
  _ ← assert (is_power_below 64 chunk_size && not (ltb chunk_size 2))
  _ ← assert (batch_size % chunk_size == 0)
  let n_chunks = batch_size / chunk_size
  _ ← assert (is_power_below 64 n_chunks && not (ltb n_chunks 2))
  chunk_height ← log2_pow2 chunk_size
  batch_height ← log2_pow2 n_chunks
  done (record {
    chunk_size = chunk_size;
    chunk_height = chunk_height;
    batch_height = batch_height;
    target_tx = target_tx;
    hash_iters = hash_iters;
  })
