-- ===== src/Examples/Common/Sizes.antt =====
-- The lengths of what examples/common/mod.rs computes, and numbers that are read back.
use rust_dag_executor.Prelude.{
  ℕ, zero, suc, ◌+◌, ◌*◌, ◌/◌, ◌^◌, ◌<◌, ◌≡◌, refl, ap, List, [], ◌∷◌, arith, length, length-append,
}
use native.Mathlib.Nat.{pow-suc}
use rust_dag_executor.Prelude.Result.{ok}
use rust_dag_executor.Examples.Common.{
  Bytes, to_le_bytes, from_le_bytes, u64_to_le_bytes, read_u64_le, squeeze, absorb, toy_hash256,
  hash_node_with_iters, hash_leaf_with_iters,
}

pub length-to_le_bytes : (n x : ℕ) → length (to_le_bytes n x) ≡ n
unfolding to_le_bytes
length-to_le_bytes zero x = refl
length-to_le_bytes (suc n) x = ap suc (length-to_le_bytes n (x / 256))

length-squeeze : (n i y : ℕ) → length (squeeze i n y) ≡ 8 * n
length-squeeze zero i y = omega arith
length-squeeze (suc n) i y = omega (
  arith,
  length-append (to_le_bytes 8 (absorb y i)) (squeeze (i + 1) n (absorb y i)),
  length-to_le_bytes 8 (absorb y i),
  length-squeeze n (i + 1) (absorb y i),
)

length-toy_hash256 :
    (iters domain : ℕ) (parts : List Bytes) → length (toy_hash256 iters domain parts) ≡ 32
unfolding toy_hash256
length-toy_hash256 iters domain parts = length-squeeze 4 0 _

pub length-hash_node : (iters : ℕ) (l r : Bytes) → length (hash_node_with_iters iters l r) ≡ 32
unfolding hash_node_with_iters
length-hash_node iters l r = length-toy_hash256 iters 1 (l ∷ r ∷ [])

pub length-hash_leaf : (iters : ℕ) (tx : Bytes) → length (hash_leaf_with_iters iters tx) ≡ 32
unfolding hash_leaf_with_iters
length-hash_leaf iters tx = length-toy_hash256 iters 0 (tx ∷ [])

pub from_le_bytes-to_le_bytes : (n x : ℕ) → x < 256 ^ n → from_le_bytes (to_le_bytes n x) ≡ x
unfolding from_le_bytes to_le_bytes
from_le_bytes-to_le_bytes zero x lt = omega (arith, lt)
from_le_bytes-to_le_bytes (suc n) x lt =
    omega (arith, from_le_bytes-to_le_bytes n (x / 256) (omega (arith, lt, pow-suc 256 n)))

-- A 64-bit number is read back from its bytes.
pub read_u64_le-u64_to_le_bytes : (x : ℕ) → x < 2 ^ 64 → read_u64_le (u64_to_le_bytes x) ≡ ok x
unfolding read_u64_le
read_u64_le-u64_to_le_bytes x lt =
    rw (length-to_le_bytes 8 x, from_le_bytes-to_le_bytes 8 x lt) refl
