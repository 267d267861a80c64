-- ===== src/Examples/Common.antt =====
-- examples/common/mod.rs: byte strings, and the toy hash that the examples compute.
-- A byte is a number below 256, and `u64` arithmetic keeps its wrap-around.
pub mod Sizes
use Prim.Native.Nat.{bit_xor}
use rust_dag_executor.Prelude.{
  ℕ, zero, suc, ◌+◌, ◌*◌, ◌/◌, ◌%◌, ◌^◌, List, [], ◌∷◌, ◌++◌, length, if◌then◌else◌, ◌==◌, String,
}
use rust_dag_executor.Prelude.Result.{Result, ok, err}
use rust_dag_executor.Examples.Text.{Text, codes, decimal, padded_hex}

abbrev pub Bytes : Type 0
Bytes = List ℕ

unfoldable pub ensure_32 : Bytes → Result (Unit {0}) String
ensure_32 x = if length x == 32 then ok tt else err "expected 32-byte hash"

-- `to_le_bytes` of an integer of `n` bytes.
unfoldable pub to_le_bytes : ℕ → ℕ → Bytes
to_le_bytes zero x = []
to_le_bytes (suc n) x = x % 256 ∷ to_le_bytes n (x / 256)

-- `from_le_bytes`
unfoldable pub from_le_bytes : Bytes → ℕ
from_le_bytes [] = 0
from_le_bytes (b ∷ bytes) = b + 256 * from_le_bytes bytes

abbrev pub u64_to_le_bytes : ℕ → Bytes
u64_to_le_bytes x = to_le_bytes 8 x

unfoldable pub read_u64_le : Bytes → Result ℕ String
read_u64_le bytes =
    if length bytes == 8 then ok (from_le_bytes bytes) else err "expected 8 bytes for u64"

abbrev pub wrapping_mul : ℕ → ℕ → ℕ
wrapping_mul x y = (x * y) % 2 ^ 64

unfoldable pub mix64 : ℕ → ℕ
mix64 x0 =
    let x1 = bit_xor x0 (x0 / 2 ^ 30) in
    let x2 = wrapping_mul x1 0xbf58476d1ce4e5b9 in
    let x3 = bit_xor x2 (x2 / 2 ^ 27) in
    let x4 = wrapping_mul x3 0x94d049bb133111eb in bit_xor x4 (x4 / 2 ^ 31)

-- `x = mix64(x ^ word)`
abbrev pub absorb : ℕ → ℕ → ℕ
absorb x word = mix64 (bit_xor x word)

abbrev pub absorb_bytes : ℕ → Bytes → ℕ
absorb_bytes x [] = x
absorb_bytes x (b ∷ bytes) = absorb_bytes (absorb x b) bytes

abbrev pub absorb_parts : ℕ → List Bytes → ℕ
absorb_parts x [] = x
absorb_parts x (p ∷ parts) =
    absorb_parts (absorb (absorb_bytes (bit_xor x (length p)) p) 0x9e3779b97f4a7c15) parts

-- The loop over `0..iters`.
abbrev pub extra_mixing : ℕ → ℕ → ℕ
extra_mixing zero x = x
extra_mixing (suc iters) x = extra_mixing iters (absorb x 0x9e3779b97f4a7c15)

-- The loop that fills `out`, from word `i` on, `n` words.
abbrev pub squeeze : ℕ → ℕ → ℕ → Bytes
squeeze i zero y = []
squeeze i (suc n) y = let y' = absorb y i in to_le_bytes 8 y' ++ squeeze (i + 1) n y'

unfoldable pub toy_hash256 : ℕ → ℕ → List Bytes → Bytes
toy_hash256 iters domain parts =
    squeeze 0 4 (extra_mixing iters (absorb_parts (bit_xor 0xcbf29ce484222325 domain) parts))

unfoldable pub hash_leaf_with_iters : ℕ → Bytes → Bytes
hash_leaf_with_iters iters tx_bytes = toy_hash256 iters 0x00 (tx_bytes ∷ [])

unfoldable pub hash_node_with_iters : ℕ → Bytes → Bytes → Bytes
hash_node_with_iters iters left right = toy_hash256 iters 0x01 (left ∷ right ∷ [])

unfoldable pub hash_domain_with_iters : ℕ → ℕ → List Bytes → Bytes
hash_domain_with_iters iters domain parts = toy_hash256 iters domain parts

-- The sums are those of a `u64`: the index of a transaction in memory is far below the wrap-around.
unfoldable pub fake_encoded_tx : ℕ → Bytes
fake_encoded_tx i =
    codes "from=0x"
    ++ padded_hex 40 (0x1000 + i)
    ++ codes "|to=0x"
    ++ padded_hex 40 (0x2000 + i)
    ++ codes "|nonce="
    ++ decimal i
    ++ codes "|value="
    ++ decimal (1000000 + i)

-- Two digits for each byte.
unfoldable pub hex : Bytes → Text
hex [] = []
hex (b ∷ bytes) = padded_hex 2 b ++ hex bytes
