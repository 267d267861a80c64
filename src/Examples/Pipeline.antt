-- ===== src/Examples/Pipeline.antt =====
-- examples/pipeline.rs: the branching graph of `main`, for the bytes of a transaction and the number of
-- extra rounds of the hash. The counters of the closures are left out. `from_utf8_lossy` is a parameter.
pub mod Correct
pub mod Runs
use rust_dag_executor.Prelude.{
  ℕ, ◌+◌, ◌%◌, List, [], ◌∷◌, ◌++◌, if◌then◌else◌, ltb, ◌&&◌, map, String,
}
use rust_dag_executor.Prelude.Outcome.{Outcome, done, fail, panic, out_of_fuel, ◌>>=◌, index}
use rust_dag_executor.Error.{BuildError}
use rust_dag_executor.Builder.{new, add_source, add_task, build}
use rust_dag_executor.Builder.Named.{attempt}
use rust_dag_executor.Examples.Text.{Text, codes, decimal}
use rust_dag_executor.Examples.Common.{
  Bytes, hash_leaf_with_iters, hash_domain_with_iters, u64_to_le_bytes, read_u64_le, hex,
}
use rust_dag_executor.Examples.Graphs.{DagT, Builder, text_eq, of_result, closure, hash_leaf_body}

-- `u8::make_ascii_lowercase`
abbrev pub ascii_lowercase : ℕ → ℕ
ascii_lowercase c = if ltb 64 c && ltb c 91 then c + 32 else c

-- `iter().map(|&b| b as u64).sum()`: the sum of the bytes in memory is far below the wrap-around.
abbrev pub sum : Bytes → ℕ
sum [] = 0
sum (b ∷ bytes) = b + sum bytes

unfoldable pub decode_body : List Bytes → Outcome String Bytes
decode_body xs = do raw ← index xs 0; done (map ascii_lowercase raw)

unfoldable pub fee_body : List Bytes → Outcome String Bytes
fee_body xs = do decoded ← index xs 0; done (u64_to_le_bytes (sum decoded % 10000))

unfoldable pub risk_body : ℕ → List Bytes → Outcome String Bytes
risk_body hash_iters xs = do
  decoded ← index xs 0
  done (hash_domain_with_iters hash_iters 0x02 (decoded ∷ []))

-- `format!("receipt_basic(commit=0x{} fee={})", ..)`
unfoldable pub basic_text : Bytes → ℕ → Text
basic_text commit fee =
    codes "receipt_basic(commit=0x" ++ (hex commit ++ (codes " fee=" ++ (decimal fee ++ codes ")")))

unfoldable pub receipt_basic_body : List Bytes → Outcome String Bytes
receipt_basic_body xs = do
  commit ← index xs 0
  fee_bytes ← index xs 1
  fee ← of_result (read_u64_le fee_bytes)
  done (basic_text commit fee)

module _ (from_utf8_lossy : Bytes → Text) where
  unfoldable pub receipt_full_body : List Bytes → Outcome String Bytes
  receipt_full_body xs = do
    basic ← index xs 0
    risk ← index xs 1
    done (from_utf8_lossy basic ++ (codes " risk=0x" ++ hex risk))

  unfoldable pub build_pipeline : ℕ → Bytes → Outcome (BuildError Text) DagT
  build_pipeline hash_iters raw_tx = do
    b0 ← attempt (add_source text_eq new (codes "raw") raw_tx)
    b1 ← attempt (add_task text_eq b0 (codes "decoded") (codes "raw" ∷ []) (closure decode_body))
    b2 ← attempt (
        add_task text_eq b1 (codes "commitment") (codes "decoded" ∷ [])
          (closure (hash_leaf_body hash_iters)))
    b3 ← attempt (add_task text_eq b2 (codes "fee") (codes "decoded" ∷ []) (closure fee_body))
    b4 ←
        attempt (
          add_task text_eq b3 (codes "risk") (codes "decoded" ∷ [])
            (closure (risk_body hash_iters)))
    b5 ← attempt (
        add_task text_eq b4 (codes "receipt_basic") (codes "commitment" ∷ codes "fee" ∷ [])
          (closure receipt_basic_body))
    b6 ← attempt (
        add_task text_eq b5 (codes "receipt_full") (codes "receipt_basic" ∷ codes "risk" ∷ [])
          (closure receipt_full_body))
    of_result (build text_eq b6)
