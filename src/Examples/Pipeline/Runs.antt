-- ===== src/Examples/Pipeline/Runs.antt =====
-- What the requests of `main` return.
use rust_dag_executor.Prelude.{
  ℕ, ◌≤◌, ◌≡◌, ◌≢◌, refl, ap, ◌∙◌, subst, List, [], ◌∷◌, ◌++◌, some, map, arith, length, flatten,
}
use rust_dag_executor.Prelude.HashMap.{HashMap, get}
use rust_dag_executor.Prelude.Each.{Each, nil, cons}
use rust_dag_executor.Prelude.Result.{ok}
use rust_dag_executor.Prelude.Outcome.{done}
use rust_dag_executor.Graph.{ExecutorConfig}
use rust_dag_executor.Builder.{build}
use rust_dag_executor.Exec.Executor.{new, run_sequential, run_parallel}
use rust_dag_executor.Exec.Parallel.{Actor}
use rust_dag_executor.Exec.Parallel.Machine.{IsConfig}
use rust_dag_executor.Exec.Parallel.Measure.{enough_rounds}
use rust_dag_executor.Exec.Parallel.Fair.{IsFair}
use rust_dag_executor.Exec.Programs.{run_sequential-Finds, run_parallel-Finds}
use rust_dag_executor.Examples.Text.{Text, codes}
use rust_dag_executor.Examples.Text.Ascii.{
  IsAscii, all_ascii-IsAscii, append-IsAscii, decimal-IsAscii, padded_hex-IsAscii,
}
use rust_dag_executor.Examples.Common.{Bytes, hash_leaf_with_iters, hash_domain_with_iters, hex}
use rust_dag_executor.Examples.Graphs.{DagT, text_eq}
use rust_dag_executor.Examples.Pipeline.{ascii_lowercase, basic_text, build_pipeline}
use rust_dag_executor.Examples.Pipeline.Correct.{
  Name, raw, decoded, commitment, fee, risk, receipt_basic, receipt_full, key, key-injective, First,
  value, Source, fee_of, build_pipeline_lem,
}

hex-IsAscii : (bytes : Bytes) → Each IsAscii (hex bytes)
unfolding hex
hex-IsAscii [] = nil
hex-IsAscii (b ∷ bytes) = append-IsAscii _ _ (padded_hex-IsAscii 2 b) (hex-IsAscii bytes)

basic_text-IsAscii : (commit : Bytes) (paid : ℕ) → Each IsAscii (basic_text commit paid)
unfolding basic_text
basic_text-IsAscii commit paid =
    append-IsAscii _ _ (all_ascii-IsAscii (codes "receipt_basic(commit=0x") refl) (
      append-IsAscii _ _ (hex-IsAscii commit) (
        append-IsAscii _ _ (all_ascii-IsAscii (codes " fee=") refl)
          (append-IsAscii _ _ (decimal-IsAscii paid) (all_ascii-IsAscii (codes ")") refl))))

module _ (from_utf8_lossy : Bytes → Text) (hash_iters : ℕ) (raw_tx : Bytes) where
  staged : (n : Name) → First from_utf8_lossy hash_iters raw_tx 7 n
  staged raw = omega arith
  staged decoded = omega arith
  staged commitment = omega arith
  staged fee = omega arith
  staged risk = omega arith
  staged receipt_basic = omega arith
  staged receipt_full = omega arith

  is_task : (n : Name) → n ≢ raw → Source from_utf8_lossy hash_iters raw_tx n → ⊥
  is_task raw not_raw source = not_raw refl
  is_task decoded not_raw source = source
  is_task commitment not_raw source = source
  is_task fee not_raw source = source
  is_task risk not_raw source = source
  is_task receipt_basic not_raw source = source
  is_task receipt_full not_raw source = source

  found_first :
      (out : HashMap Text Bytes) (n : Name)
      → Each
          (λ n. get text_eq out (key n) ≡ some (value from_utf8_lossy hash_iters raw_tx n))
          (n ∷ [])
      → get text_eq out (key n) ≡ some (value from_utf8_lossy hash_iters raw_tx n)
  found_first out n (cons e nil) = e

  -- For all bytes of a transaction the pipeline's graph is built, and the sequential executor answers the
  -- request for any one of its keys with what the stages compute from these bytes.
  pub run_sequential-build_pipeline :
      (cfg : ExecutorConfig) (n : Name)
      → (dag : DagT) × (build_pipeline from_utf8_lossy hash_iters raw_tx ≡ done dag)
        × (out : HashMap Text Bytes) × (run_sequential text_eq (new cfg) dag (key n ∷ [])
            ≡ done out)
        × (get text_eq out (key n) ≡ some (value from_utf8_lossy hash_iters raw_tx n))
  run_sequential-build_pipeline cfg n =
      let (b, dag, good, compiled, returns) =
        build_pipeline_lem from_utf8_lossy hash_iters raw_tx in
      let (out, r, found) =
        run_sequential-Finds text_eq key key-injective (value from_utf8_lossy hash_iters raw_tx)
          (Source from_utf8_lossy hash_iters raw_tx) b good dag compiled cfg n []
          (cons (staged n) nil) in
      (dag, returns, out, r, found_first out n found)

  module _ (dag : DagT) (made : build_pipeline from_utf8_lossy hash_iters raw_tx ≡ done dag)
      (cfg : ExecutorConfig) (config : IsConfig cfg) (rounds : List (List Actor))
      (fair : Each (IsFair cfg) rounds) (enough : enough_rounds dag cfg ≤ length rounds) where
    task_request :
        (n : Name)
        → n ≢ raw
        → (out : HashMap Text Bytes) × (run_parallel text_eq
              (new cfg)
              dag
              (flatten rounds)
              (key n ∷ [])
            ≡ done out)
          × (get text_eq out (key n) ≡ some (value from_utf8_lossy hash_iters raw_tx n))
    task_request n not_raw =
        let (b, dag', good, compiled, returns) =
          build_pipeline_lem from_utf8_lossy hash_iters raw_tx in
        let same : dag' ≡ dag = cc in
        let (out, r, found) =
          run_parallel-Finds text_eq key key-injective (value from_utf8_lossy hash_iters raw_tx)
            (Source from_utf8_lossy hash_iters raw_tx) b good dag
            (subst (λ d. build text_eq b ≡ ok d) same compiled) cfg n [] (cons (staged n) nil)
            (cons (is_task n not_raw) nil) config rounds fair enough in
        (out, r, found_first out n found)

    -- Where `from_utf8_lossy` leaves ASCII alone, `run_parallel` answers the request for the full
    -- receipt, on the graph that is built, with the text of the commitment to the lower-case bytes, their
    -- fee and their risk, with no 0 in the configuration and under every schedule of enough rounds in
    -- each of which the scheduler and every worker has a turn.
    pub run_parallel-build_pipeline :
        ((bytes : Bytes) → Each IsAscii bytes → from_utf8_lossy bytes ≡ bytes)
        → (out : HashMap Text Bytes) × (run_parallel text_eq
              (new cfg)
              dag
              (flatten rounds)
              (codes "receipt_full" ∷ [])
            ≡ done out)
          × (get text_eq out (codes "receipt_full")
              ≡ some (
                  basic_text
                    (hash_leaf_with_iters hash_iters (map ascii_lowercase raw_tx))
                    (fee_of raw_tx)
                  ++ (codes " risk=0x"
                      ++ hex
                          (hash_domain_with_iters hash_iters 2 (map ascii_lowercase raw_tx ∷ [])))))
    run_parallel-build_pipeline ascii =
        let (out, r, found) = task_request receipt_full (λ e. cc) in
        (
          out,
          r,
          found
              ∙ ap
                  (λ basic. some (
                    basic
                    ++ (codes " risk=0x"
                        ++ hex (
                            hash_domain_with_iters hash_iters 2
                              (map ascii_lowercase raw_tx ∷ [])))))
                  (ascii _ (
                    basic_text-IsAscii
                      (hash_leaf_with_iters hash_iters (map ascii_lowercase raw_tx))
                      (fee_of raw_tx))),
        )
