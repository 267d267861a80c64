-- ===== src/Examples/Pipeline/Correct.antt =====
-- The graph of examples/pipeline.rs: what each of its keys is worth.
use rust_dag_executor.Prelude.{
  ℕ, suc, ◌%◌, ◌<◌, ◌≡◌, refl, sym, ap, ◌∙◌, ◌⊎◌, inl, inr, List, [], ◌∷◌, ◌++◌, map, arith,
  ℕ_discrete, get_or, ◌==◌, if◌then◌else◌, String,
}
use rust_dag_executor.Prelude.Each.{Each, nil, cons}
use rust_dag_executor.Prelude.Result.{ok}
use rust_dag_executor.Prelude.Outcome.{done, ◌>>=◌, Ensures, Ensures-total, index}
use rust_dag_executor.Builder.{new, add_source, add_task, build}
use rust_dag_executor.Graph.{TaskFn}
use rust_dag_executor.Builder.Named.{
  attempt, Stages, new-Stages, add_source-Stages, add_task-Stages, Stages-build,
}
use rust_dag_executor.Examples.Text.{Text, codes}
use rust_dag_executor.Examples.Common.{
  Bytes, hash_leaf_with_iters, hash_domain_with_iters, u64_to_le_bytes, read_u64_le, hex,
}
use rust_dag_executor.Examples.Common.Sizes.{read_u64_le-u64_to_le_bytes}
use rust_dag_executor.Examples.Graphs.{
  DagT, Builder, text_eq, of_result, as_result, closure, hash_leaf_body,
}
use rust_dag_executor.Examples.Pipeline.{
  ascii_lowercase, sum, decode_body, fee_body, risk_body, basic_text, receipt_basic_body,
  receipt_full_body, build_pipeline,
}

pub data Name : Type 0 where
  raw decoded commitment fee risk receipt_basic receipt_full : Name

abbrev pub key : Name → Text
key raw = codes "raw"
key decoded = codes "decoded"
key commitment = codes "commitment"
key fee = codes "fee"
key risk = codes "risk"
key receipt_basic = codes "receipt_basic"
key receipt_full = codes "receipt_full"

-- The order in which `main` stages them.
abbrev pub place : Name → ℕ
place raw = 0
place decoded = 1
place commitment = 2
place fee = 3
place risk = 4
place receipt_basic = 5
place receipt_full = 6

abbrev at_place : ℕ → Name
at_place n =
    get_or (raw ∷ decoded ∷ commitment ∷ fee ∷ risk ∷ receipt_basic ∷ receipt_full ∷ []) n raw

at_place-place : (n : Name) → at_place (place n) ≡ n
at_place-place raw = refl
at_place-place decoded = refl
at_place-place commitment = refl
at_place-place fee = refl
at_place-place risk = refl
at_place-place receipt_basic = refl
at_place-place receipt_full = refl

place_injective : (n m : Name) → place n ≡ place m → n ≡ m
place_injective n m e = sym (at_place-place n) ∙ ap at_place e ∙ at_place-place m

-- The bytes that tell the keys apart.
abbrev mark : Text → ℕ
mark t =
    if get_or t 0 0 == 100
    then 1
    else if get_or t 0 0 == 99
    then 2
    else if get_or t 0 0 == 102
    then 3
    else if get_or t 1 0 == 97
    then 0
    else if get_or t 1 0 == 105
    then 4
    else if get_or t 8 0 == 98
    then 5
    else 6

mark-key : (n : Name) → mark (key n) ≡ place n
mark-key raw = refl
mark-key decoded = refl
mark-key commitment = refl
mark-key fee = refl
mark-key risk = refl
mark-key receipt_basic = refl
mark-key receipt_full = refl

pub key-injective : (n m : Name) → key n ≡ key m → n ≡ m
key-injective n m e = place_injective n m (sym (mark-key n) ∙ ap mark e ∙ mark-key m)

-- The fee that a transaction pays.
abbrev pub fee_of : Bytes → ℕ
fee_of raw_tx = sum (map ascii_lowercase raw_tx) % 10000

module _ (from_utf8_lossy : Bytes → Text) (hash_iters : ℕ) (raw_tx : Bytes) where
  -- The value of each node.
  abbrev pub value : Name → Bytes
  value raw = raw_tx
  value decoded = map ascii_lowercase raw_tx
  value commitment = hash_leaf_with_iters hash_iters (map ascii_lowercase raw_tx)
  value fee = u64_to_le_bytes (fee_of raw_tx)
  value risk = hash_domain_with_iters hash_iters 2 (map ascii_lowercase raw_tx ∷ [])
  value receipt_basic =
      basic_text (hash_leaf_with_iters hash_iters (map ascii_lowercase raw_tx)) (fee_of raw_tx)
  value receipt_full =
      from_utf8_lossy
        (basic_text (hash_leaf_with_iters hash_iters (map ascii_lowercase raw_tx)) (fee_of raw_tx))
      ++ (codes " risk=0x"
          ++ hex (hash_domain_with_iters hash_iters 2 (map ascii_lowercase raw_tx ∷ [])))

  abbrev pub Source : Name → Type 0
  Source raw = Unit
  Source _ = ⊥

  -- The first `k` nodes.
  abbrev pub First : ℕ → Name → Type 0
  First k n = place n < k

  abbrev Good : ℕ → Builder → Type 0
  Good k = Stages text_eq key key-injective value Source (First k)

  last : (n m : Name) → First (suc (place n)) m → First (place n) m ⊎ (m ≡ n)
  last n m lt = elim (ℕ_discrete (place m) (place n)) [
    | yes same ↦ inr (place_injective m n same)
    | no other ↦ inl (omega (arith, lt, other))
  ]

  -- One call of `add_task`.
  task-Good :
      (n : Name) (b : Builder) (ns : List Name) (f : TaskFn Bytes String)
      → Each (First (place n)) ns
      → f (map value ns) ≡ ok (value n)
      → Good (place n) b
      → Ensures
          (Good (suc (place n)))
          (λ _. ⊥)
          (attempt (add_task text_eq b (key n) (map key ns) f))
  task-Good n b ns f ready r good =
      add_task-Stages text_eq key key-injective value Source n (λ lt. omega (arith, lt))
        (λ m lt. omega (arith, lt)) (omega arith) (last n) b good ns f ready r

  fee_read : read_u64_le (u64_to_le_bytes (fee_of raw_tx)) ≡ ok (fee_of raw_tx)
  fee_read = read_u64_le-u64_to_le_bytes (fee_of raw_tx) (omega arith)

  receipt_basic_task :
      closure receipt_basic_body (value commitment ∷ value fee ∷ []) ≡ ok (value receipt_basic)
  unfolding receipt_basic_body index
  receipt_basic_task =
      ap (λ r. as_result (of_result r >>= λ paid. done (basic_text (value commitment) paid)))
        fee_read

  -- One call after another.
  abbrev Call : Builder → Name → List Name → TaskFn Bytes String → Builder → Type 0
  Call b n ns f b' = attempt (add_task text_eq b (key n) (map key ns) f) ≡ done b'

  steps :
      (b0 b1 b2 b3 b4 b5 b6 : Builder) (dag : DagT)
      → attempt (add_source text_eq new (key raw) raw_tx) ≡ done b0
      → Call b0 decoded (raw ∷ []) (closure decode_body) b1
      → Call b1 commitment (decoded ∷ []) (closure (hash_leaf_body hash_iters)) b2
      → Call b2 fee (decoded ∷ []) (closure fee_body) b3
      → Call b3 risk (decoded ∷ []) (closure (risk_body hash_iters)) b4
      → Call b4 receipt_basic (commitment ∷ fee ∷ []) (closure receipt_basic_body) b5
      → Call b5 receipt_full
          (receipt_basic ∷ risk ∷ [])
          (closure (receipt_full_body from_utf8_lossy))
          b6
      → build text_eq b6 ≡ ok dag
      → build_pipeline from_utf8_lossy hash_iters raw_tx ≡ done dag
  unfolding build_pipeline
  steps b0 b1 b2 b3 b4 b5 b6 dag e0 e1 e2 e3 e4 e5 e6 compiled =
      rw (e0, e1, e2, e3, e4, e5, e6, compiled) refl

  call :
      (n : Name) (b : Builder) (ns : List Name) (f : TaskFn Bytes String)
      → Each (First (place n)) ns
      → f (map value ns) ≡ ok (value n)
      → Good (place n) b
      → (b' : Builder) × Call b n ns f b' × Good (suc (place n)) b'
  call n b ns f ready r good =
      Ensures-total (Good (suc (place n))) (λ _. ⊥)
        (attempt (add_task text_eq b (key n) (map key ns) f)) (task-Good n b ns f ready r good)
        (λ x e. e)

  source_call :
      (b : Builder) × (attempt (add_source text_eq new (key raw) raw_tx) ≡ done b) × Good 1 b
  source_call =
      Ensures-total (Good 1) (λ _. ⊥) (attempt (add_source text_eq new (key raw) raw_tx))
        (add_source-Stages text_eq key key-injective value Source raw (λ lt. omega (arith, lt))
          (λ m lt. omega (arith, lt)) (omega arith) (last raw) new
          (new-Stages text_eq key key-injective value Source (λ n lt. omega (arith, lt))) tt)
        (λ x e. e)

  -- `main` builds a graph of the seven nodes.
  pub build_pipeline_lem :
      (b : Builder) × (dag : DagT) × Good 7 b
      × (build text_eq b ≡ ok dag)
      × (build_pipeline from_utf8_lossy hash_iters raw_tx ≡ done dag)
  unfolding decode_body hash_leaf_body fee_body risk_body receipt_full_body index
  build_pipeline_lem =
      let (b0, e0, g0) = source_call in
      let (b1, e1, g1) =
        call decoded b0 (raw ∷ []) (closure decode_body) (cons (omega arith) nil) refl g0 in
      let (b2, e2, g2) =
        call commitment b1 (decoded ∷ []) (closure (hash_leaf_body hash_iters))
          (cons (omega arith) nil) refl g1 in
      let (b3, e3, g3) =
        call fee b2 (decoded ∷ []) (closure fee_body) (cons (omega arith) nil) refl g2 in
      let (b4, e4, g4) =
        call risk b3 (decoded ∷ []) (closure (risk_body hash_iters)) (cons (omega arith) nil) refl
          g3 in
      let (b5, e5, g5) =
        call receipt_basic b4 (commitment ∷ fee ∷ []) (closure receipt_basic_body)
          (cons (omega arith) (cons (omega arith) nil)) receipt_basic_task g4 in
      let (b6, e6, g6) =
        call receipt_full b5 (receipt_basic ∷ risk ∷ [])
          (closure (receipt_full_body from_utf8_lossy))
          (cons (omega arith) (cons (omega arith) nil)) refl g5 in
      let (dag, compiled) =
        Stages-build text_eq key key-injective value Source b6 g6 raw (omega arith) in
      (b6, dag, g6, compiled, steps b0 b1 b2 b3 b4 b5 b6 dag e0 e1 e2 e3 e4 e5 e6 compiled)
