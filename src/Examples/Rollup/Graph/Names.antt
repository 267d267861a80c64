-- ===== src/Examples/Rollup/Graph/Names.antt =====
-- The nodes of the graph of examples/rollup.rs, by name: no two have the same key.
use rust_dag_executor.Prelude.{ℕ, suc, ◌≡◌, refl, ap, drop, ◌∷◌, ◌++◌}
use rust_dag_executor.Examples.Text.{Text, decimal, codes}
use rust_dag_executor.Examples.Text.Decimal.{differ, decimal-injective, decimal-slash-injective}
use rust_dag_executor.Examples.Rollup.Graph.{
  tx_key, leaf_key, chunk_node_key, chunk_root_key, batch_node_key, batch_root_key, chunk_proof_key,
}

-- A level is counted from 0 for the lowest that has nodes of its own, level 1.
pub data Name : Type 0 where
  tx leaf : ℕ → Name
  chunk_node : ℕ → ℕ → ℕ → Name
  chunk_root : ℕ → Name
  batch_node : ℕ → ℕ → Name
  batch_root : Name
  chunk_proof : ℕ → ℕ → Name

abbrev pub key : Name → Text
key (tx i) = tx_key i
key (leaf i) = leaf_key i
key (chunk_node c l i) = chunk_node_key c (suc l) i
key (chunk_root c) = chunk_root_key c
key (batch_node l i) = batch_node_key (suc l) i
key batch_root = batch_root_key
key (chunk_proof c pos) = chunk_proof_key c pos

-- What stands behind the number of a chunk.
abbrev node_tail : ℕ → ℕ → Text
node_tail l i = codes "node/" ++ (decimal (suc l) ++ (codes "/" ++ decimal i))

abbrev proof_tail : ℕ → Text
proof_tail pos = codes "proof/tx/" ++ decimal pos

chunk_split :
    (c c' : ℕ) (r s : Text)
    → codes "chunk/" ++ (decimal c ++ 47 ∷ r) ≡ codes "chunk/" ++ (decimal c' ++ 47 ∷ s)
    → (c ≡ c') × (r ≡ s)
chunk_split c c' r s e = decimal-slash-injective c c' r s (ap (drop 6) e)

pub key-injective : (n m : Name) → key n ≡ key m → n ≡ m
key-injective (tx i) (tx j) e = ap tx (decimal-injective i j (ap (drop 3) e))
key-injective (leaf i) (leaf j) e = ap leaf (decimal-injective i j (ap (drop 5) e))
key-injective (chunk_node c l i) (chunk_node c' l' i') e =
    let (chunk, rest) = chunk_split c c' (node_tail l i) (node_tail l' i') e in
    let (level, place) =
      decimal-slash-injective (suc l) (suc l') (decimal i) (decimal i') (ap (drop 5) rest) in
    cc (decimal-injective i i' place)
key-injective (chunk_node c l i) (chunk_root c') e =
    absurd (differ 0 refl (chunk_split c c' (node_tail l i) (codes "root") e).1)
key-injective (chunk_node c l i) (chunk_proof c' pos) e =
    absurd (differ 0 refl (chunk_split c c' (node_tail l i) (proof_tail pos) e).1)
key-injective (chunk_root c) (chunk_node c' l i) e =
    absurd (differ 0 refl (chunk_split c c' (codes "root") (node_tail l i) e).1)
key-injective (chunk_root c) (chunk_root c') e =
    ap chunk_root (chunk_split c c' (codes "root") (codes "root") e).0
key-injective (chunk_root c) (chunk_proof c' pos) e =
    absurd (differ 0 refl (chunk_split c c' (codes "root") (proof_tail pos) e).1)
key-injective (chunk_proof c pos) (chunk_node c' l i) e =
    absurd (differ 0 refl (chunk_split c c' (proof_tail pos) (node_tail l i) e).1)
key-injective (chunk_proof c pos) (chunk_root c') e =
    absurd (differ 0 refl (chunk_split c c' (proof_tail pos) (codes "root") e).1)
key-injective (chunk_proof c pos) (chunk_proof c' pos') e =
    let (chunk, rest) = chunk_split c c' (proof_tail pos) (proof_tail pos') e in
    cc (decimal-injective pos pos' (ap (drop 9) rest))
key-injective (batch_node l i) (batch_node l' i') e =
    let (level, place) =
      decimal-slash-injective (suc l) (suc l') (decimal i) (decimal i') (ap (drop 11) e) in
    cc (decimal-injective i i' place)
key-injective (batch_node l i) batch_root e = absurd (differ 6 refl e)
key-injective batch_root (batch_node l i) e = absurd (differ 6 refl e)
key-injective batch_root batch_root e = refl
key-injective n m e = absurd (differ 0 refl e)
