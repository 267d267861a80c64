-- ===== src/Examples/Merkle/Names.antt =====
-- The nodes of the graph of examples/merkle.rs, by name: no two have the same key.
use rust_dag_executor.Prelude.{ℕ, zero, suc, ◌≡◌, refl, ap, ◌∙◌, drop}
use rust_dag_executor.Examples.Text.{Text, decimal}
use rust_dag_executor.Examples.Text.Decimal.{differ, decimal-injective, decimal-slash-injective}
use rust_dag_executor.Examples.Merkle.{tx_key, leaf_key, merkle_key}

-- The nodes: the source of a transaction, and the hash at a place of a level.
pub data Name : Type 0 where
  tx : ℕ → Name
  node : ℕ → ℕ → Name

abbrev pub key : Name → Text
key (tx i) = tx_key i
key (node level idx) = merkle_key level idx

pub key-injective : (n m : Name) → key n ≡ key m → n ≡ m
unfolding tx_key leaf_key
key-injective (tx i) (tx j) e = ap tx (decimal-injective i j (ap (drop 3) e))
key-injective (tx i) (node zero j) e = absurd (differ 0 refl e)
key-injective (tx i) (node (suc l) j) e = absurd (differ 0 refl e)
key-injective (node zero i) (tx j) e = absurd (differ 0 refl e)
key-injective (node (suc l) i) (tx j) e = absurd (differ 0 refl e)
key-injective (node zero i) (node zero j) e = ap (node 0) (decimal-injective i j (ap (drop 5) e))
key-injective (node zero i) (node (suc l) j) e = absurd (differ 0 refl e)
key-injective (node (suc l) i) (node zero j) e = absurd (differ 0 refl e)
key-injective (node (suc l) i) (node (suc l') j) e =
    let (level, rest) =
      decimal-slash-injective (suc l) (suc l') (decimal i) (decimal j) (ap (drop 5) e) in
    let place = decimal-injective i j rest in ap (λ l. node l i) level ∙ ap (node (suc l')) place

pub node-injective : (l i l' i' : ℕ) → node (suc l) i ≡ node (suc l') i' → (l ≡ l') × (i ≡ i')
node-injective l i l' i' e = (cc, cc)
