-- ===== src/Prelude/Outcome.antt =====
-- What a call of the executor can come to: a value, an error value, a panic (an index out of
-- bounds, or a subtraction below zero), or the end of the fuel that stands for a `while` loop.
-- `Ensures` is total correctness: it is false of a panic and of fuel that runs out.
use Prim.Native.Nat.{ℕ, zero, suc, ◌+◌, ◌<◌}
use mathlib.Core.Path.{◌≡◌, refl, subst}
use mathlib.Core.List.{List, [], ◌∷◌}
use mathlib.Core.Option.{Option, none, some}
use native.Mathlib.Omega.{arith}
use rust_dag_executor.Prelude.Lists.{
  length, get_elem?, get_or, set, get_elem?-lt, get_elem?-eq-some,
}
use rust_dag_executor.Prelude.Tests.{Option-cases}
use mathlib.Core.Logic.{inl, inr}
use rust_dag_executor.Prelude.Count.{range_from}

pub data Outcome {ℓ κ} (X : Type ℓ) (A : Type κ) : Type (ℓ ⊔ κ) where
  done : A → Outcome X A
  fail : X → Outcome X A
  panic : Outcome X A
  out_of_fuel : Outcome X A

infixl 5 ◌>>=◌
abbrev pub ◌>>=◌ {ℓ κ ι} :
    {X : Type ℓ} {A : Type κ} {B : Type ι} → Outcome X A → (A → Outcome X B) → Outcome X B
done a >>= f = f a
fail x >>= f = fail x
panic >>= f = panic
out_of_fuel >>= f = out_of_fuel

abbrev pub Ensures {ℓ κ} :
    {X : Type ℓ} {A : Type κ} → (A → Type 0) → (X → Type 0) → Outcome X A → Type 0
Ensures P Q (done a) = P a
Ensures P Q (fail x) = Q x
Ensures P Q panic = ⊥
Ensures P Q out_of_fuel = ⊥

module _ {ℓ κ} {X : Type ℓ} {A : Type κ} where
  -- `v[i]`, which panics out of bounds.
  unfoldable pub index : List A → ℕ → Outcome X A
  index xs i = elim (get_elem? xs i) [ none ↦ panic | some a ↦ done a ]

  -- `v[i] = a`, which panics out of bounds.
  unfoldable pub assign : List A → ℕ → A → Outcome X (List A)
  assign xs i a = elim (get_elem? xs i) [ none ↦ panic | some _ ↦ done (set xs i a) ]

  -- `ok_or_else`
  abbrev pub or_fail : Option A → X → Outcome X A
  or_fail none x = fail x
  or_fail (some a) x = done a

  pub index-eq-done :
      (xs : List A) (i : ℕ) (d : A) → i < length xs → index xs i ≡ done (get_or xs i d)
  unfolding index
  index-eq-done xs i d h = rw (get_elem?-lt xs i d h, index)

  pub index-at : (xs : List A) (i : ℕ) {a : A} → get_elem? xs i ≡ some a → index xs i ≡ done a
  unfolding index
  index-at xs i h = rw (h, index)

  pub assign-eq-done :
      (xs : List A) (i : ℕ) (a : A) → i < length xs → assign xs i a ≡ done (set xs i a)
  unfolding assign
  assign-eq-done xs i a h = rw (get_elem?-lt xs i a h, assign)

-- What total correctness says of a known outcome.
pub Ensures-done {ℓ κ} :
    {X : Type ℓ} {A : Type κ} (P : A → Type 0) (Q : X → Type 0) (m : Outcome X A) {a : A}
    → Ensures P Q m
    → m ≡ done a
    → P a
Ensures-done P Q m h e = subst (Ensures P Q) e h

pub Ensures_fail {ℓ κ} :
    {X : Type ℓ} {A : Type κ} (P : A → Type 0) (Q : X → Type 0) (m : Outcome X A) {x : X}
    → Ensures P Q m
    → m ≡ fail x
    → Q x
Ensures_fail P Q m h e = subst (Ensures P Q) e h

-- With no error possible there is a value.
pub Ensures-total {ℓ κ} :
    {X : Type ℓ} {A : Type κ} (P : A → Type 0) (Q : X → Type 0) (m : Outcome X A)
    → Ensures P Q m
    → ((x : X) → Q x → ⊥)
    → (a : A) × (m ≡ done a) × P a
Ensures-total P Q (done a) h never = (a, refl, h)
Ensures-total P Q (fail x) h never = absurd (never x h)
Ensures-total P Q panic h never = absurd h
Ensures-total P Q out_of_fuel h never = absurd h

-- The same outcome, of a weaker postcondition of the errors.
pub Ensures-weaken {ℓ κ} :
    {X : Type ℓ} {A : Type κ} (P : A → Type 0) (Q S : X → Type 0) (m : Outcome X A)
    → Ensures P Q m
    → ((x : X) → Q x → S x)
    → Ensures P S m
Ensures-weaken P Q S (done a) h k = h
Ensures-weaken P Q S (fail x) h k = k x h
Ensures-weaken P Q S panic h k = h
Ensures-weaken P Q S out_of_fuel h k = h

-- `n - 1` on an unsigned number, which panics at 0.
unfoldable pub decrement {ℓ} : {X : Type ℓ} → ℕ → Outcome X ℕ
decrement zero = panic
decrement (suc n) = done n

pub decrement-suc {ℓ} : {X : Type ℓ} (n m : ℕ) → n ≡ suc m → decrement {X = X} n ≡ done m
unfolding decrement
decrement-suc n m e = rw e

module _ {ℓ κ ι} {X : Type ℓ} {S : Type κ} {A : Type ι} where
  -- A `for` loop over the elements of a list.
  unfoldable pub each : (S → A → Outcome X S) → S → List A → Outcome X S
  each f s [] = done s
  each f s (x ∷ xs) = f s x >>= λ t. each f t xs

module _ {ℓ κ} {X : Type ℓ} {A : Type κ} (Q : X → Type 0) where
  pub Ensures-bind {ι} :
      {B : Type ι} (P : A → Type 0) (R : B → Type 0) (m : Outcome X A) (f : A → Outcome X B)
      → Ensures P Q m
      → ((a : A) → P a → Ensures R Q (f a))
      → Ensures R Q (m >>= f)
  Ensures-bind P R (done a) f h k = k a h
  Ensures-bind P R (fail x) f h k = h
  Ensures-bind P R panic f h k = h
  Ensures-bind P R out_of_fuel f h k = h

  pub Ensures-mono :
      (P R : A → Type 0) (m : Outcome X A) → Ensures P Q m → ((a : A) → P a → R a) → Ensures R Q m
  Ensures-mono P R (done a) h k = k a h
  Ensures-mono P R (fail x) h k = h
  Ensures-mono P R panic h k = h
  Ensures-mono P R out_of_fuel h k = h

  -- The invariant rule of a `for` loop: `P` speaks of the elements that are left.
  pub each_inv {ι} :
      {B : Type ι} (P : List B → A → Type 0) (f : A → B → Outcome X A)
      → ((x : B) (xs : List B) (s : A) → P (x ∷ xs) s → Ensures (P xs) Q (f s x))
      → (xs : List B) (s : A) → P xs s
      → Ensures (P []) Q (each f s xs)
  unfolding each
  each_inv P f keep [] s h = h
  each_inv P f keep (x ∷ xs) s h =
      Ensures-bind (P xs) (P []) (f s x) (λ t. each f t xs) (keep x xs s h)
        λ t k. each_inv P f keep xs t k

  -- The rule of a counted loop: `P k` holds before the round of index `k`.
  pub range_inv :
      (n : ℕ) (P : ℕ → A → Type 0) (f : A → ℕ → Outcome X A)
      → ((k : ℕ) (s : A) → k < n → P k s → Ensures (P (suc k)) Q (f s k))
      → (left k : ℕ) (s : A) → left + k ≡ n
      → P k s
      → Ensures (P n) Q (each f s (range_from k left))
  unfolding each
  range_inv n P f keep zero k s e h = let e' : k ≡ n = omega arith in rw e' at h
  range_inv n P f keep (suc left) k s e h =
      Ensures-bind (P (suc k)) (P n) (f s k) (λ t. each f t (range_from (suc k) left))
        (keep k s (omega arith) h) λ t p. range_inv n P f keep left (suc k) t (omega arith) p

-- The same of a machine that may still be running: out of fuel is allowed, a panic is not.
abbrev pub Allows {ℓ κ} :
    {X : Type ℓ} {A : Type κ} → (A → Type 0) → (X → Type 0) → Outcome X A → Type 0
Allows P Q (done a) = P a
Allows P Q (fail x) = Q x
Allows P Q panic = ⊥
Allows P Q out_of_fuel = Unit

module _ {ℓ κ} {X : Type ℓ} {A : Type κ} (P : A → Type 0) (Q S : X → Type 0) where
  pub Allows-of_Ensures : (m : Outcome X A) → Ensures P Q m → ((x : X) → Q x → S x) → Allows P S m
  Allows-of_Ensures (done a) h k = h
  Allows-of_Ensures (fail x) h k = k x h
  Allows-of_Ensures panic h k = absurd h
  Allows-of_Ensures out_of_fuel h k = tt

  pub Allows-bind {ι} :
      {B : Type ι} (R : B → Type 0) (m : Outcome X A) (f : A → Outcome X B)
      → Allows P Q m
      → ((x : X) → Q x → S x)
      → ((a : A) → P a → Allows R S (f a))
      → Allows R S (m >>= f)
  Allows-bind R (done a) f h k next = next a h
  Allows-bind R (fail x) f h k next = k x h
  Allows-bind R panic f h k next = h
  Allows-bind R out_of_fuel f h k next = tt

-- What holds of a value, if there is one.
abbrev pub Partial {ℓ κ} : {X : Type ℓ} {A : Type κ} → (A → Type 0) → Outcome X A → Type 0
Partial P (done a) = P a
Partial P (fail x) = Unit
Partial P panic = Unit
Partial P out_of_fuel = Unit

module _ {ℓ κ ι} {X : Type ℓ} {A : Type κ} {B : Type ι} where
  pub Partial-bind :
      (P : B → Type 0) (m : Outcome X A) (f : A → Outcome X B)
      → ((a : A) → m ≡ done a → Partial P (f a))
      → Partial P (m >>= f)
  Partial-bind P (done a) f k = k a refl
  Partial-bind P (fail x) f k = tt
  Partial-bind P panic f k = tt
  Partial-bind P out_of_fuel f k = tt

module _ {ℓ κ} {X : Type ℓ} {A : Type κ} where
  pub assign-done :
      (xs : List A) (i : ℕ) (a : A) {ys : List A}
      → assign {X = X} xs i a ≡ done ys
      → (ys ≡ set xs i a) × (i < length xs)
  unfolding assign
  assign-done xs i a h = elim (Option-cases (get_elem? xs i)) [
    | inl e ↦ let stopped : assign {X = X} xs i a ≡ panic = rw (e, assign) refl in cc
    | inr (b, e) ↦
        let written : assign {X = X} xs i a ≡ done (set xs i a) = rw (e, assign) refl in
        (cc, get_elem?-eq-some xs i e)
  ]

  pub Partial-mono :
      (P Q : A → Type 0) (m : Outcome X A) → Partial P m → ((a : A) → P a → Q a) → Partial Q m
  Partial-mono P Q (done a) h k = k a h
  Partial-mono P Q (fail x) h k = tt
  Partial-mono P Q panic h k = tt
  Partial-mono P Q out_of_fuel h k = tt

  pub Partial-done : (P : A → Type 0) (m : Outcome X A) {a : A} → Partial P m → m ≡ done a → P a
  Partial-done P m h e = subst (Partial P) e h

  pub Partial-all : (P : A → Type 0) (m : Outcome X A) → ((a : A) → P a) → Partial P m
  Partial-all P (done a) h = h a
  Partial-all P (fail x) h = tt
  Partial-all P panic h = tt
  Partial-all P out_of_fuel h = tt

  pub index-done :
      (xs : List A) (i : ℕ) {a : A} → index {X = X} xs i ≡ done a → get_elem? xs i ≡ some a
  unfolding index
  index-done xs i h = elim (Option-cases (get_elem? xs i)) [
    | inl e ↦ let stopped : index {X = X} xs i ≡ panic = rw (e, index) refl in cc
    | inr (b, e) ↦ let read : index {X = X} xs i ≡ done b = rw (e, index) refl in cc
  ]

  -- The invariant rule of a `for` loop, of the rounds that go on.
  pub each-Partial {ι} :
      {B : Type ι} (P : A → Type 0) (f : A → B → Outcome X A)
      → ((s : A) (x : B) → P s → Partial P (f s x))
      → (xs : List B) (s : A) → P s
      → Partial P (each f s xs)
  unfolding each
  each-Partial P f keep [] s h = h
  each-Partial P f keep (x ∷ xs) s h =
      Partial-bind P (f s x) (λ t. each f t xs)
        λ t e. each-Partial P f keep xs t (subst (Partial P) e (keep s x h))

-- A value that there is, with what holds of it if there is one.
pub Ensures-both {ℓ κ} :
    {X : Type ℓ} {A : Type κ} (P R : A → Type 0) (Q : X → Type 0) (m : Outcome X A)
    → Ensures P Q m
    → Partial R m
    → Ensures (λ a. P a × R a) Q m
Ensures-both P R Q (done a) h k = (h, k)
Ensures-both P R Q (fail x) h k = h
Ensures-both P R Q panic h k = h
Ensures-both P R Q out_of_fuel h k = h

pub >>=-assoc {ℓ κ} :
    {X : Type ℓ} {A B C : Type κ} (m : Outcome X A) (f : A → Outcome X B) (g : B → Outcome X C)
    → (m >>= f >>= g) ≡ (m >>= λ a. f a >>= g)
>>=-assoc (done a) f g = refl
>>=-assoc (fail x) f g = refl
>>=-assoc panic f g = refl
>>=-assoc out_of_fuel f g = refl
