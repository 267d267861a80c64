-- ===== src/Examples/Text.antt =====
-- What `format!` and `write!` print in the examples: numbers in decimal and in hexadecimal. A text is
-- the list of its bytes.
pub mod Decimal
pub mod Ascii
use Prim.Native.Char.{code}
use Prim.Native.String.{String}
use rust_dag_executor.Prelude.{
  ℕ, zero, suc, ◌+◌, ◌-◌, ◌/◌, ◌%◌, List, [], ◌∷◌, ◌++◌, length, replicate, if◌then◌else◌, ltb,
}

abbrev pub Text : Type 0
Text = List ℕ

-- The bytes of an ASCII literal.
abbrev pub codes : String → Text
codes String.[] = []
codes (String.◌∷◌ c s) = code c ∷ codes s

-- '0' to '9', then 'a' to 'f'.
abbrev pub digit : ℕ → ℕ
digit d = if ltb d 10 then 48 + d else 87 + d

-- The digits of `n`, at most `fuel` of them.
unfoldable pub digits : ℕ → ℕ → ℕ → Text
digits base zero n = []
digits base (suc fuel) n =
    let rest = digits base fuel (n / base) in
    if ltb n base then digit n ∷ [] else rest ++ digit (n % base) ∷ []

-- `{}` of an unsigned number
unfoldable pub decimal : ℕ → Text
decimal n = digits 10 (suc n) n

-- `{:0wx}`: hexadecimal, with zeros before it up to `w` digits.
unfoldable pub padded_hex : ℕ → ℕ → Text
padded_hex w n = let s = digits 16 (suc n) n in replicate (w - length s) 48 ++ s
