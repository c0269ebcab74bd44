-- ===== src/Prelude/Decimal.antt =====
-- `from_str` of the unsigned integers of the standard library: an optional plus sign and decimal
-- digits, up to the largest value of the type.
use Prim.Native.Nat.{ℕ, ◌+◌, ◌-◌, ◌*◌}
use mathlib.Core.Bool.{Bool, ◌&&◌}
use mathlib.Core.Option.{Option, none, some}
use mathlib.Core.List.{List, [], ◌∷◌}
use nux_auth.Prelude.Tests.{leb, ◌==◌, if◌then◌else◌}

abbrev pub is_digit : ℕ → Bool
is_digit c = leb 48 c && leb c 57

abbrev pub digits : ℕ → List ℕ → Option ℕ
digits acc [] = some acc
digits acc (c ∷ cs) =
    let rest = digits (acc * 10 + (c - 48)) cs in if is_digit c then rest else none

abbrev pub unsigned : List ℕ → Option ℕ
unsigned [] = none
unsigned (c ∷ cs) = digits 0 (c ∷ cs)

abbrev pub without_plus : List ℕ → List ℕ
without_plus [] = []
without_plus (c ∷ cs) = if c == 43 then cs else c ∷ cs

unfoldable pub parse_uint : ℕ → List ℕ → Option ℕ
parse_uint largest text = elim (unsigned (without_plus text)) [
  | none ↦ none
  | some n ↦ if leb n largest then some n else none
]
