-- ===== src/Base/Scan.antt =====
-- regexp, for the patterns of the form A(\d+)B(\d+) that the source matches, and [0-9]+.
use Prim.Native.Nat.{ℕ, ◌+◌, ◌-◌, ◌*◌}
use mathlib.Core.Bool.{Bool, ◌&&◌}
use mathlib.Core.Option.{Option, none, some}
use mathlib.Core.List.{[], ◌∷◌}
use noble_cctp_relayer.Base.Tests.{◌==◌, leb, if◌then◌else◌}
use noble_cctp_relayer.Base.Bytes.{Text}

abbrev digit : ℕ → Bool
digit c = leb 48 c && leb c 57

strip_prefix : Text → Text → Option Text
strip_prefix [] s = some s
strip_prefix (c ∷ cs) [] = none
strip_prefix (c ∷ cs) (d ∷ ds) = let rest = strip_prefix cs ds in if c == d then rest else none

-- The digits in front, and what is behind them.
unfoldable pub span_digits : Text → Text × Text
span_digits [] = ([], [])
span_digits (c ∷ cs) =
    let rest = span_digits cs in if digit c then (c ∷ rest.0, rest.1) else ([], c ∷ cs)

-- `B(\d+)` behind the first number.
abbrev behind : Text → Option Text → Option Text
behind first none = none
behind first (some []) = none
behind first (some (c ∷ cs)) = if digit c then some first else none

abbrev in_front : Text → Option Text → Option Text
in_front middle none = none
in_front middle (some s) = elim (span_digits s).0 [
  | [] ↦ none
  | c ∷ cs ↦ behind (c ∷ cs) (strip_prefix middle (span_digits s).1)
]

abbrev first_of : Option Text → Option Text → Option Text
first_of none later = later
first_of (some t) later = some t

-- The first group of the leftmost match of prefix(\d+)middle(\d+), whose middle starts with no digit.
unfoldable pub find_two_numbers : Text → Text → Text → Option Text
unfolding strip_prefix span_digits
find_two_numbers front middle [] = none
find_two_numbers front middle (c ∷ cs) =
    first_of (in_front middle (strip_prefix front (c ∷ cs))) (find_two_numbers front middle cs)

-- The first match of [0-9]+, empty if there is none.
unfoldable pub first_number : Text → Text
unfolding span_digits
first_number [] = []
first_number (c ∷ cs) =
    let later = first_number cs in if digit c then (span_digits (c ∷ cs)).0 else later

number_loop : ℕ → Text → ℕ
number_loop acc [] = acc
number_loop acc (c ∷ cs) = number_loop (acc * 10 + (c - 48)) cs

-- The value of a text of digits.
unfoldable pub number_of : Text → ℕ
unfolding number_loop
number_of s = number_loop 0 s
