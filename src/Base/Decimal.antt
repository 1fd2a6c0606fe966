-- ===== src/Base/Decimal.antt =====
-- strconv.FormatUint(v, 10), which `%d` prints too, and strconv.ParseUint(s, 10, 64).
use Prim.Native.Nat.{ℕ, zero, suc, ◌+◌, ◌-◌, ◌*◌, ◌/◌, ◌%◌, ◌^◌, ◌≤◌, ◌<◌}
use mathlib.Core.Path.{◌≡◌, refl, ◌∙◌}
use mathlib.Core.Logic.{inl, inr}
use mathlib.Core.Bool.{Bool, true, false, ◌&&◌}
use mathlib.Core.Option.{Option, none, some}
use mathlib.Core.List.{[], ◌∷◌, ◌++◌, append_assoc, append-nil}
use native.Mathlib.Omega.{arith}
use noble_cctp_relayer.Base.Tests.{ltb, leb, if◌then◌else◌, Bool-cases}
use noble_cctp_relayer.Base.Lists.{length, length-append}
use noble_cctp_relayer.Base.Bytes.{Text}

-- The fuel bounds the number of digits; `v + 1` is always enough.
format_loop : ℕ → ℕ → Text
format_loop zero v = []
format_loop (suc fuel) v =
    let longer = format_loop fuel (v / 10) ++ ((48 + v % 10) ∷ []) in
    if ltb v 10 then (48 + v) ∷ [] else longer

unfoldable pub format_uint : ℕ → Text
unfolding format_loop
format_uint v = format_loop (suc v) v

abbrev is_digit : ℕ → Bool
is_digit c = leb 48 c && leb c 57

-- `none` is any error: a character that is no digit, or a value of 2 ^ 64 and more.
parse_loop : ℕ → Text → Option ℕ
parse_loop acc [] = some acc
parse_loop acc (c ∷ cs) =
    let acc' = acc * 10 + (c - 48) in
    let rest = parse_loop acc' cs in
    if is_digit c && ltb acc' 0x1_0000_0000_0000_0000 then rest else none

unfoldable pub parse_uint : Text → Option ℕ
unfolding parse_loop
parse_uint [] = none
parse_uint (c ∷ cs) = parse_loop 0 (c ∷ cs)

parse_loop-format_loop :
    (fuel v : ℕ) (rest : Text)
    → v < fuel
    → v < 2 ^ 64
    → parse_loop 0 (format_loop fuel v ++ rest) ≡ parse_loop v rest
unfolding parse_loop format_loop
parse_loop-format_loop zero v rest h k = elim h [ ]
parse_loop-format_loop (suc fuel) v rest h k = elim (Bool-cases (ltb v 10)) [
  | inl small ↦ rw (small, format_loop) (ground arith)
  | inr large ↦
      rw
        (
          large,
          format_loop,
          append_assoc (format_loop fuel (v / 10)) ((48 + v % 10) ∷ []) rest,
          parse_loop-format_loop fuel (v / 10) ((48 + v % 10) ∷ rest) (ground arith) (ground arith),
        )
        (digit_step large)
]
  where
    digit_step : ltb v 10 ≡ false → parse_loop (v / 10) ((48 + v % 10) ∷ rest) ≡ parse_loop v rest
    digit_step large = ground arith

length-format_uint : (v : ℕ) → 1 ≤ length (format_uint v)
unfolding format_uint
length-format_uint v = ground (arith, length-append (format_loop v (v / 10)) ((48 + v % 10) ∷ []))

parse_uint-parse_loop : (s : Text) → 1 ≤ length s → parse_uint s ≡ parse_loop 0 s
unfolding parse_uint
parse_uint-parse_loop [] h = absurd (omega arith)
parse_uint-parse_loop (c ∷ cs) h = refl

-- Printing a uint64 and parsing it gives it back.
pub parse_uint-format_uint : (v : ℕ) → v < 2 ^ 64 → parse_uint (format_uint v) ≡ some v
parse_uint-format_uint v h = parse_uint-parse_loop (format_uint v) (length-format_uint v) ∙ looped
  where
    looped : parse_loop 0 (format_uint v) ≡ some v
    looped =
        unfold format_uint parse_loop in
        (rw append-nil at (parse_loop-format_loop (suc v) v [] (omega arith) h))

append-nonempty : (xs : Text) (c : ℕ) → ¬ (xs ++ (c ∷ []) ≡ [])
append-nonempty [] c e = cc
append-nonempty (x ∷ xs) c e = cc

pub format_uint-nonempty : (v : ℕ) → ¬ (format_uint v ≡ [])
unfolding format_uint format_loop
format_uint-nonempty v e = go (ltb v 10) e
  where
    go :
        (b : Bool)
        → ¬ ((if b then (48 + v) ∷ [] else format_loop v (v / 10) ++ ((48 + v % 10) ∷ [])) ≡ [])
    go true e' = cc
    go false e' = append-nonempty (format_loop v (v / 10)) (48 + v % 10) e'
