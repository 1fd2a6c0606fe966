-- ===== src/Base/Hex.antt =====
-- encoding/hex: EncodeToString and DecodeString.
use Prim.Native.Nat.{ℕ, ◌+◌, ◌-◌, ◌*◌, ◌/◌, ◌%◌}
use mathlib.Core.Path.{◌≡◌, refl}
use mathlib.Core.Bool.{◌&&◌}
use mathlib.Core.Option.{Option, none, some}
use mathlib.Core.List.{List, [], ◌∷◌}
use native.Mathlib.Omega.{arith}
use noble_cctp_relayer.Base.Tests.{ltb, leb, if◌then◌else◌}
use noble_cctp_relayer.Base.Lists.{All, length}
use noble_cctp_relayer.Base.Bytes.{Text, IsByte}

-- The digit of a value below 16: 0-9, then a-f.
abbrev hex_digit : ℕ → ℕ
hex_digit n = if ltb n 10 then 48 + n else 87 + n

unfoldable pub hex_encode : List ℕ → Text
hex_encode [] = []
hex_encode (b ∷ bs) = hex_digit (b / 16) ∷ hex_digit (b % 16) ∷ hex_encode bs

abbrev pub hex_value : ℕ → Option ℕ
hex_value c =
    if leb 48 c && leb c 57
    then some (c - 48)
    else if leb 97 c && leb c 102
    then some (c - 87)
    else if leb 65 c && leb c 70
    then some (c - 55)
    else none

abbrev pub join_digits : Option ℕ → Option ℕ → Option (List ℕ) → Option (List ℕ)
join_digits (some h) (some l) (some bs) = some ((h * 16 + l) ∷ bs)
join_digits _ _ _ = none

-- `none` is an error: an odd length, or a character that is no digit.
unfoldable pub hex_decode : Text → Option (List ℕ)
hex_decode [] = some []
hex_decode (c ∷ []) = none
hex_decode (c ∷ d ∷ rest) = join_digits (hex_value c) (hex_value d) (hex_decode rest)

pub hex_decode-hex_encode : (bs : List ℕ) → All IsByte bs → hex_decode (hex_encode bs) ≡ some bs
unfolding hex_decode hex_encode
hex_decode-hex_encode [] h = refl
hex_decode-hex_encode (b ∷ bs) (hb, h) = ground (arith, hex_decode-hex_encode bs h)

pub length-hex_encode : (bs : List ℕ) → length (hex_encode bs) ≡ 2 * length bs
unfolding hex_encode
length-hex_encode [] = omega arith
length-hex_encode (b ∷ bs) = omega (arith, length-hex_encode bs)

-- What two digits in front of a text that can be read are.
abbrev pub HexPair : ℕ → ℕ → Text → List ℕ → Type 0
HexPair c d rest bytes =
    (h : ℕ) × (l : ℕ) × (bs : List ℕ) × (hex_value c ≡ some h)
    × (hex_value d ≡ some l)
    × (hex_decode rest ≡ some bs)
    × (bytes ≡ (h * 16 + l) ∷ bs)

pub hex_decode-HexPair :
    (c d : ℕ) (rest : Text) (bytes : List ℕ)
    → hex_decode (c ∷ d ∷ rest) ≡ some bytes
    → HexPair c d rest bytes
unfolding hex_decode
hex_decode-HexPair c d rest bytes e =
    go (hex_value c) (hex_value d) (hex_decode rest) refl refl refl e
  where
    go :
        (x y : Option ℕ) (z : Option (List ℕ))
        → hex_value c ≡ x
        → hex_value d ≡ y
        → hex_decode rest ≡ z
        → join_digits x y z ≡ some bytes
        → HexPair c d rest bytes
    go (some h) (some l) (some bs) x y z k = (h, l, bs, x, y, z, cc)
    go none y z p q r k = absurd (cc)
    go (some h) none z p q r k = absurd (cc)
    go (some h) (some l) none p q r k = absurd (cc)
