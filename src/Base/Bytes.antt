-- ===== src/Base/Bytes.antt =====
-- Byte strings as lists of numbers, and the big-endian reading and writing of encoding/binary
-- and math/big that the source uses on them.
use Prim.Native.Nat.{ℕ, zero, suc, ◌+◌, ◌*◌, ◌/◌, ◌%◌, ◌^◌, ◌<◌}
use Prim.Native.Char.{code}
use Prim.Native.String.{String}
use mathlib.Core.Path.{◌≡◌, refl, ap, ap₂}
use mathlib.Core.Logic.{◌↔◌}
use mathlib.Core.Bool.{Bool, true, false, ◌&&◌}
use mathlib.Core.List.{List, [], ◌∷◌}
use native.Mathlib.Omega.{arith}
use native.Mathlib.Nat.{
  div-add-mod, div-add-mod', mod-lt, mod-eq_of_lt, pow-suc, mul-add-div_right, div-eq_of_lt,
  mul-add-mod_self_right,
}
use noble_cctp_relayer.Base.Tests.{◌==◌}
use noble_cctp_relayer.Base.Lists.{length, All}

abbrev pub IsByte : ℕ → Type 0
IsByte b = b < 256

-- A Go string is its bytes; a literal of the source is ASCII.
abbrev pub Text : Type 0
Text = List ℕ

abbrev pub text : String → Text
text String.[] = []
text (String.◌∷◌ c s) = code c ∷ text s

-- `==` of strings and bytes.Equal.
unfoldable pub text_eq : Text → Text → Bool
text_eq [] [] = true
text_eq [] (y ∷ ys) = false
text_eq (x ∷ xs) [] = false
text_eq (x ∷ xs) (y ∷ ys) = x == y && text_eq xs ys

pub text_eq_iff : (s t : Text) → (text_eq s t ≡ true) ↔ (s ≡ t)
unfolding text_eq
text_eq_iff [] [] = ground arith
text_eq_iff [] (y ∷ ys) = ground arith
text_eq_iff (x ∷ xs) [] = ground arith
text_eq_iff (x ∷ xs) (y ∷ ys) = ground (arith, text_eq_iff xs ys)

pub text_eq_refl : (s : Text) → text_eq s s ≡ true
text_eq_refl s = (text_eq_iff s s).1 refl

-- big.Int.SetBytes, and binary.BigEndian.Uint32 and Uint64 on slices of 4 and 8 bytes.
unfoldable pub be_uint : List ℕ → ℕ
be_uint [] = 0
be_uint (b ∷ bs) = b * 256 ^ length bs + be_uint bs

-- binary.BigEndian.PutUint32 is `be_bytes 4`, PutUint64 is `be_bytes 8`.
unfoldable pub be_bytes : ℕ → ℕ → List ℕ
be_bytes zero v = []
be_bytes (suc k) v = v / 256 ^ k % 256 ∷ be_bytes k (v % 256 ^ k)

pub length-be_bytes : (k v : ℕ) → length (be_bytes k v) ≡ k
unfolding be_bytes
length-be_bytes zero v = refl
length-be_bytes (suc k) v = ap suc (length-be_bytes k (v % 256 ^ k))

pub pow_pos : (k : ℕ) → 0 < 256 ^ k
pow_pos zero = omega arith
pow_pos (suc k) = rw pow-suc (omega (arith, pow_pos k))

-- The head of the quotient fits a byte.
quotient_byte : (k v : ℕ) → v < 256 ^ suc k → v / 256 ^ k < 256
quotient_byte k v h = grind (arith, pow_pos k, div-add-mod v (256 ^ k), pow-suc 256 k)

pub be_uint-lt : (bs : List ℕ) → All IsByte bs → be_uint bs < 256 ^ length bs
unfolding be_uint
be_uint-lt [] h = omega arith
be_uint-lt (b ∷ bs) (hb, h) = grind (arith, pow-suc 256 (length bs), be_uint-lt bs h)

pub be_uint-be_bytes : (k v : ℕ) → v < 256 ^ k → be_uint (be_bytes k v) ≡ v
unfolding be_uint be_bytes
be_uint-be_bytes zero v h = omega arith
be_uint-be_bytes (suc k) v h =
    rw (length-be_bytes k (v % 256 ^ k), be_uint-be_bytes k (v % 256 ^ k) (mod-lt v (pow_pos k)))
      (rw (mod-eq_of_lt (quotient_byte k v h)) (div-add-mod' v (256 ^ k)))

pub be_bytes-be_uint : (bs : List ℕ) → All IsByte bs → be_bytes (length bs) (be_uint bs) ≡ bs
unfolding be_uint be_bytes
be_bytes-be_uint [] h = refl
be_bytes-be_uint (b ∷ bs) (hb, h) =
    ap₂ ◌∷◌
      (rw (mul-add-div_right (pow_pos (length bs)) b (be_uint bs), div-eq_of_lt (be_uint-lt bs h))
        (omega arith))
      (rw (mul-add-mod_self_right b (256 ^ length bs) (be_uint bs), mod-eq_of_lt (be_uint-lt bs h))
        (be_bytes-be_uint bs h))
