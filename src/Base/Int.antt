-- ===== src/Base/Int.antt =====
-- Signed integers over the native numbers, under the library's names.
use Prim.Native.Nat.{ℕ, suc, ◌-◌, ◌%◌}
use mathlib.Core.Bool.{Bool, true}
use noble_cctp_relayer.Base.Tests.{◌==◌, ltb, if◌then◌else◌}

-- `negsuc n` is -(n + 1).
pub data ℤ : Type 0 where
  pos : ℕ → ℤ
  negsuc : ℕ → ℤ

-- x <= 0
abbrev pub not_positive : ℤ → Bool
not_positive (pos n) = n == 0
not_positive (negsuc n) = true

-- The rounds of a loop that counts from 1 up to x: none if x is negative.
abbrev pub pos_part : ℤ → ℕ
pos_part (pos n) = n
pos_part (negsuc n) = 0

-- The rounds of a loop that counts from 0 up to x.
abbrev pub rounds_from_zero : ℤ → ℕ
rounds_from_zero (pos n) = suc n
rounds_from_zero (negsuc n) = 0

-- int64(v) of a uint64, and uint64(x) of an int64.
abbrev pub as_int64 : ℕ → ℤ
as_int64 v =
    let m = v % 0x1_0000_0000_0000_0000 in
    if ltb m 0x8000_0000_0000_0000 then pos m else negsuc (0xFFFF_FFFF_FFFF_FFFF - m)

abbrev pub as_uint64 : ℤ → ℕ
as_uint64 (pos n) = n % 0x1_0000_0000_0000_0000
as_uint64 (negsuc n) = 0xFFFF_FFFF_FFFF_FFFF - n % 0x1_0000_0000_0000_0000

-- The bytes of the absolute value.
abbrev pub absolute : ℤ → ℕ
absolute (pos n) = n
absolute (negsuc n) = suc n
