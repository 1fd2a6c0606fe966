-- ===== src/Base/Words.antt =====
-- uint64 arithmetic, which wraps.
use Prim.Native.Nat.{ℕ, ◌+◌, ◌-◌, ◌%◌}

abbrev pub u64_mod : ℕ
u64_mod = 0x1_0000_0000_0000_0000

abbrev pub add64 : ℕ → ℕ → ℕ
add64 a b = (a + b) % u64_mod

abbrev pub sub64 : ℕ → ℕ → ℕ
sub64 a b = (a + u64_mod - b) % u64_mod
