-- ===== src/Base/Trim.antt =====
-- strings.TrimSpace and strings.ToLower on ASCII text.
use Prim.Native.Nat.{ℕ, ◌+◌}
use mathlib.Core.Bool.{Bool, ◌&&◌, ◌||◌}
use mathlib.Core.List.{[], ◌∷◌, map}
use noble_cctp_relayer.Base.Tests.{leb, ◌==◌, if◌then◌else◌}
use noble_cctp_relayer.Base.Bytes.{Text}

abbrev is_space : ℕ → Bool
is_space c = c == 32 || (leb 9 c && leb c 13)

unfoldable pub trim_left : Text → Text
trim_left [] = []
trim_left (c ∷ cs) = let rest = trim_left cs in if is_space c then rest else c ∷ cs

abbrev keep_right : ℕ → Text → Text
keep_right c [] = if is_space c then [] else c ∷ []
keep_right c (d ∷ ds) = c ∷ d ∷ ds

unfoldable pub trim_right : Text → Text
trim_right [] = []
trim_right (c ∷ cs) = keep_right c (trim_right cs)

unfoldable pub trim_space : Text → Text
unfolding trim_left trim_right
trim_space s = trim_left (trim_right s)

abbrev lower : ℕ → ℕ
lower c = if leb 65 c && leb c 90 then c + 32 else c

unfoldable pub to_lower : Text → Text
to_lower = map lower
