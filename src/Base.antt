-- ===== src/Base.antt =====
-- The names that the other modules share.
mod Tests
mod Lists
mod Outcomes
mod Bytes
mod Decimal
mod Maps
mod Slices
mod Hex
mod Base64
mod Words
mod Int
mod Trim
mod Scan
pub use Tests.*
pub use Lists.*
pub use Outcomes.*
unfoldable pub use Bytes.*
unfoldable pub use Decimal.*
unfoldable pub use Maps.*
unfoldable pub use Slices.*
unfoldable pub use Base64.*
unfoldable pub use Hex.*
pub use Int.*
pub use Words.*
unfoldable pub use Trim.*
unfoldable pub use Scan.*
pub use Prim.Native.Nat.{ℕ, zero, suc, ◌+◌, ◌-◌, ◌*◌, ◌/◌, ◌%◌, ◌^◌, ◌≤◌, ◌<◌, min}
pub use mathlib.Core.Path.{◌≡◌, refl, sym, ap, ap₂, subst, ◌∙◌}
pub use mathlib.Core.Logic.{◌≢◌, ◌↔◌, ◌⊎◌, inl, inr}
pub use mathlib.Core.Bool.{Bool, true, false, not, ◌&&◌, ◌||◌}
pub use mathlib.Core.Option.{Option, none, some}
pub use mathlib.Core.List.{List, [], ◌∷◌, ◌++◌, map, append_assoc, append-nil}
pub use native.Mathlib.Omega.{arith}
unfoldable pub use native.Mathlib.Decide.{dec_lt, dec_le, ℕ_discrete}
