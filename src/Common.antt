-- ===== src/Common.antt =====
-- The names that the other modules share: the library's, passed on, and those of the children.
-- A Go string is valid UTF-8 and stands as the list of its code points (`Text`); an `int` is a `ℤ` over the native numbers where it
-- can be negative, and a number otherwise; a Go map is an association list with distinct keys.
mod Tests
mod Lists
mod Texts
mod Trim
mod Assoc
mod Keys
mod Finding
mod Decimal
mod Paths
mod Results
pub mod Int
unfoldable pub use Int.*
pub use Tests.*
pub use Lists.*
unfoldable pub use Texts.*
unfoldable pub use Trim.*
unfoldable pub use Assoc.*
unfoldable pub use Keys.*
unfoldable pub use Finding.*
unfoldable pub use Decimal.*
unfoldable pub use Paths.*
pub use Results.*
pub use Prim.Native.Nat.{ℕ, zero, suc, ◌+◌, ◌-◌, ◌*◌, ◌/◌, ◌%◌, ◌^◌, ◌≤◌, ◌<◌}
pub use mathlib.Core.Path.{◌≡◌, refl, sym, ap, ◌∙◌}
pub use mathlib.Core.Logic.{◌≢◌, ◌↔◌, ◌⊎◌, inl, inr}
pub use mathlib.Core.Bool.{Bool, true, false, ◌&&◌, ◌||◌, not}
pub use mathlib.Core.Option.{Option, none, some}
pub use mathlib.Core.List.{List, [], ◌∷◌, ◌++◌, map, Memᴰ}
pub use mathlib.Core.List.{append_assoc, append-nil}
pub use native.Mathlib.Omega.{arith}
