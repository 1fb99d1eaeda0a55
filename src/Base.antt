-- ===== src/Base.antt =====
-- The names that every component shares: the libraries', passed on, Boolean tests, results,
-- lists over the native numbers, and byte strings.
mod Tests
mod Results
mod Lists
mod Text
mod Int
mod Utf8
mod Assoc
mod Trim
pub use Tests.*
pub use Results.*
pub use Lists.*
pub use Int.*
unfoldable pub use Utf8.*
unfoldable pub use Text.*
unfoldable pub use Assoc.*
unfoldable pub use Trim.*
pub use Prim.Native.Nat.{ℕ, zero, suc, ◌+◌, ◌-◌, ◌*◌, ◌/◌, ◌%◌, ◌^◌, ◌≤◌, ◌<◌, min, max}
pub use Prim.Native.String.{String}
pub use mathlib.Core.Path.{subst, ◌≡◌, refl, sym, ap, ◌∙◌}
pub use mathlib.Core.Logic.{◌≢◌, ◌↔◌, ◌⊎◌, inl, inr}
pub use mathlib.Core.Bool.{Bool, true, false, not, ◌&&◌, ◌||◌}
pub use mathlib.Core.Option.{Option, none, some}
pub use mathlib.Core.List.{List, [], ◌∷◌, ◌++◌, map}
pub use native.Mathlib.Omega.{arith}
