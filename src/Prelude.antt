-- ===== src/Prelude.antt =====
-- Names that the modules share: those of the libraries, passed on, Boolean tests and lists over the
-- native numbers, and the integers that Go's `int` is read as.
mod Tests
mod Lists
pub mod Int
mod Decimal
pub use Tests.*
pub use Lists.*
unfoldable pub use Decimal.{itoa, int_text}
pub use Prim.Native.Nat.{ℕ, zero, suc, ◌+◌, ◌-◌, ◌*◌, ◌/◌, ◌%◌, ◌^◌, ◌≤◌, ◌<◌}
pub use mathlib.Core.Path.{◌≡◌, refl, sym, ap, ◌∙◌}
pub use mathlib.Core.Logic.{◌≢◌, ◌↔◌, ◌⊎◌, inl, inr}
pub use mathlib.Core.Bool.{Bool, true, false, not, ◌&&◌, ◌||◌}
pub use mathlib.Core.Option.{Option, none, some}
pub use mathlib.Core.List.{List, [], ◌∷◌, ◌++◌, map, append_assoc, append-nil, map-append}
unfoldable pub use mathlib.Core.List.{flat_map}
pub use native.Mathlib.Omega.{arith}
