-- ===== src/Prelude.antt =====
-- The names that the other modules share: the libraries', passed on, and those of the children.
mod Tests
mod Lists
mod Maps
mod Text
mod Decimal
pub use Tests.*
pub use Lists.*
unfoldable pub use Maps.{lookup, assign}
pub use Maps.{update, lookup-assign}
unfoldable pub use Text.{utf16_length, is_blank, trim}
pub use Text.{is_space, ◌+++◌}
unfoldable pub use Decimal.{decimal, parse_int}
pub use Decimal.{parse_int-decimal}
unfoldable pub use Decimal.Numbers.{number_of}
pub use Decimal.Numbers.{Number, whole, other}
pub use Decimal.Numbers.{number_of-decimal}
unfoldable pub use Decimal.Digits.{digits_of}
pub use Decimal.Digits.{digits_of-decimal}
pub use Prim.Native.Nat.{ℕ, zero, suc, ◌+◌, ◌-◌, ◌*◌, ◌/◌, ◌%◌, ◌≤◌, ◌<◌}
pub use Prim.Native.String.{String}
pub use mathlib.Core.Path.{◌≡◌, refl, sym, ap, ◌∙◌}
pub use mathlib.Core.Logic.{◌≢◌, ◌↔◌, ◌⊎◌, inl, inr}
pub use mathlib.Core.Bool.{Bool, true, false, not, ◌&&◌, ◌||◌}
pub use mathlib.Core.Option.{Option, none, some}
pub use mathlib.Core.List.{List, [], ◌∷◌, ◌++◌, map}
pub use native.Mathlib.Omega.{arith}
pub use text.Mathlib.TextEquality.{eq_iff}
pub use text.Mathlib.TextPositions.{eq_refl}
