-- ===== src/Common.antt =====
-- The names that the other modules share: the libraries', passed on, and those of the children.
mod Tests
mod Lists
mod Texts
mod Maps
mod Lines
mod Decimal
mod Words
pub mod Paths
pub use Tests.*
pub use Lists.*
unfoldable pub use Texts.{Text, codes, beq, trim, is_whitespace, concat, trim_start, text_leb}
pub use Texts.{text_eq, ==-refl, beq_iff, text_leb_total}
pub use Maps.*
unfoldable pub use Lines.{
  push, starts_with_char, lines, split_at_whitespace, split_whitespace, split_char, split_once,
  strip_prefix,
}
unfoldable pub use Decimal.{to_decimal, parse_uint}
pub use Words.*
unfoldable pub use Paths.{file_name, parent, join}
pub use Decimal.{is_digit, to_decimal-digits, to_decimal-ne, parse_uint-to_decimal}
pub use Prim.Native.Nat.{ℕ, zero, suc, ◌+◌, ◌-◌, ◌*◌, ◌/◌, ◌%◌, ◌^◌, ◌≤◌, ◌<◌, min}
pub use mathlib.Core.Path.{◌≡◌, refl, sym, ap, ◌∙◌, subst}
pub use mathlib.Core.Logic.{◌≢◌, ◌↔◌, ◌⊎◌, inl, inr}
pub use mathlib.Core.Bool.{Bool, true, false, not, ◌&&◌, ◌||◌}
pub use mathlib.Core.Option.{Option, none, some}
pub use mathlib.Core.List.{List, [], ◌∷◌, ◌++◌, map, reverse}
pub use native.Mathlib.Omega.{arith}
