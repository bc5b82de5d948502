-- ===== src/Prelude.antt =====
-- The names that the other modules share: the libraries', passed on, and those of three children.
mod Tests
mod Lists
mod Strings
mod Decimal
pub mod Double
pub mod Methods
pub mod Json
pub mod Utf8
pub mod Dict
pub use Tests.*
pub use Lists.*
unfoldable pub use Decimal.{str_nat, str_int, value}
pub use Decimal.{
  ℤ, pos, negsuc, int_eq, push_digit, value-str_nat, str_nat_cons, IsDigit, str_nat-injective,
  str_nat-IsDigit, str_int-injective,
}
unfoldable pub use Strings.{codes, ◌==◌, starts_with, ◌is_in◌, is_one_of, non_empty}
pub use Strings.{
  Text, ==_iff, ==_refl, ne_of_test, is_in-append, starts_with-append, starts_with-split,
}
pub use Prim.Native.Nat.{ℕ, zero, suc, ◌+◌, ◌-◌, ◌*◌, ◌/◌, ◌%◌, ◌≤◌, ◌<◌, min, max}
pub use mathlib.Core.Path.{◌≡◌, refl, sym, ap, ◌∙◌}
pub use mathlib.Core.Logic.{◌≢◌, ◌↔◌, ◌⊎◌, inl, inr}
pub use mathlib.Core.Bool.{Bool, true, false, not, ◌&&◌, ◌||◌}
pub use mathlib.Core.Option.{Option, none, some}
pub use mathlib.Core.List.{List, [], ◌∷◌, ◌++◌, map}
pub use native.Mathlib.Omega.{arith}
