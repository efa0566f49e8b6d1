-- ===== src/Base.antt =====
-- The names that the other modules share: the libraries', passed on, Boolean tests, lists measured
-- by native numbers, comparisons and stable sorting, texts, errors as values, and signed
-- numbers.
mod Tests
mod Lists
mod Order
mod Text
mod Errors
mod Maps
mod Int
pub use Tests.*
pub use Lists.*
pub use Order.*
pub use Text.*
pub use Errors.*
pub use Int.{
  ℤ, pos, negsuc, is_below, is_above, reaches, IsBelow, IsAbove, IsReached, is_below→IsBelow,
  is_above→IsAbove, reaches_iff, below_exact_sum, Fits, below_sum-exact,
}
unfoldable pub use Int.{below_sum}
unfoldable pub use Maps.{lookup, insert, erase}
pub use Maps.{Map, has_key, lookup-insert, lookup-erase, lookup-insert_self, lookup-erase_self}
pub use Prim.Native.Nat.{ℕ, zero, suc, ◌+◌, ◌-◌, ◌*◌, ◌/◌, ◌%◌, ◌≤◌, ◌<◌, compare, Ordering, max}
pub use Prim.Native.String.{String}
pub use mathlib.Core.Path.{◌≡◌, refl, sym, ap, ◌∙◌, subst}
pub use mathlib.Core.Logic.{◌≢◌, ◌↔◌, ◌⊎◌, inl, inr}
pub use mathlib.Core.Bool.{Bool, true, false, not, ◌&&◌, ◌||◌}
pub use mathlib.Core.Option.{Option, none, some}
pub use mathlib.Core.List.{List, [], ◌∷◌, ◌++◌, map}
pub use native.Mathlib.Omega.{arith}
pub use text.Mathlib.Text.{◌==◌ as str_eq}
pub use text.Mathlib.TextEquality.{eq_iff}
