-- ===== src/Common.antt =====
-- The names that the other modules share: the libraries', passed on, and those of the children.
mod Tests
mod Lists
mod Text
mod Find
mod Sum
pub mod Int
pub use Tests.*
pub use Lists.*
pub use Text.*
pub use Sum.{
  put, put_self, put_other, sum_below_same, sum_below_change, sum_below_zero, term-le-sum_below,
  sum_below-put, term-le-max_below, max_below-le, put-holds, max_below-put-le, max_below-le-put,
  value-le-max_below-put,
}
unfoldable pub use Sum.{sum_below, max_below}
pub use Find.{
  NoneOf, find_if-none, find_if-append, find_last_if-none, find_last_if-append, take-append,
  drop-append, drop-past,
}
unfoldable pub use Find.{find_if, find_last_if}
pub use Prim.Native.Nat.{ℕ, zero, suc, ◌+◌, ◌-◌, ◌*◌, ◌/◌, ◌%◌, ◌^◌, ◌≤◌, ◌<◌, min, max}
pub use mathlib.Core.Path.{◌≡◌, refl, sym, ap, ◌∙◌}
pub use mathlib.Core.Logic.{◌≢◌, ◌↔◌, ◌⊎◌, inl, inr}
pub use mathlib.Core.Bool.{Bool, true, false, not, ◌&&◌, ◌||◌}
pub use mathlib.Core.Option.{Option, none, some}
pub use mathlib.Core.List.{List, [], ◌∷◌, ◌++◌, map, append-nil, append_assoc}
pub use native.Mathlib.Omega.{arith}
