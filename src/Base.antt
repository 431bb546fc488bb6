-- ===== src/Base.antt =====
-- The names that the other modules share: the libraries', passed on, and those of the children.
mod Tests
mod Lists
mod Sets
mod Show
pub mod Dict
pub mod Results
pub mod Options
pub mod Texts
pub mod Perms
pub use Tests.*
pub use Lists.*
unfoldable pub use Sets.{contains, insert_set}
pub use Sets.{
  contains-append, contains-insert_set, contains-insert_set_self, Distinct, All-insert_set, Apart,
  Apart-insert_set, Apart-insert_set_of, IsUnion, Apart-nil, Apart-union, Distinct-append,
}
unfoldable pub use Show.{show, digit, show_fuel}
pub use Show.{ℤ, pos, negsuc, show_int, is_one_of}
pub use Prim.Native.Nat.{ℕ, zero, suc, ◌+◌, ◌-◌, ◌*◌, ◌/◌, ◌%◌, ◌^◌, ◌≤◌, ◌<◌}
pub use Prim.Native.Char.{Char, code}
pub use Prim.Native.String.{String}
pub use mathlib.Core.Path.{◌≡◌, refl, sym, ap, ◌∙◌, subst}
pub use mathlib.Core.Logic.{◌≢◌, ◌↔◌, ◌⊎◌, inl, inr}
pub use mathlib.Core.Bool.{Bool, true, false, ◌&&◌, ◌||◌, not}
pub use mathlib.Core.Option.{Option, none, some}
pub use mathlib.Core.List.{List, [], ◌∷◌, ◌++◌, map}
pub use native.Mathlib.Omega.{arith}
pub use text.Mathlib.TextEquality.{eq_iff}
pub use text.Mathlib.TextPositions.{eq_refl}
