-- ===== src/Prelude.antt =====
-- The names that the other modules share: the libraries', passed on, and those of the children.
mod Tests
mod Lists
mod Strings
mod Maps
mod Sort
mod Decimal
mod Int
pub use Tests.*
unfoldable pub use Lists.{filter}
pub use Lists.*
unfoldable pub use Strings.{
  text_eq, text, cut_prefix, has_prefix, trim_prefix, cut_suffix, contains, contains_any, cut,
  text_lt,
}
pub use Strings.*
unfoldable pub use Maps.{lookup, insert, delete}
pub use Maps.*
unfoldable pub use Sort.{sort_by, insert_by}
pub use Sort.*
unfoldable pub use Decimal.{digits_from, parse_uint, itoa}
pub use Decimal.*
unfoldable pub use Int.{format_int, parse_int}
pub use Int.*
pub use Prim.Native.Nat.{ℕ, zero, suc, ◌+◌, ◌-◌, ◌*◌, ◌/◌, ◌%◌, ◌^◌, ◌≤◌, ◌<◌}
pub use Prim.Native.String.{String}
pub use mathlib.Core.Path.{◌≡◌, refl, sym, ap, ◌∙◌}
pub use mathlib.Core.Logic.{◌≢◌, ◌↔◌, ◌⊎◌, inl, inr}
pub use mathlib.Core.Bool.{Bool, true, false, not, ◌&&◌, ◌||◌}
pub use mathlib.Core.Option.{Option, none, some}
pub use mathlib.Core.List.{List, [], ◌∷◌, ◌++◌, map, reverse, append-nil, append_assoc, Perm}
pub use native.Mathlib.Omega.{arith}
