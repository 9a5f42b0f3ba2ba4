-- ===== src/Base.antt =====
-- The names that all modules share: those of the libraries, passed on, and those of four children.
mod Tests
mod Lists
mod Int
mod Texts
mod Splitting
mod Map
mod Numeral
mod Results
pub use Tests.*
unfoldable pub use Numeral.*
pub use Results.{Result, ok, err, is_ok, Result-cases}
unfoldable pub use Results.{errorf}
pub use Lists.*
unfoldable pub use Int.*
unfoldable pub use Texts.{
  to_lower, trim_space, has_prefix, has_suffix, trim_prefix, contains, split, text_eq, one_of,
}
pub use Texts.{
  Text, codes, is_space, text_eq_iff, text_eq_refl, text_eq-false, trim_space_ends, split-append,
  split-cons, split-ne,
}
pub use Splitting.{
  is_free, join_with, split_of_free, split-free, join_with-split, split-three_iff, split-join_with,
}
unfoldable pub use Map.{lookup, insert, erase}
pub use Map.{lookup-insert, lookup-erase, lookup-insert_self, lookup-insert_ne, lookup-erase_self}
pub use Prim.Native.Nat.{ℕ, zero, suc, ◌+◌, ◌-◌, ◌*◌, ◌/◌, ◌%◌, ◌^◌, ◌≤◌, ◌<◌}
pub use mathlib.Core.Path.{◌≡◌, refl, sym, ap, subst, ◌∙◌}
pub use mathlib.Core.Logic.{◌≢◌, ◌↔◌, ◌⊎◌, inl, inr}
pub use mathlib.Core.Bool.{Bool, true, false, not, ◌&&◌, ◌||◌}
pub use mathlib.Core.Option.{Option, none, some}
pub use mathlib.Core.List.{List, [], ◌∷◌, ◌++◌, map}
pub use native.Mathlib.Omega.{arith}
