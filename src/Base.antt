-- ===== src/Base.antt =====
-- The names that every other file takes: the libraries', passed on, and those of the children
-- (tests on numbers, lists, byte texts, Go maps, results with an error).
mod Tests
mod Lists
mod Texts
mod Maps
mod Numbers
pub mod Finds
pub mod Tables
pub mod Fresh
pub use Tests.*
pub use Lists.*
pub use Texts.*
unfoldable pub use Texts.{eqt, cut, has_prefix, has_suffix, contains, index_of, text_mem, split_on}
pub use Numbers.*
unfoldable pub use Numbers.{digits_from, parse_nat, atoi, itoa_from, itoa}
pub use Maps.*
unfoldable pub use Maps.{put, remove, keep_if, no_keys}
pub use Prim.Native.Nat.{ℕ, zero, suc, ◌+◌, ◌-◌, ◌*◌, ◌/◌, ◌%◌, ◌^◌, ◌≤◌, ◌<◌}
pub use mathlib.Core.Path.{◌≡◌, refl, sym, ap, ◌∙◌, subst}
pub use mathlib.Core.Logic.{◌≢◌, ◌↔◌, ◌⊎◌, inl, inr}
pub use mathlib.Core.Bool.{Bool, true, false, not, ◌&&◌, ◌||◌}
pub use mathlib.Core.Option.{Option, none, some}
pub use mathlib.Core.List.{List, [], ◌∷◌, ◌++◌, map, append_assoc, append-nil}
pub use native.Mathlib.Omega.{arith}
