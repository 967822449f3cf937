-- ===== src/Base.antt =====
-- The names that the other modules share: the libraries', passed on, and those of the children.
mod Tests
mod Lists
mod Texts
mod Utf8
mod Outcome
mod Maps
pub mod Index
pub use Tests.*
pub use Lists.*
unfoldable pub use Lists.{total}
unfoldable pub use Texts.{Text, text, text_eq, to_upper, to_ascii_uppercase, to_lower}
unfoldable pub use Texts.{to_ascii_lowercase, eq_ignore_ascii_case, contains, is_empty, hex_digest}
unfoldable pub use Utf8.{from_utf8_lossy}
pub use Utf8.{IsAscii, from_utf8_lossy_ascii}
pub use Texts.{text_eq_iff, text_eq_refl, Contains, contains_iff, to_upper_idem}
pub use Texts.{to_ascii_uppercase_idem, eq_ignore_ascii_case_upper}
pub use Outcome.*
unfoldable pub use Maps.{Map, lookup, insert, remove, has_key}
pub use Maps.{lookup-insert, lookup-remove, size-insert, size-insert_new, size-remove}
pub use Maps.{size-remove_le, lookup_of_nil}
pub use Prim.Native.Nat.{ℕ, zero, suc, ◌+◌, ◌-◌, ◌*◌, ◌/◌, ◌%◌, ◌^◌, ◌≤◌, ◌<◌, min, max}
pub use Prim.Native.String.{String}
pub use mathlib.Core.Path.{◌≡◌, refl, sym, ap, ◌∙◌, subst}
pub use mathlib.Core.Logic.{◌≢◌, ◌↔◌, ◌⊎◌, inl, inr}
pub use mathlib.Core.Bool.{Bool, true, false, not, ◌&&◌, ◌||◌}
pub use mathlib.Core.Option.{Option, none, some}
pub use mathlib.Core.List.{List, [], ◌∷◌, ◌++◌, map}
unfoldable pub use native.Mathlib.Decide.{dec_lt}
pub use native.Mathlib.Omega.{arith}
