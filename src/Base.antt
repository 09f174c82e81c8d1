-- ===== src/Base.antt =====
-- What the other modules share: the libraries' names passed on, and those of the children.
mod Tests
mod Lists
mod Texts
mod Maps
mod Results
mod Decimal
mod Base64
mod Members
mod Sorting
mod Canonical
pub use Tests.*
pub use Lists.*
pub use Maps.{Map, lookup-insert, lookup-delete, map_laws}
unfoldable pub use Maps.{lookup, insert, delete, has_key}
pub use Texts.*
unfoldable pub use Texts.{◌==◌, bytes, has_prefix, has_suffix, contains_text}
pub use Results.*
pub use Decimal.*
pub use Members.*
unfoldable pub use Members.{member}
pub use Canonical.{IsStrict, sorted_set-In, In-sorted_set, sorted_set-IsStrict, sorted_set_unique}
unfoldable pub use Canonical.{sorted_set}
pub use Sorting.{sort_texts-In, In-sort_texts}
unfoldable pub use Sorting.{text_lt, sort_texts}
pub use Base64.{length-base64_url}
unfoldable pub use Base64.{base64_url}
unfoldable pub use Decimal.{decimal}
pub use Prim.Native.Nat.{ℕ, zero, suc, ◌+◌, ◌-◌, ◌*◌, ◌/◌, ◌%◌, ◌^◌, ◌≤◌, ◌<◌}
pub use mathlib.Core.Path.{◌≡◌, refl, sym, ap, ◌∙◌}
pub use mathlib.Core.Logic.{◌≢◌, ◌↔◌, ◌⊎◌, inl, inr}
pub use mathlib.Core.Bool.{Bool, true, false, not, ◌&&◌, ◌||◌}
pub use mathlib.Core.Option.{Option, none, some}
pub use mathlib.Core.List.{List, [], ◌∷◌, ◌++◌}
pub use native.Mathlib.Omega.{arith}
