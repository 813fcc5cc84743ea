-- ===== src/Prelude.antt =====
-- The names that the other modules share: the libraries', passed on, and those of the children.
mod Tests
mod Lists
mod Results
mod Strings
pub mod Int
pub mod Trim
pub mod Unicode
pub mod Case
pub mod Map
pub mod Sort
pub mod Reverse
pub use Tests.*
pub use Lists.*
pub use Results.*
pub use Strings.{Text, codes, is_empty, has_prefix, text_leb, text_laws, text_eq_iff, text_eq_refl}
pub use Strings.{text_eq_sym, text_leb_total, text_leb_antisym, text_leb_trans}
unfoldable pub use Strings.{text_eq}
pub use Prim.Native.Nat.{ℕ, zero, suc, ◌+◌, ◌-◌, ◌*◌, ◌/◌, ◌%◌, ◌^◌, ◌≤◌, ◌<◌}
pub use mathlib.Core.Path.{◌≡◌, refl, sym, ap, ◌∙◌}
pub use mathlib.Core.Logic.{◌≢◌, ◌↔◌, ◌⊎◌, inl, inr}
pub use mathlib.Core.Bool.{Bool, true, false, not, ◌&&◌, ◌||◌}
pub use mathlib.Core.Option.{Option, none, some}
pub use mathlib.Core.List.{List, [], ◌∷◌, ◌++◌, map}
pub use native.Mathlib.Omega.{arith}
