-- ===== src/Base.antt =====
-- The names that the components share: the libraries', passed on, and those of four children.
mod Tests
mod Lists
mod Text
mod Paging
pub use Tests.*
pub use Lists.*
pub use Text.{Bytes, codes, bytes_eq_iff, bytes_eq_refl}
pub use Text.{ℤ, pos, negsuc}
unfoldable pub use Text.{bytes_eq, int_to_string, to_string, to_string_loop, starts_with, contains}
unfoldable pub use Paging.{advance, slots}
pub use Paging.{advance-drop, advance_past, get_or-slots, length-slots}
pub use Prim.Native.Nat.{ℕ, zero, suc, ◌+◌, ◌-◌, ◌*◌, ◌/◌, ◌%◌, ◌^◌, ◌≤◌, ◌<◌, min}
pub use mathlib.Core.Path.{◌≡◌, refl, sym, ap, subst, ◌∙◌}
pub use mathlib.Core.Logic.{◌≢◌, ◌↔◌, ◌⊎◌, inl, inr}
pub use mathlib.Core.Bool.{Bool, true, false, not, ◌&&◌, ◌||◌}
pub use mathlib.Core.Option.{Option, none, some}
pub use mathlib.Core.List.{List, [], ◌∷◌, ◌++◌, map, append_assoc, append-nil}
pub use native.Mathlib.Omega.{arith}
