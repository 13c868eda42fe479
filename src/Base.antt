-- ===== src/Base.antt =====
-- The names that the other modules share: the libraries', passed on, and those of the children.
mod Tests
mod Lists
mod Bytes
pub mod Int
pub mod Decimal
pub mod Hex
pub mod Finite
pub mod Stoi
pub mod Files
pub use Tests.*
pub use Lists.*
unfoldable pub use Bytes.{text, text_eq, starts_with, find, c_string}
pub use Bytes.{
  Text, is_empty, text_eq_iff, text_eq_refl, text_eq_ne, apart, text_eq_sym, last, last-append,
}
unfoldable pub use Finite.{holds_below}
pub use Finite.{instance_of}
pub use Prim.Native.Nat.{ℕ, zero, suc, ◌+◌, ◌-◌, ◌*◌, ◌/◌, ◌%◌, ◌^◌, ◌≤◌, ◌<◌, min}
pub use Prim.Native.String.{String}
pub use mathlib.Core.Path.{◌≡◌, refl, sym, ap, ◌∙◌, subst}
pub use mathlib.Core.Logic.{◌≢◌, ◌↔◌, ◌⊎◌, inl, inr}
pub use mathlib.Core.Bool.{Bool, true, false, not, ◌&&◌, ◌||◌}
pub use mathlib.Core.Option.{Option, none, some}
pub use mathlib.Core.List.{
  List, [], ◌∷◌, ◌++◌, map, append-nil, append_assoc, append_cancel_left, append_cancel_right,
}
pub use native.Mathlib.Omega.{arith}
