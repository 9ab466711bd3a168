-- ===== src/Base.antt =====
-- The names that the other modules share: the libraries', passed on, and those of the children.
-- A Go `string` is a list of bytes, `Bytes`; a Go `int` is a `ℤ` of `Base.Int`.
mod Tests
mod Lists
mod Text
mod Errors
pub mod Int
pub mod Decimal
pub mod Maps
pub mod FilePath
pub use Tests.*
pub use Lists.*
unfoldable pub use Text.{Bytes, str, equal, is}
pub use Text.{equal_iff, equal_refl, equal_sym, equal-false}
unfoldable pub use Errors.{error_text}
pub use Errors.{
  Error, message, wrap, pane_not_found, socket_in_use, exit_error, Result, ok, err, ◌>>=◌,
}
pub use Prim.Native.Nat.{ℕ, zero, suc, ◌+◌, ◌-◌, ◌*◌, ◌/◌, ◌%◌, ◌^◌, ◌≤◌, ◌<◌}
pub use mathlib.Core.Path.{◌≡◌, refl, sym, ap, subst, ◌∙◌}
pub use mathlib.Core.Logic.{◌≢◌, ◌↔◌, ◌⊎◌, inl, inr}
pub use mathlib.Core.Bool.{Bool, true, false, not, ◌&&◌, ◌||◌}
pub use mathlib.Core.Option.{Option, none, some}
pub use mathlib.Core.List.{List, [], ◌∷◌, ◌++◌, map, append-nil, append_assoc}
pub use native.Mathlib.Omega.{arith}
