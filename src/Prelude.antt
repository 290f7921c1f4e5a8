-- ===== src/Prelude.antt =====
-- The names that the other modules share: the libraries', and those of the children.
mod Tests
mod Lists
mod Texts
mod Decimal
pub use Tests.*
pub use Lists.*
unfoldable pub use Texts.*
unfoldable pub use Decimal.*
pub use Prim.Native.Nat.{ℕ, zero, suc, ◌+◌, ◌-◌, ◌*◌, ◌/◌, ◌%◌, ◌≤◌, ◌<◌}
pub use Prim.Native.String.{String}
pub use mathlib.Core.Path.{◌≡◌, refl, sym, ap, ◌∙◌, subst, fun_ext}
pub use mathlib.Core.Logic.{◌≢◌, ◌↔◌, ◌⊎◌, inl, inr}
pub use mathlib.Core.Bool.{Bool, true, false, not, ◌&&◌, ◌||◌}
pub use mathlib.Core.Option.{Option, none, some}
pub use mathlib.Core.List.{List, [], ◌∷◌, ◌++◌, map, Mem}
pub use native.Mathlib.Omega.{arith}
