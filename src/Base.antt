-- ===== src/Base.antt =====
-- The names that the other modules share.
mod Tests
mod Lists
mod Order
mod Sets
mod Sort
mod Update
mod Fallible
mod Codes
mod Decimal
pub use Prim.Native.Nat.{ℕ, zero, suc, ◌+◌, ◌-◌, ◌*◌, ◌/◌, ◌%◌, ◌^◌, ◌≤◌, ◌<◌, compare, Ordering}
pub use Prim.Native.Nat.Ordering.{lt, eq, gt}
pub use mathlib.Core.Path.{◌≡◌, refl, sym, ◌∙◌, ap, ap₂, subst}
pub use mathlib.Core.Logic.{◌⊎◌, inl, inr, ◌↔◌, ◌≢◌}
pub use mathlib.Core.Bool.{Bool, true, false, ◌&&◌, ◌||◌, not}
pub use mathlib.Core.Option.{Option, none, some}
pub use mathlib.Core.List.{List, [], ◌∷◌, ◌++◌, map, Memᴰ}
pub use native.Mathlib.Omega.{arith}
pub use Tests.*
pub use Lists.*
pub use Order.*
unfoldable pub use Sets.*
unfoldable pub use Sort.*
unfoldable pub use Update.*
pub use Fallible.*
pub use Codes.*
unfoldable pub use Decimal.*
