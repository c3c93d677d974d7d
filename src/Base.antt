-- ===== src/Base.antt =====
-- The names that every module shares: the libraries', passed on, and the helpers of the children.
mod Tests
mod Lists
mod Sort
pub mod Int
pub use Tests.*
pub use Lists.*
unfoldable pub use Sort.{insert_by, sort_by}
pub use Sort.{mem-sort_by, sort_by-All}
pub use Prim.Native.Nat.{ℕ, zero, suc, ◌+◌, ◌-◌, ◌*◌, ◌/◌, ◌%◌, ◌^◌, ◌≤◌, ◌<◌, min, max}
pub use mathlib.Core.Path.{◌≡◌, refl, sym, ap, ◌∙◌, subst}
pub use mathlib.Core.Logic.{◌≢◌, ◌↔◌, ◌⊎◌, inl, inr}
pub use mathlib.Core.Bool.{Bool, true, false, ◌&&◌, ◌||◌, not}
pub use mathlib.Core.Option.{Option, none, some}
pub use mathlib.Core.List.{List, [], ◌∷◌, ◌++◌, map}
pub use native.Mathlib.Omega.{arith}
