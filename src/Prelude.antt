-- ===== src/Prelude.antt =====
-- Names that every module shares: the libraries' passed on, Python's equality and tests, lists
-- measured by native numbers, text as code points, and exceptions as values.
mod Equality
mod Tests
mod Lists
mod Text
mod Sets
pub mod Result
pub mod Int
unfoldable pub use Equality.*
pub use Tests.*
pub use Lists.*
pub use Sets.*
unfoldable pub use Text.*
pub use Prim.Native.Nat.{ℕ, zero, suc, ◌+◌, ◌-◌, ◌*◌, ◌/◌, ◌%◌, ◌≤◌, ◌<◌, min}
pub use Prim.Native.String.{String, ◌++◌ as ◌<>◌}
pub use mathlib.Core.Path.{◌≡◌, refl, sym, ap, subst, ◌∙◌}
pub use mathlib.Core.Logic.{◌≢◌, ◌↔◌, ◌⊎◌, inl, inr}
pub use mathlib.Core.Bool.{Bool, true, false, not, ◌&&◌, ◌||◌}
pub use mathlib.Core.Option.{Option, none, some}
pub use mathlib.Core.List.{List, [], ◌∷◌, ◌++◌, map}
pub use native.Mathlib.Omega.{arith}
