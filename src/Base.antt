-- ===== src/Base.antt =====
-- The names that all modules share: those of the libraries, passed on, and those of the children
-- for tests, arrays and machine words.
mod Tests
mod Arrays
mod Words
mod Masks
mod Bytes
pub use Tests.*
unfoldable pub use Arrays.*
pub use Words.*
pub use Masks.*
pub use Bytes.*
pub use Prim.Native.Nat.{ℕ, zero, suc, ◌+◌, ◌-◌, ◌*◌, ◌/◌, ◌%◌, ◌^◌, ◌≤◌, ◌<◌}
pub use mathlib.Core.Path.{◌≡◌, refl, sym, ap, ap₂, ◌∙◌}
pub use mathlib.Core.Logic.{◌≢◌, ◌↔◌, ◌⊎◌, inl, inr}
pub use mathlib.Core.Bool.{Bool, true, false, not, ◌&&◌, ◌||◌}
pub use mathlib.Core.Option.{Option, none, some}
pub use mathlib.Core.List.{List, [], ◌∷◌, ◌++◌, Mem, Perm, map}
pub use native.Mathlib.Omega.{arith}
