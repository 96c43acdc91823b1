-- ===== src/Base.antt =====
-- The names that the other modules share: those of the libraries, and of the children.
mod Tests
mod Arrays
mod Words
mod Buffers
mod Ints
mod Loops
mod Lists
pub use Tests.*
pub use Arrays.*
pub use Words.*
pub use Ints.*
pub use Lists.*
unfoldable pub use Buffers.*
unfoldable pub use Loops.*
pub use Prim.Native.Nat.{ℕ, zero, suc, ◌+◌, ◌-◌, ◌*◌, ◌/◌, ◌%◌, ◌^◌, ◌≤◌, ◌<◌, min, bit_or}
pub use mathlib.Core.Path.{◌≡◌, refl, sym, ap, ◌∙◌}
pub use mathlib.Core.Logic.{◌≢◌, ◌↔◌, ◌⊎◌, inl, inr}
pub use mathlib.Core.Bool.{Bool, true, false, not, ◌&&◌, ◌||◌, or-true, or-false, and_assoc}
pub use mathlib.Core.Option.{Option, none, some}
pub use mathlib.Core.List.{List, [], ◌∷◌, ◌++◌, map, append_assoc, append-nil}
pub use native.Mathlib.Omega.{arith}
