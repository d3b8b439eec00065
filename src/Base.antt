-- ===== src/Base.antt =====
-- The names that all modules share: the libraries', passed on, and those of the children, which
-- model the Rust core library where the sources use it.
mod Tests
mod Lists
mod Outcome
mod Words
mod LittleEndian
mod Ascii
pub mod Order
pub use Tests.*
pub use Lists.*
pub use Outcome.*
pub use Ascii.*
unfoldable pub use Ascii.{find_from, bytes_eq}
pub use Words.*
pub use LittleEndian.*
pub use Prim.Native.Nat.{ℕ, zero, suc, ◌+◌, ◌-◌, ◌*◌, ◌/◌, ◌%◌, ◌^◌, ◌≤◌, ◌<◌, min}
pub use mathlib.Core.Path.{◌≡◌, refl, sym, ap, ◌∙◌, subst}
pub use mathlib.Core.Logic.{◌≢◌, ◌↔◌, ◌⊎◌, inl, inr}
pub use mathlib.Core.Bool.{Bool, true, false, not, ◌&&◌, ◌||◌}
pub use mathlib.Core.Option.{Option, none, some}
pub use mathlib.Core.List.{List, [], ◌∷◌, ◌++◌, map, append_assoc, append-nil}
pub use native.Mathlib.Omega.{arith}
