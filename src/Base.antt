-- ===== src/Base.antt =====
-- The names that the other modules share: the libraries' numbers, lists and options passed on, the
-- Boolean tests, C arrays, 32-bit words, and the status codes of core/kernel/core/status.h.
mod Tests
mod Arrays
mod Pigeonhole
mod Words
mod Codes
pub use Tests.*
pub use Arrays.*
pub use Pigeonhole.{pigeonhole}
pub use Words.*
unfoldable pub use Codes.*
pub use Prim.Native.Nat.{ℕ, zero, suc, ◌+◌, ◌-◌, ◌*◌, ◌/◌, ◌%◌, ◌^◌, ◌≤◌, ◌<◌, min}
pub use mathlib.Core.Path.{◌≡◌, refl, sym, ap, subst, ◌∙◌}
pub use mathlib.Core.Logic.{◌≢◌, ◌↔◌, ◌⊎◌, inl, inr}
pub use mathlib.Core.Bool.{Bool, true, false, not, ◌&&◌, ◌||◌}
pub use mathlib.Core.Option.{Option, none, some}
pub use mathlib.Core.List.{List, [], ◌∷◌, ◌++◌, map}
pub use native.Mathlib.Omega.{arith}
