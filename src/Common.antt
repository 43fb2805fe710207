-- ===== src/Common.antt =====
-- What the modules share: library names passed on, Boolean tests, lists over the native numbers,
-- JavaScript's `Map` and strings, integers and 32-bit words.
mod Tests
mod Lists
pub mod Indexing
pub mod Integer
pub mod Eq
pub mod JsMap
pub mod Words
pub mod Bits
pub mod BitFields
pub mod Text
pub mod Json
pub mod Decimal
pub use Tests.*
pub use Lists.*
pub use Prim.Native.Nat.{ℕ, zero, suc, ◌+◌, ◌-◌, ◌*◌, ◌/◌, ◌%◌, ◌^◌, ◌≤◌, ◌<◌, min, max}
pub use mathlib.Core.Path.{◌≡◌, refl, sym, ap, subst, fun_ext, ◌∙◌, ◌≡⟨◌⟩◌, ◌∎}
pub use mathlib.Core.Logic.{◌≢◌, ◌↔◌, ◌⊎◌, inl, inr}
pub use mathlib.Core.Bool.{Bool, true, false, not, ◌&&◌, ◌||◌}
pub use mathlib.Core.Option.{Option, none, some}
pub use mathlib.Core.List.{List, [], ◌∷◌, ◌++◌, map}
pub use native.Mathlib.Omega.{arith}
