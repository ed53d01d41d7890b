-- ===== src/Base.antt =====
-- The names that the other modules share: the libraries' names, passed on, the Boolean tests and the
-- conditional, lists over the native numbers, texts, and the result of a request.
mod Tests
mod Lists
mod Strings
mod Http
mod Patterns
pub use Tests.*
pub use Lists.*
unfoldable pub use Strings.*
pub use Http.*
unfoldable pub use Patterns.*
pub use Prim.Native.Nat.{ℕ, zero, suc, ◌+◌, ◌-◌, ◌*◌, ◌/◌, ◌%◌, ◌^◌, ◌≤◌, ◌<◌}
pub use mathlib.Core.Path.{◌≡◌, refl, sym, ap, ◌∙◌}
pub use mathlib.Core.Logic.{◌≢◌, ◌↔◌, ◌⊎◌, inl, inr}
pub use mathlib.Core.Bool.{Bool, true, false, not, ◌&&◌, ◌||◌}
pub use mathlib.Core.Option.{Option, none, some}
pub use mathlib.Core.List.{List, [], ◌∷◌, ◌++◌, map}
pub use native.Mathlib.Omega.{arith}
