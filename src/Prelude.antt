-- ===== src/Prelude.antt =====
-- The names that the modules of the development share: the library's, passed on, and those of the
-- children (Boolean tests, lists with native lengths, arrays as functions, machine words).
mod Tests
mod Lists
mod Slots
mod Words
mod Ending
pub use Tests.*
pub use Lists.*
unfoldable pub use Slots.*
pub use Words.*
pub use Ending.*
pub use Prim.Native.Nat.{ℕ, zero, suc, ◌+◌, ◌-◌, ◌*◌, ◌/◌, ◌%◌, ◌^◌, ◌≤◌, ◌<◌, min}
pub use mathlib.Core.Path.{◌≡◌, refl, sym, ap, ap₂, subst, fun_ext, ◌∙◌}
pub use mathlib.Core.Logic.{◌≢◌, ◌↔◌, ◌⊎◌, inl, inr}
pub use mathlib.Core.Bool.{Bool, true, false, not, ◌&&◌, ◌||◌}
pub use mathlib.Core.Option.{Option, none, some}
pub use mathlib.Core.List.{List, [], ◌∷◌, ◌++◌, append_assoc, append-nil}
pub use native.Mathlib.Omega.{arith}
