-- ===== src/Base.antt =====
-- Names shared by all modules: the libraries' names passed on, Boolean tests, lists over the native
-- numbers, integers, and maps from keys to optional values.
mod Tests
mod Lists
mod Int
mod Tables
mod Decimal
pub use Tests.*
pub use Lists.*
pub use Int.*
pub use Tables.*
pub use Decimal.*
pub use Prim.Native.Nat.{ℕ, zero, suc, ◌+◌, ◌-◌, ◌*◌, ◌/◌, ◌%◌, ◌^◌, ◌≤◌, ◌<◌}
pub use mathlib.Core.Path.{◌≡◌, refl, sym, ap, ◌∙◌}
pub use mathlib.Core.Logic.{◌≢◌, ◌↔◌, ◌⊎◌, inl, inr}
pub use mathlib.Core.Bool.{Bool, true, false, not, ◌&&◌, ◌||◌}
pub use mathlib.Core.Option.{Option, none, some}
pub use mathlib.Core.List.{List, [], ◌∷◌, ◌++◌, map}
pub use native.Mathlib.Omega.{arith}
