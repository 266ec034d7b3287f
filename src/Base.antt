-- ===== src/Base.antt =====
-- Names that every component shares: the libraries' names passed on, Boolean tests, lists over
-- the native numbers, signed integers and machine words.
mod Check
mod Lists
mod Int
mod Word
mod Bits
mod Text
mod Search
mod Digits
mod Assoc
pub use Check.*
pub use Lists.*
pub use Int.*
pub use Word.*
pub use Bits.*
unfoldable pub use Text.*
pub use Search.*
unfoldable pub use Digits.*
pub use Assoc.*
pub use Prim.Native.Nat.{ℕ, zero, suc, ◌+◌, ◌-◌, ◌*◌, ◌/◌, ◌%◌, ◌^◌, ◌≤◌, ◌<◌, min, max}
pub use Prim.Native.Nat.{bit_and}
pub use mathlib.Core.Path.{◌≡◌, refl, sym, ap, ap₂, ◌∙◌, subst}
pub use mathlib.Core.Logic.{◌≢◌, ◌↔◌, ◌⊎◌, inl, inr}
pub use mathlib.Core.Bool.{Bool, true, false, not, ◌&&◌, ◌||◌}
pub use mathlib.Core.Option.{Option, none, some}
pub use mathlib.Core.List.{List, [], ◌∷◌, ◌++◌, map, reverse, append-nil, append_assoc}
pub use native.Mathlib.Omega.{arith}
