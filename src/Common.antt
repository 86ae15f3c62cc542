-- ===== src/Common.antt =====
-- Names that every module shares: the libraries', passed on, tests on numbers, lists measured by
-- native numbers, and signed integers.
mod Tests
mod Lists
mod Texts
pub mod Int
pub mod Float64
pub mod Strings
pub mod Maps
pub use Tests.*
pub use Lists.*
unfoldable pub use Texts.{same, has_prefix}
pub use Texts.{Bytes, Text, codes, same_iff}
pub use Prim.Native.Nat.{ℕ, zero, suc, ◌+◌, ◌-◌, ◌*◌, ◌/◌, ◌%◌, ◌^◌, ◌≤◌, ◌<◌, max}
pub use mathlib.Core.Path.{◌≡◌, refl, sym, ap, subst, ◌∙◌}
pub use mathlib.Core.Logic.{◌≢◌, ◌↔◌, ◌⊎◌, inl, inr}
pub use mathlib.Core.Bool.{Bool, true, false, not, ◌&&◌, ◌||◌}
pub use mathlib.Core.Option.{Option, none, some}
pub use mathlib.Core.List.{List, [], ◌∷◌, ◌++◌, map, append-nil, append_assoc}
pub use native.Mathlib.Omega.{arith}
