-- ===== src/Prelude.antt =====
-- The names that the other modules share: the libraries', passed on, and those of the children.
mod Tests
mod Lists
mod Results
mod Text
pub mod Int
pub mod Dict
pub use Tests.{ltb, leb, ◌==◌, if◌then◌else◌, if-rule, Bool-cases, Option-cases, is_yes}
unfoldable pub use Tests.{String_discrete}
pub use Lists.{
  first_min-In, All-In, select-All, length-select_pos, sum_by-cong, sum_by-le, sum_by-select,
  length-select, length, take, drop, length-append, All, In, here, there, In-select,
}
unfoldable pub use Lists.{select, any, sum_by, first_min}
pub use Results.*
unfoldable pub use Text.{char_count, has_control, is_identifier}
pub use Prim.Native.Nat.{ℕ, zero, suc, ◌+◌, ◌-◌, ◌*◌, ◌/◌, ◌≤◌, ◌<◌, min, max}
pub use Prim.Native.String.{String}
pub use mathlib.Core.Path.{◌≡◌, refl, sym, ap, ◌∙◌}
pub use mathlib.Core.Logic.{◌≢◌, ◌↔◌, ◌⊎◌, inl, inr, ite, if_pos, if_neg}
pub use mathlib.Core.Bool.{Bool, true, false, not, ◌&&◌, ◌||◌}
pub use mathlib.Core.Option.{Option, none, some}
pub use mathlib.Core.List.{List, [], ◌∷◌, ◌++◌, map}
pub use native.Mathlib.Omega.{arith}
unfoldable pub use native.Mathlib.Decide.{dec_lt, dec_le, ℕ_discrete}
