-- ===== src/Prelude.antt =====
-- The names that the other modules share: the libraries', passed on, and those of the children.
pub mod Tests
pub mod Lists
pub mod Equality
pub mod GoMap
pub mod Texts
pub mod Ints
pub mod Results
pub use Tests.{if_true, if_false, ltb, leb, if◌then◌else◌, Bool-cases, Option-cases, ltb→lt, lt→ltb}
pub use Lists.{length, length-append, All}
pub use Equality.{Eq, nat_beq_iff, list_beq_iff, ◌==◌, nat_eq, list_eq, pair_eq, beq_refl}
pub use GoMap.{Dict}
pub use Results.{Result, ok, err}
pub use Ints.{ℤ, pos, negsuc, int_leb, positive_or}
pub use Texts.{Text, codes, is_empty}
pub use Prim.Native.Nat.{ℕ, zero, suc, ◌+◌, ◌-◌, ◌*◌, ◌≤◌, ◌<◌}
pub use mathlib.Core.Path.{◌≡◌, refl, sym, ap, ◌∙◌}
pub use mathlib.Core.Logic.{◌≢◌, ◌↔◌, ◌⊎◌, inl, inr}
pub use mathlib.Core.Bool.{Bool, true, false, not, ◌&&◌, ◌||◌}
pub use mathlib.Core.Option.{Option, none, some}
pub use mathlib.Core.List.{List, [], ◌∷◌, ◌++◌, map}
pub use native.Mathlib.Omega.{arith}
