-- ===== src/Prelude.antt =====
-- Names that every module of the library shares: the libraries', passed on, and those of the
-- children. Tests are the Boolean tests of the source; Eq is Python's `==` on keys.
mod Tests
mod Lists
mod Eq
pub mod Int
pub use Tests.*
pub use Lists.*
pub use Eq.{
  Equality, nat_equality, string_equality, pair_equality, ◌==◌, beq_refl, beq-sym, beq→eq, ne→beq,
}
pub use Prim.Native.Nat.{ℕ, zero, suc, ◌+◌, ◌-◌, ◌*◌, ◌/◌, ◌%◌, ◌≤◌, ◌<◌, min, max}
pub use Prim.Native.String.{String}
pub use mathlib.Core.Path.{◌≡◌, refl, sym, ap, ◌∙◌}
pub use mathlib.Core.Logic.{◌≢◌, ◌↔◌, ◌⊎◌, inl, inr}
pub use mathlib.Core.Bool.{Bool, true, false, not, ◌&&◌, ◌||◌}
pub use mathlib.Core.Option.{Option, none, some}
pub use mathlib.Core.List.{List, [], ◌∷◌, ◌++◌, map}
pub use native.Mathlib.Omega.{arith}
pub use text.Mathlib.TextEquality.{eq_iff}
