-- ===== src/Base.antt =====
-- Names that every component uses: the libraries', passed on, Boolean tests on native numbers, and
-- lists measured and indexed by native numbers. It models no code of its own.
mod Tests
mod Lists
mod Family
mod Count
mod Bits
mod Disjoint
unfoldable pub use Count.*
unfoldable pub use Family.*
pub use Tests.*
pub use Bits.*
pub use Disjoint.*
pub use Lists.*
pub use Prim.Native.Nat.{
  ℕ, zero, suc, ◌+◌, ◌-◌, ◌*◌, ◌/◌, ◌%◌, ◌^◌, ◌≤◌, ◌<◌, min, max, compare, Ordering,
}
pub use mathlib.Core.Path.{◌≡◌, refl, sym, ap, ◌∙◌}
pub use mathlib.Core.Logic.{◌≢◌, ◌↔◌, ◌⊎◌, inl, inr}
pub use mathlib.Core.Bool.{Bool, true, false, not, ◌&&◌, ◌||◌}
pub use mathlib.Core.Option.{Option, none, some}
pub use mathlib.Core.List.{List, [], ◌∷◌, ◌++◌, map}
pub use native.Mathlib.Omega.{arith}
unfoldable pub use native.Mathlib.Decide.{dec_lt, ℕ_discrete}
