-- ===== src/Base/Family.antt =====
-- Families indexed by native numbers, such as `EnumMap` or per-object tables: a write at one index.
use Prim.Native.Nat.{ℕ, zero, suc, ◌+◌, ◌≤◌, ◌<◌}
use mathlib.Core.Path.{◌≡◌, refl}
use mathlib.Core.Logic.{◌≢◌}
use mathlib.Core.Bool.{Bool, true, ◌&&◌}
use mmtk_core.Base.Tests.{◌==◌, if◌then◌else◌}
use native.Mathlib.Decide.{ℕ_discrete}
use native.Mathlib.Omega.{arith}

module _ {ℓ} {A : Type ℓ} where
  abbrev pub update : (ℕ → A) → ℕ → A → ℕ → A
  update f i a j = if i == j then a else f j

  pub update_self : (f : ℕ → A) (i : ℕ) (a : A) → update f i a i ≡ a
  update_self f i a = ground arith

  pub update_ne : (f : ℕ → A) (i j : ℕ) (a : A) → i ≢ j → update f i a j ≡ f j
  update_ne f i j a h = ground arith

pub both_true : (a b : Bool) → (a && b) ≡ true → (a ≡ true) × (b ≡ true)
both_true a b h = ground arith

-- Whether a test holds at `k` indices from `i` on.
unfoldable pub all_range : ℕ → ℕ → (ℕ → Bool) → Bool
all_range zero i p = true
all_range (suc k) i p = p i && all_range k (suc i) p

pub all_range_sound :
    (k i : ℕ) (p : ℕ → Bool) → all_range k i p ≡ true → (j : ℕ) → i ≤ j → j < i + k → p j ≡ true
unfolding all_range
all_range_sound zero i p h j lo hi = absurd (omega arith)
all_range_sound (suc k) i p h j lo hi = elim (ℕ_discrete i j) [
  | yes e ↦ rw (← e) (both_true _ _ h).0
  | no n ↦ all_range_sound k (suc i) p (both_true _ _ h).1 j (omega arith) (omega arith)
]

pub all_range_complete :
    (k i : ℕ) (p : ℕ → Bool) → ((j : ℕ) → i ≤ j → j < i + k → p j ≡ true) → all_range k i p ≡ true
unfolding all_range
all_range_complete zero i p h = refl
all_range_complete (suc k) i p h = ground (
  arith,
  h i (omega arith) (omega arith),
  all_range_complete k (suc i) p (λ j lo hi. h j (omega arith) (omega arith)),
)
