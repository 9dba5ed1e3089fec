-- ===== src/Base/Count.antt =====
-- How many of the first `n` members of a family pass a test.
use Prim.Native.Nat.{ℕ, zero, suc, ◌+◌, ◌≤◌, ◌<◌}
use mathlib.Core.Path.{◌≡◌, refl}
use mathlib.Core.Bool.{Bool, true, false}
use mmtk_core.Base.Tests.{if◌then◌else◌}
use mmtk_core.Base.Family.{update}
use native.Mathlib.Decide.{ℕ_discrete, dec_lt}
use native.Mathlib.Omega.{arith}

module _ {A : Type 0} (p : A → Bool) where
  unfoldable pub count_below : ℕ → (ℕ → A) → ℕ
  count_below zero f = 0
  count_below (suc n) f = count_below n f + (if p (f n) then 1 else 0)

  pub count_below-le : (n : ℕ) (f : ℕ → A) → count_below n f ≤ n
  unfolding count_below
  count_below-le zero f = omega arith
  count_below-le (suc n) f = ground (arith, count_below-le n f)

  count_below-update_above :
      (n : ℕ) (f : ℕ → A) (i : ℕ) (a : A) → n ≤ i → count_below n (update f i a) ≡ count_below n f
  unfolding count_below
  count_below-update_above zero f i a h = refl
  count_below-update_above (suc n) f i a h = ground (arith, count_below-update_above n f i a)

  pub count_below-update :
      (n : ℕ) (f : ℕ → A) (i : ℕ) (a : A)
      → i < n
      → count_below n (update f i a) + (if p (f i) then 1 else 0)
        ≡ count_below n f + (if p a then 1 else 0)
  unfolding count_below
  count_below-update zero f i a h = absurd (omega arith)
  count_below-update (suc n) f i a h = elim (dec_lt i n) [
    | yes below ↦ ground (arith, count_below-update n f i a below)
    | no last ↦ ground (arith, count_below-update_above n f i a)
  ]

  pub count_below-lt : (n : ℕ) (f : ℕ → A) (i : ℕ) → i < n → p (f i) ≡ false → count_below n f < n
  unfolding count_below
  count_below-lt zero f i h e = absurd (omega arith)
  count_below-lt (suc n) f i h e = elim (ℕ_discrete i n) [
    | yes q ↦ rw (rw q at e) (omega (arith, count_below-le n f))
    | no q ↦ ground (arith, count_below-lt n f i, count_below-le n f)
  ]

  pub count_below-pos : (n : ℕ) (f : ℕ → A) (i : ℕ) → i < n → p (f i) ≡ true → 0 < count_below n f
  unfolding count_below
  count_below-pos zero f i h e = absurd (omega arith)
  count_below-pos (suc n) f i h e = elim (ℕ_discrete i n) [
    | yes q ↦ rw (rw q at e) (omega arith)
    | no q ↦ ground (arith, count_below-pos n f i)
  ]

  pub count_below-all : (n : ℕ) (f : ℕ → A) → count_below n f ≡ n → (j : ℕ) → j < n → p (f j) ≡ true
  unfolding count_below
  count_below-all zero f h j lt = absurd (omega arith)
  count_below-all (suc n) f h j lt = elim (ℕ_discrete j n) [
    | yes q ↦ rw q (ground (arith, count_below-le n f))
    | no q ↦ count_below-all n f (ground (arith, count_below-le n f)) j (omega arith)
  ]
