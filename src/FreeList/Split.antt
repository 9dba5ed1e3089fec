-- ===== src/FreeList/Split.antt =====
-- `__split` on the sequence of free units, src/util/freelist.rs.
use mmtk_core.Base.{NotIn, ℕ, ◌+◌, ◌-◌, ◌≤◌, ◌<◌, ◌≡◌, inl, inr, sym, List, [], ◌∷◌, ◌++◌, arith}
use mathlib.Core.Path.{subst}
use mmtk_core.FreeList.{IntArrayFreeList, add32, sub32, get_size, set_size, __split}
use mmtk_core.FreeList.Sizes.{IsBlock}
use mmtk_core.FreeList.Ring.{IsLinked, All}
use mmtk_core.FreeList.Moves.{IsUnit, IsRing}
use mmtk_core.FreeList.Push.{add_to_free-IsRing}
use mmtk_core.FreeList.Sized.{
  IsSized, IsOutside, IsSized-set_size, IsSized-set_size_ne, IsSized-add_to_free, set_size-IsRing,
}

-- The predecessor of a unit is the head or a unit before it.
pub prev_All :
    (P : ℕ → Type 0) (nx pv : ℕ → ℕ) (a : ℕ) (xs : List ℕ) (u : ℕ) (ys : List ℕ) (b : ℕ)
    → IsLinked nx pv a (xs ++ u ∷ ys) b
    → P a
    → All P xs
    → P (pv u)
prev_All P nx pv a [] u ys b k pa ps = subst P (sym k.1) pa
prev_All P nx pv a (x ∷ xs) u ys b k pa ps = prev_All P nx pv x xs u ys b k.2 ps.0 ps.1

outside-NotIn : (u n v : ℕ) (us : List ℕ) → u < v → v < u + n → All (IsOutside u n) us → NotIn v us
outside-NotIn u n v [] lo hi os = tt
outside-NotIn u n v (x ∷ xs) lo hi (o, os) =
    (λ e. omega (arith, o, e), outside-NotIn u n v xs lo hi os)

narrow :
    (u n u' n' : ℕ) (us : List ℕ)
    → ((x : ℕ) → IsOutside u n x → IsOutside u' n' x)
    → All (IsOutside u n) us
    → All (IsOutside u' n') us
narrow u n u' n' [] k os = tt
narrow u n u' n' (x ∷ xs) k (o, os) = (k x o, narrow u n u' n' xs k os)

-- A block is split in two: the first keeps its place among the free units, the other is put first.
pub record IsSplit (f : IntArrayFreeList) (u size rest : ℕ) (us : List ℕ) : Type 0 where
  pub ring : IsRing f ((u + size) ∷ us)
  pub first : IsSized f u size
  pub second : IsSized f (u + size) rest

pub __split-IsSplit :
    (f : IntArrayFreeList) (u size : ℕ) (us : List ℕ)
    → IsRing f us
    → 1 ≤ size
    → size < get_size f u
    → IsBlock u (get_size f u)
    → All (IsOutside u (get_size f u)) us
    → IsSplit (__split f u size) u size (get_size f u - size) us
unfolding __split
__split-IsSplit f u size us r one lt k os =
    let n = get_size f u in
    let at : add32 u size ≡ u + size = omega (arith, k.inside) in
    let left : sub32 n size ≡ n - size = omega (arith, k.inside) in
    let k₁ : IsBlock u size = record { some_units = one; inside = omega (arith, k.inside) } in
    let k₂ : IsBlock (u + size) (n - size) = record {
      some_units = omega arith;
      inside = omega (arith, k.inside);
    } in
    let f₁ = set_size f u size in
    let f₂ = set_size f₁ (u + size) (n - size) in
    let r₁ =
      set_size-IsRing f u size us k₁ r (narrow u n u size us (λ x o. outer₁ u n size x lt o) os) in
    let r₂ =
      set_size-IsRing f₁ (u + size) (n - size) us k₂ r₁
        (narrow u n (u + size) (n - size) us (λ x o. outer₂ u n size x lt o) os) in
    let unit : IsUnit (u + size) = omega (arith, k.inside) in
    let s₁ = IsSized-set_size f u size r.headed k₁ in
    let s₂ =
      IsSized-set_size_ne f₁ (u + size) (n - size) u size r₁.headed k₂ (omega arith)
        (inl (omega arith)) s₁ in
    let t₂ = IsSized-set_size f₁ (u + size) (n - size) r₁.headed k₂ in
    rw (at, left)
      (record {
        ring =
            add_to_free-IsRing f₂ (u + size) us r₂ unit
              (outside-NotIn u n (u + size) us (omega arith) (omega arith) os);
        first =
            IsSized-add_to_free f₂ (u + size) u size r₂.headed unit (omega arith)
              (λ e. omega (arith, e)) s₂;
        second =
            IsSized-add_to_free f₂ (u + size) (u + size) (n - size) r₂.headed unit unit
              (λ e. omega (arith, e)) t₂;
      })
  where
    outer₁ : (u n size x : ℕ) → size < n → IsOutside u n x → IsOutside u size x
    outer₁ u n size x lt (inl le) = inl le
    outer₁ u n size x lt (inr ge) = inr (omega arith)

    outer₂ : (u n size x : ℕ) → size < n → IsOutside u n x → IsOutside (u + size) (n - size) x
    outer₂ u n size x lt (inl le) = inl (omega arith)
    outer₂ u n size x lt (inr ge) = inr (omega arith)
