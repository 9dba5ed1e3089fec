-- ===== src/FreeList/Initialize/Blocks.antt =====
-- The free list that `initialize_heap` of src/util/freelist.rs makes.
use mmtk_core.Base.{NotIn, ℕ, ◌+◌, ◌≤◌, ◌<◌, inl, inr, refl, sym, ◌∙◌, List, [], ◌∷◌, arith}
use mathlib.Core.Path.{subst}
use mmtk_core.FreeList.{IntArrayFreeList, get_size, set_size}
use mmtk_core.FreeList.Entries.{IsHeaded}
use mmtk_core.FreeList.Sizes.{IsBlock, IsHeaded-set_size}
use mmtk_core.FreeList.Ring.{All}
use mmtk_core.FreeList.Moves.{IsUnit, IsRing}
use mmtk_core.FreeList.Push.{add_to_free-IsRing}
use mmtk_core.FreeList.Sized.{
  IsSized, IsOutside, IsSized-set_size, IsSized-set_size_ne, IsSized-add_to_free, set_size-IsRing,
}
use mmtk_core.FreeList.Alloc.{IsFreeBlock}
use mmtk_core.FreeList.Initialize.{add_block}

-- A free list whose free blocks start at `c` or above.
pub record IsHeap (f : IntArrayFreeList) (c : ℕ) (us : List ℕ) : Type 0 where
  pub ring : IsRing f us
  pub blocks : All (IsFreeBlock f us) us
  pub above : All (λ v. c ≤ v) us

above-NotIn : (c d : ℕ) (us : List ℕ) → c < d → All (λ v. d ≤ v) us → NotIn c us
above-NotIn c d [] lt a = tt
above-NotIn c d (v ∷ vs) lt (le, a) = (λ e. omega (arith, e), above-NotIn c d vs lt a)

above-IsOutside : (c n : ℕ) (us : List ℕ) → All (λ v. c + n ≤ v) us → All (IsOutside c n) us
above-IsOutside c n [] a = tt
above-IsOutside c n (v ∷ vs) (le, a) = (inr le, above-IsOutside c n vs a)

lower : (c d : ℕ) (us : List ℕ) → c ≤ d → All (λ v. d ≤ v) us → All (λ v. c ≤ v) us
lower c d [] le a = tt
lower c d (v ∷ vs) le (h, a) = (omega arith, lower c d vs le a)

module _ (f : IntArrayFreeList) (c n : ℕ) (k : IsBlock c n) where
  other_block :
      (us : List ℕ) (v : ℕ)
      → IsHeaded f
      → c + n ≤ v
      → IsUnit v
      → IsFreeBlock f us v
      → IsFreeBlock (add_block f c n) (c ∷ us) v
  unfolding add_block
  other_block us v h le unit b =
      let sized : IsSized f v (get_size f v) = record { size = refl; lone = b.lone } in
      let s₁ = IsSized-set_size_ne f c n v (get_size f v) h k unit (inr le) sized in
      let s₂ =
        IsSized-add_to_free (set_size f c n) c v (get_size f v) (IsHeaded-set_size f c n h k)
          (omega (arith, k.some_units, k.inside)) unit (λ e. absurd (omega (arith, e))) s₁ in
      record {
        block = subst (IsBlock v) (sym s₂.size) b.block;
        lone = λ e. s₂.lone (sym s₂.size ∙ e);
        outside =
            subst (λ (m : ℕ). All (IsOutside v m) (c ∷ us)) (sym s₂.size)
              (inl (omega arith), b.outside);
      }

  other_blocks :
      (us vs : List ℕ)
      → IsHeaded f
      → All (λ v. c + n ≤ v) vs
      → All IsUnit vs
      → All (IsFreeBlock f us) vs
      → All (IsFreeBlock (add_block f c n) (c ∷ us)) vs
  other_blocks us [] h le unit b = tt
  other_blocks us (v ∷ vs) h (le, les) (unit, units) (b, bs) =
      (other_block us v h le unit b, other_blocks us vs h les units bs)

  pub add_block-IsHeap : (us : List ℕ) → IsHeap f (c + n) us → IsHeap (add_block f c n) c (c ∷ us)
  unfolding add_block
  add_block-IsHeap us p =
      let r = p.ring in
      let unit : IsUnit c = omega (arith, k.some_units, k.inside) in
      let f₁ = set_size f c n in
      let h₁ = IsHeaded-set_size f c n r.headed k in
      let own =
        IsSized-add_to_free f₁ c c n h₁ unit unit (λ e. absurd (omega (arith, e)))
          (IsSized-set_size f c n r.headed k) in
      record {
        ring =
            add_to_free-IsRing f₁ c us
              (set_size-IsRing f c n us k r (above-IsOutside c n us p.above)) unit
              (above-NotIn c (c + n) us (omega (arith, k.some_units)) p.above);
        blocks = (
          record {
            block = subst (IsBlock c) (sym own.size) k;
            lone = λ e. own.lone (sym own.size ∙ e);
            outside =
                subst (λ (m : ℕ). All (IsOutside c m) (c ∷ us)) (sym own.size)
                  (inl (omega arith), above-IsOutside c n us p.above);
          },
          other_blocks us us r.headed p.above r.units p.blocks,
        );
        above = (omega arith, lower c (c + n) us (omega arith) p.above);
      }
