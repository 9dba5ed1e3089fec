-- ===== src/FreeList/Alloc.antt =====
-- `__alloc` and `alloc_first_fit` on the sequence of free units, src/util/freelist.rs.
use mmtk_core.Base.{
  ℕ, ◌+◌, ◌-◌, ◌≤◌, ◌<◌, ◌≡◌, ◌⊎◌, inl, inr, refl, ◌∙◌, ap, false, some, List, [], ◌∷◌, ◌++◌, arith,
  length, ℕ_discrete,
}
use mathlib.Core.Path.{subst}
use mmtk_core.FreeList.{
  IntArrayFreeList, failure, get_size, get_free, get_next, get_prev, set_free, high_bit,
  get_hi_entry, __remove_from_free, __split, __alloc, first_fit, finish_first_fit, alloc_first_fit,
}
use mmtk_core.FreeList.Fields.{free-set_free}
use mmtk_core.FreeList.Sizes.{IsBlock}
use mmtk_core.FreeList.Ring.{All, All-split}
use mmtk_core.FreeList.Moves.{IsUnit, IsRing, unit_ne_head, __remove_from_free-IsRing}
use mmtk_core.FreeList.Push.{set_free-IsRing}
use mmtk_core.FreeList.Sized.{IsSized, IsOutside, IsSized-set_free, IsSized-__remove_from_free}
use mmtk_core.FreeList.Fit.{IsFirst, first_fit-IsSearched}
use mmtk_core.FreeList.Split.{prev_All, __split-IsSplit}

-- The block of a free unit lies within the units, and no free unit is inside it.
pub record IsFreeBlock (f : IntArrayFreeList) (us : List ℕ) (v : ℕ) : Type 0 where
  pub block : IsBlock v (get_size f v)
  pub lone : get_size f v ≡ 1 → high_bit (get_hi_entry f v) ≡ false
  pub outside : All (IsOutside v (get_size f v)) us

-- The first `size` units of the block at `u` have been taken out, and what is left of it comes first.
pub record IsTaken (f : IntArrayFreeList) (size u : ℕ) (others : List ℕ) (f' : IntArrayFreeList)
    : Type 0 where
  pub sized : get_size f' u ≡ size
  pub taken : get_free f' u ≡ false
  pub left :
      ((get_size f u ≡ size) × IsRing f' others)
      ⊎ ((size < get_size f u)
          × IsRing f' ((u + size) ∷ others)
          × (get_size f' (u + size) ≡ get_size f u - size))

finish :
    (f : IntArrayFreeList) (u size : ℕ) (us : List ℕ)
    → IsRing (__remove_from_free f u) us
    → IsSized (__remove_from_free f u) u size
    → IsRing (set_free (__remove_from_free f u) u false) us
      × (get_size (set_free (__remove_from_free f u) u false) u ≡ size)
finish f u size us r s =
    let g = __remove_from_free f u in
    (set_free-IsRing g u false us r, (IsSized-set_free g u false u size s).size)

module _ (f : IntArrayFreeList) (size u : ℕ) (xs ys : List ℕ) (r : IsRing f (xs ++ u ∷ ys))
    (one : 1 ≤ size) (b : IsFreeBlock f (xs ++ u ∷ ys) u) where
  IsUnit-of : IsUnit u
  IsUnit-of = (All-split IsUnit xs (u ∷ ys) r.units).1.0

  prev_outside :
      (P : ℕ → Type 0) (f₁ : IntArrayFreeList) (zs : List ℕ)
      → IsRing f₁ (zs ++ u ∷ ys)
      → P f₁.head
      → All P zs
      → P (get_prev f₁ u)
  prev_outside P f₁ zs r₁ ph ps =
      prev_All P (get_next f₁) (get_prev f₁) f₁.head zs u ys f₁.head r₁.linked ph ps

  take_whole :
      get_size f u ≡ size → IsTaken f size u (xs ++ ys) (set_free (__remove_from_free f u) u false)
  take_whole e =
      let h = r.headed in
      let out =
        prev_outside (IsOutside u (get_size f u)) f xs r
          (inr (omega (arith, h.few, h.sentinel, h.word, b.block.inside)))
          (All-split _ xs (u ∷ ys) b.outside).0 in
      let sized : IsSized f u (get_size f u) = record { size = refl; lone = b.lone } in
      let done = finish f u (get_size f u) (xs ++ ys) (__remove_from_free-IsRing f u xs ys r) (
        IsSized-__remove_from_free f u u (get_size f u) h IsUnit-of
          (λ p. omega (arith, out, p, b.block.some_units)) sized) in
      record {
        sized = done.1 ∙ e;
        taken = free-set_free (__remove_from_free f u) u false;
        left = inl (e, done.0);
      }

  take_part :
      size < get_size f u
      → IsTaken f size u (xs ++ ys) (set_free (__remove_from_free (__split f u size) u) u false)
  take_part lt =
      let n = get_size f u in
      let g = __split f u size in
      let p = __split-IsSplit f u size (xs ++ u ∷ ys) r one lt b.block b.outside in
      let h = p.ring.headed in
      let unit = IsUnit-of in
      let near : ℕ → Type 0 = λ x. IsOutside u n x ⊎ (x ≡ u + size) in
      let out : near (get_prev g u) =
        prev_outside near g ((u + size) ∷ xs) p.ring
          (inl (inr (omega (arith, h.few, h.sentinel, h.word, b.block.inside))))
          (inr refl, near_all u n size xs (All-split (IsOutside u n) xs (u ∷ ys) b.outside).0) in
      let first =
        IsSized-__remove_from_free g u u size h unit (λ e. omega (arith, out, e, lt)) p.first in
      let second =
        IsSized-__remove_from_free g u (u + size) (n - size) h (omega (arith, b.block.inside))
          (λ e. omega (arith, out, e, lt)) p.second in
      let done =
        finish g u size ((u + size) ∷ (xs ++ ys))
          (__remove_from_free-IsRing g u ((u + size) ∷ xs) ys p.ring) first in
      record {
        sized = done.1;
        taken = free-set_free (__remove_from_free g u) u false;
        left = inr (
          lt,
          done.0,
          (IsSized-set_free (__remove_from_free g u) u false (u + size) (n - size) second).size,
        );
      }
    where
      near_all :
          (u n size : ℕ) (zs : List ℕ)
          → All (IsOutside u n) zs
          → All (λ x. IsOutside u n x ⊎ (x ≡ u + size)) zs
      near_all u n size [] os = tt
      near_all u n size (z ∷ zs) (o, os) = (inl o, near_all u n size zs os)

  __alloc-IsTaken :
      size ≤ get_size f u
      → (f' : IntArrayFreeList) × (__alloc f size u (get_size f u) ≡ (u, f'))
        × IsTaken f size u (xs ++ ys) f'
  unfolding __alloc
  __alloc-IsTaken le = elim (ℕ_discrete (get_size f u) size) [
    | yes e ↦ (_, ground arith, take_whole e)
    | no n ↦ (_, ground arith, take_part (omega arith))
  ]

-- What `alloc_first_fit` returns for a request.
pub record IsAllocated (f : IntArrayFreeList) (size : ℕ) (us : List ℕ) (u : ℕ)
    (f' : IntArrayFreeList) : Type 0 where
  pub first : IsFirst f size us u
  pub taken : IsTaken f size u (first.before ++ first.after) f'

found_step :
    (fuel : ℕ) (f : IntArrayFreeList) (size : ℕ) (found : ℕ × ℕ)
    → first_fit fuel f size f.head 0 ≡ some found
    → alloc_first_fit fuel f size ≡ some (finish_first_fit f size found)
unfolding alloc_first_fit
found_step fuel f size found e = rw (alloc_first_fit, e) refl

All-at : (P : ℕ → Type 0) (xs : List ℕ) (u : ℕ) (ys : List ℕ) → All P (xs ++ u ∷ ys) → P u
All-at P xs u ys h = (All-split P xs (u ∷ ys) h).1.0

-- For a free list whose free units are `us`, each the start of a block with no free unit inside it,
-- a request of at least one unit and fuel for more rounds than there are free units: if every free
-- block is too small, then `alloc_first_fit` returns the failure and leaves the list as it is;
-- otherwise it returns the first unit whose block is large enough, whose block then has the size
-- asked for and is not free, and the free units are the others in their order, with what is left
-- of the block, if anything is, put first.
pub alloc_first_fit_lem :
    (fuel size : ℕ) (f : IntArrayFreeList) (us : List ℕ)
    → length us < fuel
    → 1 ≤ size
    → IsRing f us
    → All (IsFreeBlock f us) us
    → (All (λ v. get_size f v < size) us × (alloc_first_fit fuel f size ≡ some (failure, f)))
      ⊎ ((u : ℕ) × (f' : IntArrayFreeList) × (alloc_first_fit fuel f size ≡ some (u, f'))
          × IsAllocated f size us u f')
unfolding finish_first_fit
alloc_first_fit_lem fuel size f us lt one r blocks =
    elim (first_fit-IsSearched fuel f size f.head 0 us lt r.headed r.units r.linked) [
      | inl none ↦ inl (none.0, found_step fuel f size _ none.1.1 ∙ ap some (ground arith))
      | inr found ↦
          let u = found.0 in
          let first = found.2 in
          let ring : IsRing f (first.before ++ u ∷ first.after) = subst (IsRing f) first.split r in
          let block : IsFreeBlock f (first.before ++ u ∷ first.after) u =
            All-at (IsFreeBlock f (first.before ++ u ∷ first.after)) first.before u first.after
              (subst (λ vs. All (IsFreeBlock f vs) vs) first.split blocks) in
          let taken =
            __alloc-IsTaken f size u first.before first.after ring one block first.large in
          let away =
            unit_ne_head f u r.headed
              (IsUnit-of f size u first.before first.after ring one block) in
          inr (
            u,
            taken.0,
            found_step fuel f size _ found.1 ∙ ap some (ground (arith, taken.1)),
            record { first = first; taken = taken.2 },
          )
    ]
