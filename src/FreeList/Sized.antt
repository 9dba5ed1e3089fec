-- ===== src/FreeList/Sized.antt =====
-- The size of one block through the operations on free lists, src/util/freelist.rs.
use mmtk_core.Base.{
  ℕ, ◌+◌, ◌≤◌, ◌≡◌, ◌⊎◌, inr, sym, ◌∙◌, ap, Bool, true, false, List, [], ◌∷◌, arith,
}
use mathlib.Core.Path.{subst}
use mmtk_core.FreeList.{
  IntArrayFreeList, max_units, add32, high_bit, get_hi_entry, set_hi_entry, set_lo_entry, get_size,
  set_size, set_free, get_next, get_prev, set_next, set_prev, add_to_free, __remove_from_free,
}
use mmtk_core.FreeList.Entries.{InTable, IsHeaded, hi-set_lo, unit-InTable, head-InTable}
use mmtk_core.FreeList.Fields.{hi-set_free, size-set_free, IsHeaded-set_free}
use mmtk_core.FreeList.Sizes.{
  IsBlock, size-set_prev, size-set_next, high-set_next, size-set_size, single, size-set_size_ne,
  IsHeaded-set_size, head-set_size, next-set_size, prev-set_size,
}
use mmtk_core.FreeList.Ring.{IsLinked, All, IsLinked-same}
use mmtk_core.FreeList.Moves.{IsUnit, IsRing, IsHeaded-set_next, node-InTable, prev-IsNode}

-- The block at `v` has `m` units, and is marked as a single one if it is.
pub record IsSized (f : IntArrayFreeList) (v m : ℕ) : Type 0 where
  pub size : get_size f v ≡ m
  pub lone : m ≡ 1 → high_bit (get_hi_entry f v) ≡ false

-- A unit that is not inside a block.
abbrev pub IsOutside : ℕ → ℕ → ℕ → Type 0
IsOutside u n v = (v ≤ u) ⊎ (u + n ≤ v)

pub place-InTable :
    (f : IntArrayFreeList) (x : ℕ) → IsHeaded f → x ≤ max_units + 1 → InTable f.heads x
place-InTable f x h le = (h.few, omega arith, omega (arith, h.few))

pub IsSized-set_size :
    (f : IntArrayFreeList) (u n : ℕ) → IsHeaded f → IsBlock u n → IsSized (set_size f u n) u n
IsSized-set_size f u n h k = record { size = size-set_size f u n h k; lone = single f u n h k }

pub IsSized-set_size_ne :
    (f : IntArrayFreeList) (u n v m : ℕ)
    → IsHeaded f
    → IsBlock u n
    → v ≤ max_units
    → (v + 1 ≤ u) ⊎ (u + n ≤ v)
    → IsSized f v m
    → IsSized (set_size f u n) v m
IsSized-set_size_ne f u n v m h k le o s =
    let kept =
      size-set_size_ne f u n h k v (place-InTable f v h (omega arith))
        (place-InTable f (v + 1) h (omega arith)) o in
    record { size = kept.1 ∙ s.size; lone = λ e. kept.0 ∙ s.lone e }

pub IsSized-set_free :
    (f : IntArrayFreeList) (u : ℕ) (b : Bool) (v m : ℕ)
    → IsSized f v m
    → IsSized (set_free f u b) v m
IsSized-set_free f u b v m s = record {
  size = size-set_free f u b v ∙ s.size;
  lone = λ e. ap high_bit (hi-set_free f u b v) ∙ s.lone e;
}

IsSized-set_prev :
    (f : IntArrayFreeList) (x y v m : ℕ) → IsSized f v m → IsSized (set_prev f x y) v m
unfolding set_prev
IsSized-set_prev f x y v m s = record {
  size = size-set_prev f x y v ∙ s.size;
  lone = λ e. ap high_bit (hi-set_lo f x v _) ∙ s.lone e;
}

IsSized-set_next :
    (f : IntArrayFreeList) (x y v m : ℕ)
    → IsHeaded f
    → InTable f.heads x
    → v ≤ max_units
    → (x ≡ v + 1 → m ≡ 1)
    → IsSized f v m
    → IsSized (set_next f x y) v m
IsSized-set_next f x y v m h hx le c s =
    let plain : add32 v 1 ≡ v + 1 = omega arith in
    let hv = place-InTable f v h (omega arith) in
    record {
      size =
          size-set_next f x y v hx hv
            (subst (InTable f.heads) (sym plain) (place-InTable f (v + 1) h (omega arith)))
            (λ e. s.lone (c (e ∙ plain)))
          ∙ s.size;
      lone = λ e. high-set_next f x y v hx hv ∙ s.lone e;
    }

pub IsSized-add_to_free :
    (f : IntArrayFreeList) (u v m : ℕ)
    → IsHeaded f
    → IsUnit u
    → v ≤ max_units
    → (u ≡ v + 1 → m ≡ 1)
    → IsSized f v m
    → IsSized (add_to_free f u) v m
unfolding add_to_free set_next set_hi_entry set_prev set_lo_entry
IsSized-add_to_free f u v m h unit le c s =
    let f₁ = set_free f u true in
    let h₁ = (IsHeaded-set_free f u true h).0 in
    let next = get_next f₁ f₁.head in
    let f₂ = set_next f₁ u next in
    let f₃ = set_next f₂ f₁.head u in
    let h₂ = IsHeaded-set_next f₁ u next h₁ in
    let s₂ =
      IsSized-set_next f₁ u next v m h₁ (unit-InTable f₁ u h₁ unit) le c
        (IsSized-set_free f u true v m s) in
    let s₃ =
      IsSized-set_next f₂ f₁.head u v m h₂ (head-InTable f₁ h₁) le
        (λ e. absurd (omega (arith, h₁.few, h₁.sentinel, h₁.word))) s₂ in
    IsSized-set_prev _ next u v m (IsSized-set_prev f₃ u f₁.head v m s₃)

pub IsSized-__remove_from_free :
    (f : IntArrayFreeList) (u v m : ℕ)
    → IsHeaded f
    → v ≤ max_units
    → (get_prev f u ≡ v + 1 → m ≡ 1)
    → IsSized f v m
    → IsSized (__remove_from_free f u) v m
unfolding __remove_from_free
IsSized-__remove_from_free f u v m h le c s = IsSized-set_prev _ _ _ v m (
    IsSized-set_next f (get_prev f u) (get_next f u) v m h (node-InTable f _ h (prev-IsNode f u)) le
      c s)

IsOutside-nodes :
    (f : IntArrayFreeList) (u n : ℕ) (us : List ℕ)
    → IsHeaded f
    → All IsUnit us
    → All (IsOutside u n) us
    → All (λ x. InTable f.heads x × IsOutside u n x) us
IsOutside-nodes f u n [] h us os = tt
IsOutside-nodes f u n (v ∷ vs) h (le, us) (o, os) =
    ((unit-InTable f v h le, o), IsOutside-nodes f u n vs h us os)

-- The size of a block is set, and no free unit is inside it.
pub set_size-IsRing :
    (f : IntArrayFreeList) (u n : ℕ) (us : List ℕ)
    → IsBlock u n
    → IsRing f us
    → All (IsOutside u n) us
    → IsRing (set_size f u n) us
set_size-IsRing f u n us k r os =
    let h = r.headed in
    let head_out : InTable f.heads f.head × IsOutside u n f.head =
      (head-InTable f h, inr (omega (arith, h.few, h.sentinel, h.word, k.inside))) in
    record {
      headed = IsHeaded-set_size f u n h k;
      units = r.units;
      distinct = r.distinct;
      linked =
          subst (λ (a : ℕ). IsLinked (get_next (set_size f u n)) (get_prev (set_size f u n)) a us a)
            (sym (head-set_size f u n h k).0)
            (IsLinked-same (get_next f) (get_prev f) _ _ (λ x. InTable f.heads x × IsOutside u n x)
              f.head us f.head (λ x p. next-set_size f u n h k x p.0 p.1)
              (λ x p. prev-set_size f u n h k x) head_out (IsOutside-nodes f u n us h r.units os)
              head_out r.linked);
    }
