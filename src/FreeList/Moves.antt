-- ===== src/FreeList/Moves.antt =====
-- Units leave a free list and come to it, src/util/freelist.rs.
use mmtk_core.Base.{
  NotIn, Distinct, Distinct-append, Distinct-split, Apart-head, Apart-tail, ℕ, ◌≤◌, ◌≡◌, ◌≢◌, inl,
  inr, sym, ap, ◌∙◌, List, [], ◌∷◌, ◌++◌, arith, leb, Bool-cases, leb→le,
}
use mathlib.Core.Path.{subst}
use mmtk_core.FreeList.{
  IntArrayFreeList, max_units, low_bits, link, get_lo_entry, get_hi_entry, set_lo_entry,
  set_hi_entry, get_next, get_prev, set_next, set_prev, __remove_from_free,
}
use mmtk_core.FreeList.Entries.{
  InTable, IsNode, IsHeaded, unit-InTable, head-InTable, next-set_next, prev-set_prev,
  next-set_prev, prev-set_next, next-set_next_ne, prev-set_prev_ne,
}
use mmtk_core.FreeList.Ring.{IsLinked, All, All-split, All-append, IsLinked-without}

abbrev pub IsUnit : ℕ → Type 0
IsUnit x = x ≤ max_units

-- The free units of a list, from the head on.
pub record IsRing (f : IntArrayFreeList) (us : List ℕ) : Type 0 where
  pub headed : IsHeaded f
  pub units : All IsUnit us
  pub distinct : Distinct us
  pub linked : IsLinked (get_next f) (get_prev f) f.head us f.head

link-IsNode : (f : IntArrayFreeList) (w : ℕ) → IsNode f (link f w)
link-IsNode f w = elim (Bool-cases (leb w max_units)) [
  | inl e ↦ inl (ground (arith, leb→le w max_units e))
  | inr e ↦ inr (ground arith)
]

pub next-IsNode : (f : IntArrayFreeList) (u : ℕ) → IsNode f (get_next f u)
unfolding get_next
next-IsNode f u = link-IsNode f (low_bits (get_hi_entry f u))

pub prev-IsNode : (f : IntArrayFreeList) (u : ℕ) → IsNode f (get_prev f u)
unfolding get_prev
prev-IsNode f u = link-IsNode f (low_bits (get_lo_entry f u))

pub node-InTable : (f : IntArrayFreeList) (x : ℕ) → IsHeaded f → IsNode f x → InTable f.heads x
node-InTable f x h (inl le) = unit-InTable f x h le
node-InTable f x h (inr e) = subst (InTable f.heads) (sym e) (head-InTable f h)

pub units-InTable :
    (f : IntArrayFreeList) (us : List ℕ) → IsHeaded f → All IsUnit us → All (InTable f.heads) us
units-InTable f [] h us = tt
units-InTable f (u ∷ us) h (le, rest) = (unit-InTable f u h le, units-InTable f us h rest)

pub unit_ne_head : (f : IntArrayFreeList) (u : ℕ) → IsHeaded f → IsUnit u → u ≢ f.head
unit_ne_head f u h le e = omega (arith, h.few, h.sentinel, h.word)

pub head-NotIn : (f : IntArrayFreeList) (us : List ℕ) → IsHeaded f → All IsUnit us → NotIn f.head us
head-NotIn f [] h us = tt
head-NotIn f (u ∷ us) h (le, rest) = (λ e. unit_ne_head f u h le (sym e), head-NotIn f us h rest)

-- Links of a unit in a ring lead back to it.
back :
    (nx pv : ℕ → ℕ) (a : ℕ) (xs : List ℕ) (u : ℕ) (ys : List ℕ) (b : ℕ)
    → IsLinked nx pv a (xs ++ u ∷ ys) b
    → (nx (pv u) ≡ u) × (pv (nx u) ≡ u)
back nx pv a [] u [] b (e, p, t) = (ap nx p ∙ e, ap pv t.0 ∙ t.1)
back nx pv a [] u (y ∷ ys) b (e, p, t) = (ap nx p ∙ e, ap pv t.0 ∙ t.1)
back nx pv a (x ∷ xs) u ys b (e, p, t) = back nx pv x xs u ys b t

pub IsHeaded-set_next : (f : IntArrayFreeList) (u x : ℕ) → IsHeaded f → IsHeaded (set_next f u x)
unfolding set_next set_hi_entry
IsHeaded-set_next f u x h = record { few = h.few; sentinel = h.sentinel; word = h.word }

pub IsHeaded-set_prev : (f : IntArrayFreeList) (u x : ℕ) → IsHeaded f → IsHeaded (set_prev f u x)
unfolding set_prev set_lo_entry
IsHeaded-set_prev f u x h = record { few = h.few; sentinel = h.sentinel; word = h.word }

module _ (f : IntArrayFreeList) (u : ℕ) (h : IsHeaded f) where
  abbrev next : ℕ
  next = get_next f u

  abbrev prev : ℕ
  prev = get_prev f u

  tables : InTable f.heads next × InTable f.heads prev
  tables = (node-InTable f next h (next-IsNode f u), node-InTable f prev h (prev-IsNode f u))

  without_next :
      (x : ℕ) → InTable f.heads x → prev ≢ x → get_next (__remove_from_free f u) x ≡ get_next f x
  unfolding __remove_from_free
  without_next x n d =
      next-set_prev (set_next f prev next) next prev x ∙ next-set_next_ne f prev next x tables.1 n d

  without_prev :
      (x : ℕ) → InTable f.heads x → next ≢ x → get_prev (__remove_from_free f u) x ≡ get_prev f x
  unfolding __remove_from_free set_next set_hi_entry
  without_prev x n d =
      prev-set_prev_ne (set_next f prev next) next prev x tables.0 n d ∙ prev-set_next f prev next x

  joined_next : get_next (__remove_from_free f u) prev ≡ next
  unfolding __remove_from_free
  joined_next =
      next-set_prev (set_next f prev next) next prev prev
      ∙ next-set_next f prev next h (next-IsNode f u)

  joined_prev : get_prev (__remove_from_free f u) next ≡ prev
  unfolding __remove_from_free set_next set_hi_entry
  joined_prev =
      prev-set_prev (set_next f prev next) next prev (IsHeaded-set_next f prev next h)
        (prev-IsNode f u)

  without-IsHeaded : IsHeaded (__remove_from_free f u)
  unfolding __remove_from_free
  without-IsHeaded =
      IsHeaded-set_prev (set_next f prev next) next prev (IsHeaded-set_next f prev next h)

-- Removing a unit, wherever it stands in the list, leaves the other units in the same order.
pub __remove_from_free-IsRing :
    (f : IntArrayFreeList) (u : ℕ) (xs ys : List ℕ)
    → IsRing f (xs ++ u ∷ ys)
    → IsRing (__remove_from_free f u) (xs ++ ys)
unfolding __remove_from_free set_prev set_lo_entry set_next set_hi_entry
__remove_from_free-IsRing f u xs ys r =
    let h = r.headed in
    let units = All-split IsUnit xs (u ∷ ys) r.units in
    let parts = Distinct-split xs (u ∷ ys) r.distinct in
    let loop = back (get_next f) (get_prev f) f.head xs u ys f.head r.linked in
    record {
      headed = without-IsHeaded f u h;
      units = All-append IsUnit xs ys units.0 units.1.1;
      distinct = Distinct-append xs ys parts.0 parts.1.1 (Apart-tail xs u ys parts.2);
      linked =
          IsLinked-without (get_next f) (get_prev f) _ _ (InTable f.heads) u f.head xs ys f.head
            (λ x n d. without_next f u h x n (λ e. d (ap (get_next f) (sym e) ∙ loop.0)))
            (λ x n d. without_prev f u h x n (λ e. d (ap (get_prev f) (sym e) ∙ loop.1)))
            (joined_next f u h) (joined_prev f u h) (head-InTable f h)
            (units-InTable f xs h units.0) (units-InTable f ys h units.1.1) (head-InTable f h)
            (unit_ne_head f u h units.1.0) (Apart-head xs u ys parts.2) parts.1.0
            (unit_ne_head f u h units.1.0) r.linked;
    }
