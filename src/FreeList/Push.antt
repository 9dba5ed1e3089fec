-- ===== src/FreeList/Push.antt =====
-- `add_to_free` of src/util/freelist.rs on the sequence of free units.
use mmtk_core.Base.{NotIn, ℕ, ◌≡◌, ◌≢◌, inl, inr, refl, sym, ◌∙◌, Bool, true, List, [], ◌∷◌}
use mathlib.Core.Path.{subst}
use mmtk_core.FreeList.{
  IntArrayFreeList, get_next, get_prev, set_next, set_prev, set_free, add_to_free, set_hi_entry,
  set_lo_entry,
}
use mmtk_core.FreeList.Entries.{
  InTable, IsHeaded, unit-InTable, head-InTable, next-set_next, prev-set_prev, next-set_prev,
  prev-set_next, next-set_next_ne, prev-set_prev_ne,
}
use mmtk_core.FreeList.Fields.{IsHeaded-set_free, next-set_free, prev-set_free}
use mmtk_core.FreeList.Ring.{IsLinked, All, IsLinked-push, IsLinked-same, IsLinked-start}
use mmtk_core.FreeList.Moves.{
  IsUnit, IsRing, IsHeaded-set_next, IsHeaded-set_prev, next-IsNode, node-InTable, unit_ne_head,
  head-NotIn,
}

-- The four links that `add_to_free` writes, after the block is marked free.
module _ (f : IntArrayFreeList) (u : ℕ) (h : IsHeaded f) (unit : IsUnit u) where
  abbrev second : ℕ
  second = get_next f f.head

  abbrev f₂ : IntArrayFreeList
  f₂ = set_next f u second

  abbrev f₃ : IntArrayFreeList
  f₃ = set_next f₂ f.head u

  abbrev f₄ : IntArrayFreeList
  f₄ = set_prev f₃ u f.head

  abbrev pub pushed : IntArrayFreeList
  pushed = set_prev f₄ second u

  head_in : InTable f.heads f.head
  head_in = head-InTable f h

  unit_in : InTable f.heads u
  unit_in = unit-InTable f u h unit

  second_in : InTable f.heads second
  second_in = node-InTable f second h (next-IsNode f f.head)

  next_pushed : (x : ℕ) → get_next pushed x ≡ get_next f₃ x
  next_pushed x = next-set_prev f₄ second u x ∙ next-set_prev f₃ u f.head x

  next_head : get_next pushed f.head ≡ u
  unfolding set_next set_hi_entry
  next_head =
      next_pushed f.head ∙ next-set_next f₂ f.head u (IsHeaded-set_next f u second h) (inl unit)

  next_unit : get_next pushed u ≡ second
  unfolding set_next set_hi_entry
  next_unit =
      next_pushed u
      ∙ next-set_next_ne f₂ f.head u u head_in unit_in (λ e. unit_ne_head f u h unit (sym e))
      ∙ next-set_next f u second h (next-IsNode f f.head)

  next_other : (x : ℕ) → InTable f.heads x → x ≢ u → x ≢ f.head → get_next pushed x ≡ get_next f x
  unfolding set_next set_hi_entry
  next_other x n d e =
      next_pushed x
      ∙ next-set_next_ne f₂ f.head u x head_in n (λ q. e (sym q))
      ∙ next-set_next_ne f u second x unit_in n (λ q. d (sym q))

  prev_linked : (x : ℕ) → get_prev f₃ x ≡ get_prev f x
  prev_linked x = prev-set_next f₂ f.head u x ∙ prev-set_next f u second x

  headed₃ : IsHeaded f₃
  headed₃ = IsHeaded-set_next f₂ f.head u (IsHeaded-set_next f u second h)

  prev_second : get_prev pushed second ≡ u
  prev_second = prev-set_prev f₄ second u (IsHeaded-set_prev f₃ u f.head headed₃) (inl unit)

  prev_unit : second ≢ u → get_prev pushed u ≡ f.head
  unfolding set_next set_hi_entry set_prev set_lo_entry
  prev_unit d =
      prev-set_prev_ne f₄ second u u second_in unit_in d
      ∙ prev-set_prev f₃ u f.head headed₃ (inr refl)

  prev_other : (x : ℕ) → InTable f.heads x → x ≢ u → x ≢ second → get_prev pushed x ≡ get_prev f x
  unfolding set_next set_hi_entry set_prev set_lo_entry
  prev_other x n d e =
      prev-set_prev_ne f₄ second u x second_in n (λ q. e (sym q))
      ∙ prev-set_prev_ne f₃ u f.head x unit_in n (λ q. d (sym q))
      ∙ prev_linked x

  IsHeaded-pushed : IsHeaded pushed
  IsHeaded-pushed = IsHeaded-set_prev f₄ second u (IsHeaded-set_prev f₃ u f.head headed₃)

avoiding :
    (f : IntArrayFreeList) (u : ℕ) (us : List ℕ)
    → IsHeaded f
    → All IsUnit us
    → NotIn u us
    → All (λ x. InTable f.heads x × (x ≢ u)) us
avoiding f u [] h us ds = tt
avoiding f u (v ∷ vs) h (le, rest) (d, ds) =
    ((unit-InTable f v h le, λ e. d (sym e)), avoiding f u vs h rest ds)

pushed-IsRing :
    (f : IntArrayFreeList) (u : ℕ) (us : List ℕ) (unit : IsUnit u) (r : IsRing f us)
    → NotIn u us
    → IsRing (pushed f u r.headed unit) (u ∷ us)
unfolding set_next set_hi_entry set_prev set_lo_entry
pushed-IsRing f u us unit r ds =
    let h = r.headed in
    let away = unit_ne_head f u h unit in
    record {
      headed = IsHeaded-pushed f u h unit;
      units = (unit, r.units);
      distinct = (ds, r.distinct);
      linked =
          IsLinked-push (get_next f) (get_prev f) _ _ (λ x. InTable f.heads x × (x ≢ u)) f.head u us
            (λ x n e. next_other f u h unit x n.0 n.1 e)
            (λ x n e. prev_other f u h unit x n.0 n.1 e) (next_head f u h unit)
            (prev_unit f u h unit (IsLinked-start _ _ f.head u us r.linked away ds))
            (next_unit f u h unit) (prev_second f u h unit) (head-InTable f h, λ e. away (sym e))
            (avoiding f u us h r.units ds) (head-NotIn f us h r.units) r.distinct r.linked;
    }

-- Marking a block changes no link.
pub set_free-IsRing :
    (f : IntArrayFreeList) (u : ℕ) (b : Bool) (us : List ℕ)
    → IsRing f us
    → IsRing (set_free f u b) us
set_free-IsRing f u b us r =
    let kept = IsHeaded-set_free f u b r.headed in
    record {
      headed = kept.0;
      units = r.units;
      distinct = r.distinct;
      linked =
          subst (λ (a : ℕ). IsLinked (get_next (set_free f u b)) (get_prev (set_free f u b)) a us a)
            (sym kept.1)
            (IsLinked-same (get_next f) (get_prev f) _ _ IsUnit' f.head us f.head
              (λ x n. next-set_free f u b r.headed x) (λ x n. prev-set_free f u b r.headed x) tt
              (all_any us) tt r.linked);
    }
  where
    IsUnit' : ℕ → Type 0
    IsUnit' x = Unit {0}

    all_any : (us : List ℕ) → All IsUnit' us
    all_any [] = tt
    all_any (u ∷ us) = (tt, all_any us)

-- A unit that is not in the list comes to its front.
pub add_to_free-IsRing :
    (f : IntArrayFreeList) (u : ℕ) (us : List ℕ)
    → IsRing f us
    → IsUnit u
    → NotIn u us
    → IsRing (add_to_free f u) (u ∷ us)
unfolding add_to_free set_next set_hi_entry set_prev set_lo_entry
add_to_free-IsRing f u us r unit ds =
    pushed-IsRing (set_free f u true) u us unit (set_free-IsRing f u true us r) ds
