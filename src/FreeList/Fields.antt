-- ===== src/FreeList/Fields.antt =====
-- What marking a block free or taken, and setting its size, leave as it was, src/util/freelist.rs.
use mmtk_core.Base.{
  ℕ, ◌≡◌, inl, inr, refl, sym, ◌∙◌, ap, ltb, Bool, true, false, arith, update, update_self,
  update_ne, ℕ_discrete, Bool-cases,
}
use mmtk_core.FreeList.{
  IntArrayFreeList, add32, low_bits, high_bit, lo_index, with_free, get_lo_entry, get_hi_entry,
  set_lo_entry, get_size, set_free, get_free, get_next, get_prev,
}
use mmtk_core.FreeList.Entries.{IsHeaded, hi-set_lo, lo-set_lo}

with_free-low : (b : Bool) (w : ℕ) → low_bits (with_free b w) ≡ low_bits w
with_free-low true w = omega arith
with_free-low false w = omega arith

-- A write that keeps the low bits of an entry keeps those of all entries.
lo_kept :
    (f : IntArrayFreeList) (x v : ℕ) (b : Bool)
    → low_bits (get_lo_entry (set_lo_entry f x (with_free b (get_lo_entry f x))) v)
      ≡ low_bits (get_lo_entry f v)
unfolding get_lo_entry set_lo_entry
lo_kept f x v b = ground (arith, with_free-low b (get_lo_entry f x))

with_free-high : (b : Bool) (w : ℕ) → high_bit (with_free b w) ≡ b
with_free-high true w = ground arith
with_free-high false w = ground arith

-- Marking one end of a block the same as the other.
high_kept :
    (f : IntArrayFreeList) (x v : ℕ) (b : Bool)
    → high_bit (get_lo_entry f v) ≡ b
    → high_bit (get_lo_entry (set_lo_entry f x (with_free b (get_lo_entry f x))) v) ≡ b
unfolding get_lo_entry set_lo_entry
high_kept f x v b e = elim (ℕ_discrete (lo_index f.heads x) (lo_index f.heads v)) [
  | yes p ↦
      ap high_bit (
        ap (update f.table (lo_index f.heads x) _) (sym p)
        ∙ update_self f.table (lo_index f.heads x) _)
      ∙ with_free-high b _
  | no n ↦ ap high_bit (update_ne f.table (lo_index f.heads x) (lo_index f.heads v) _ n) ∙ e
]

module _ (f : IntArrayFreeList) (u : ℕ) (b : Bool) where
  pub hi-set_free : (v : ℕ) → get_hi_entry (set_free f u b) v ≡ get_hi_entry f v
  unfolding set_free
  hi-set_free v =
      elim (Bool-cases (ltb 1 (get_size (set_lo_entry f u (with_free b (get_lo_entry f u))) u))) [
        | inl e ↦ rw e (hi-set_lo _ _ v _ ∙ hi-set_lo f u v _)
        | inr e ↦ rw e (hi-set_lo f u v _)
      ]

  pub lo-set_free :
      (v : ℕ) → low_bits (get_lo_entry (set_free f u b) v) ≡ low_bits (get_lo_entry f v)
  unfolding set_free
  lo-set_free v =
      elim (Bool-cases (ltb 1 (get_size (set_lo_entry f u (with_free b (get_lo_entry f u))) u))) [
        | inl e ↦
            rw e
              (lo_kept (set_lo_entry f u (with_free b (get_lo_entry f u))) _ v b ∙ lo_kept f u v b)
        | inr e ↦ rw e (lo_kept f u v b)
      ]

  pub IsHeaded-set_free :
      IsHeaded f
      → IsHeaded (set_free f u b)
        × ((set_free f u b).head ≡ f.head)
        × ((set_free f u b).heads ≡ f.heads)
  unfolding set_free set_lo_entry
  IsHeaded-set_free h =
      elim (Bool-cases (ltb 1 (get_size (set_lo_entry f u (with_free b (get_lo_entry f u))) u))) [
        | inl e ↦ rw e (record { few = h.few; sentinel = h.sentinel; word = h.word }, refl, refl)
        | inr e ↦ rw e (record { few = h.few; sentinel = h.sentinel; word = h.word }, refl, refl)
      ]

  pub next-set_free : IsHeaded f → (v : ℕ) → get_next (set_free f u b) v ≡ get_next f v
  unfolding get_next
  next-set_free h v = ground (arith, hi-set_free v, (IsHeaded-set_free h).1)

  pub prev-set_free : IsHeaded f → (v : ℕ) → get_prev (set_free f u b) v ≡ get_prev f v
  unfolding get_prev
  prev-set_free h v = ground (arith, lo-set_free v, (IsHeaded-set_free h).1)

  pub size-set_free : (v : ℕ) → get_size (set_free f u b) v ≡ get_size f v
  unfolding get_size
  size-set_free v = ground (arith, hi-set_free v, hi-set_free (add32 v 1))

  pub free-set_free : get_free (set_free f u b) u ≡ b
  unfolding get_free set_free
  free-set_free =
      elim (Bool-cases (ltb 1 (get_size (set_lo_entry f u (with_free b (get_lo_entry f u))) u))) [
        | inl e ↦ rw e (
            high_kept (set_lo_entry f u (with_free b (get_lo_entry f u))) _ u b
              (ap high_bit (lo-set_lo f u u _) ∙ with_free-high b (get_lo_entry f u)))
        | inr e ↦ rw e (ap high_bit (lo-set_lo f u u _) ∙ with_free-high b (get_lo_entry f u))
      ]
