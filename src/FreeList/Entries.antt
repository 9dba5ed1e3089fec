-- ===== src/FreeList/Entries.antt =====
-- Entries of the table after a write, and the fields packed into them, src/util/freelist.rs.
use mmtk_core.Base.{
  ℕ, ◌+◌, ◌≤◌, ◌<◌, ◌≡◌, ◌≢◌, ◌⊎◌, inl, inr, ◌∙◌, ap, arith, update_self, update_ne,
}
use mmtk_core.FreeList.{
  IntArrayFreeList, max_units, add32, low_bits, with_low_bits, lo_index, hi_index, link,
  get_lo_entry, get_hi_entry, set_lo_entry, set_hi_entry, get_next, get_prev, set_next, set_prev,
}

-- A unit or a sentinel of a table with at most 128 heads.
abbrev pub InTable : ℕ → ℕ → Type 0
InTable heads u = (heads ≤ 128) × (u < 0x100000000) × (add32 u heads < 0x50000000)

module _ (f : IntArrayFreeList) (u v w : ℕ) where
  pub hi-set_hi : get_hi_entry (set_hi_entry f u w) u ≡ w
  unfolding get_hi_entry set_hi_entry
  hi-set_hi = update_self f.table (hi_index f.heads u) w

  pub lo-set_lo : get_lo_entry (set_lo_entry f u w) u ≡ w
  unfolding get_lo_entry set_lo_entry
  lo-set_lo = update_self f.table (lo_index f.heads u) w

  pub hi-set_lo : get_hi_entry (set_lo_entry f u w) v ≡ get_hi_entry f v
  unfolding get_hi_entry set_lo_entry
  hi-set_lo = update_ne f.table (lo_index f.heads u) (hi_index f.heads v) w (omega arith)

  pub lo-set_hi : get_lo_entry (set_hi_entry f u w) v ≡ get_lo_entry f v
  unfolding get_lo_entry set_hi_entry
  lo-set_hi = update_ne f.table (hi_index f.heads u) (lo_index f.heads v) w (omega arith)

  pub hi-set_hi_ne :
      InTable f.heads u
      → InTable f.heads v
      → u ≢ v
      → get_hi_entry (set_hi_entry f u w) v ≡ get_hi_entry f v
  unfolding get_hi_entry set_hi_entry
  hi-set_hi_ne hu hv n = update_ne f.table (hi_index f.heads u) (hi_index f.heads v) w (omega arith)

  pub lo-set_lo_ne :
      InTable f.heads u
      → InTable f.heads v
      → u ≢ v
      → get_lo_entry (set_lo_entry f u w) v ≡ get_lo_entry f v
  unfolding get_lo_entry set_lo_entry
  lo-set_lo_ne hu hv n = update_ne f.table (lo_index f.heads u) (lo_index f.heads v) w (omega arith)

-- What a link can be set to: a unit, or the list's own head.
abbrev pub IsNode : IntArrayFreeList → ℕ → Type 0
IsNode f x = (x ≤ max_units) ⊎ (x ≡ f.head)

-- The head is among the sentinels.
pub record IsHeaded (f : IntArrayFreeList) : Type 0 where
  pub few : f.heads ≤ 128
  pub sentinel : 0x100000000 ≤ f.head + f.heads
  pub word : f.head < 0x100000000

pub unit-InTable : (f : IntArrayFreeList) (x : ℕ) → IsHeaded f → x ≤ max_units → InTable f.heads x
unit-InTable f x h le = (h.few, omega arith, omega (arith, h.few))

pub head-InTable : (f : IntArrayFreeList) → IsHeaded f → InTable f.heads f.head
head-InTable f h = (h.few, h.word, omega (arith, h.few, h.sentinel, h.word))

link_back :
    (f : IntArrayFreeList) (w x : ℕ)
    → IsHeaded f
    → IsNode f x
    → link f (low_bits (with_low_bits w x)) ≡ x
link_back f w x h (inl le) = ground arith
link_back f w x h (inr e) = ground (arith, h.few, h.sentinel, h.word)

module _ (f : IntArrayFreeList) (u x : ℕ) where
  pub next-set_next : IsHeaded f → IsNode f x → get_next (set_next f u x) u ≡ x
  unfolding get_next set_next set_hi_entry
  next-set_next h node =
      ap (λ w. link f (low_bits w)) (hi-set_hi f u u _) ∙ link_back f (get_hi_entry f u) x h node

  pub prev-set_prev : IsHeaded f → IsNode f x → get_prev (set_prev f u x) u ≡ x
  unfolding get_prev set_prev set_lo_entry
  prev-set_prev h node =
      ap (λ w. link f (low_bits w)) (lo-set_lo f u u _) ∙ link_back f (get_lo_entry f u) x h node

  pub next-set_prev : (v : ℕ) → get_next (set_prev f u x) v ≡ get_next f v
  unfolding get_next set_prev set_lo_entry
  next-set_prev v = ap (λ w. link f (low_bits w)) (hi-set_lo f u v _)

  pub prev-set_next : (v : ℕ) → get_prev (set_next f u x) v ≡ get_prev f v
  unfolding get_prev set_next set_hi_entry
  prev-set_next v = ap (λ w. link f (low_bits w)) (lo-set_hi f u v _)

  pub next-set_next_ne :
      (v : ℕ)
      → InTable f.heads u
      → InTable f.heads v
      → u ≢ v
      → get_next (set_next f u x) v ≡ get_next f v
  unfolding get_next set_next set_hi_entry
  next-set_next_ne v hu hv n = ap (λ w. link f (low_bits w)) (hi-set_hi_ne f u v _ hu hv n)

  pub prev-set_prev_ne :
      (v : ℕ)
      → InTable f.heads u
      → InTable f.heads v
      → u ≢ v
      → get_prev (set_prev f u x) v ≡ get_prev f v
  unfolding get_prev set_prev set_lo_entry
  prev-set_prev_ne v hu hv n = ap (λ w. link f (low_bits w)) (lo-set_lo_ne f u v _ hu hv n)
