-- ===== src/FreeList/Sizes.antt =====
-- Sizes of blocks after a write, and links after a size is set, src/util/freelist.rs.
use mmtk_core.Base.{
  ℕ, ◌+◌, ◌-◌, ◌≤◌, ◌<◌, ◌≡◌, ◌≢◌, ◌⊎◌, inl, inr, refl, ◌∙◌, ap, ltb, Bool, true, false, arith,
  Bool-cases, ℕ_discrete,
}
use mmtk_core.FreeList.{
  IntArrayFreeList, max_units, add32, low_bits, with_low_bits, high_bit, get_lo_entry, get_hi_entry,
  set_hi_entry, get_size, set_size, get_next, get_prev, set_next, set_prev,
}
use mmtk_core.FreeList.Entries.{InTable, IsHeaded, hi-set_hi, hi-set_lo, lo-set_hi, hi-set_hi_ne}

-- A size depends on two entries.
size_same :
    (f f' : IntArrayFreeList) (v : ℕ)
    → high_bit (get_hi_entry f' v) ≡ high_bit (get_hi_entry f v)
    → (high_bit (get_hi_entry f v) ≡ true
        → low_bits (get_hi_entry f' (add32 v 1)) ≡ low_bits (get_hi_entry f (add32 v 1)))
    → get_size f' v ≡ get_size f v
unfolding get_size
size_same f f' v e k = elim (Bool-cases (high_bit (get_hi_entry f v))) [
  | inl t ↦ rw (e, t) (k t)
  | inr t ↦ rw (e, t) refl
]

with_low_bits-high : (w x : ℕ) → high_bit (with_low_bits w x) ≡ high_bit w
with_low_bits-high w x = ground arith

pub size-set_prev : (f : IntArrayFreeList) (x y v : ℕ) → get_size (set_prev f x y) v ≡ get_size f v
unfolding set_prev
size-set_prev f x y v =
    size_same f _ v (ap high_bit (hi-set_lo f x v _))
      (λ t. ap low_bits (hi-set_lo f x (add32 v 1) _))

pub high-set_next :
    (f : IntArrayFreeList) (x y v : ℕ)
    → InTable f.heads x
    → InTable f.heads v
    → high_bit (get_hi_entry (set_next f x y) v) ≡ high_bit (get_hi_entry f v)
unfolding set_next
high-set_next f x y v hx hv = elim (ℕ_discrete x v) [
  | yes e ↦ rw (← e) (ap high_bit (hi-set_hi f x x _) ∙ with_low_bits-high (get_hi_entry f x) y)
  | no n ↦ ap high_bit (hi-set_hi_ne f x v _ hx hv n)
]

-- A link is written to an entry whose size field is not the one of `v`.
pub size-set_next :
    (f : IntArrayFreeList) (x y v : ℕ)
    → InTable f.heads x
    → InTable f.heads v
    → InTable f.heads (add32 v 1)
    → (x ≡ add32 v 1 → high_bit (get_hi_entry f v) ≡ false)
    → get_size (set_next f x y) v ≡ get_size f v
unfolding set_next
size-set_next f x y v hx hv hw c =
    size_same f _ v (high-set_next f x y v hx hv)
      (λ t. ap low_bits (hi-set_hi_ne f x (add32 v 1) _ hx hw (λ e. clash t (c e))))
  where
    clash : {b : Bool} → b ≡ true → b ≡ false → ⊥
    clash t e = cc

-- A block of `n` units from `u` lies within the units.
pub record IsBlock (u n : ℕ) : Type 0 where
  pub some_units : 1 ≤ n
  pub inside : u + n ≤ max_units + 1

module _ (f : IntArrayFreeList) (u n : ℕ) (h : IsHeaded f) (k : IsBlock u n) where
  pub IsHeaded-set_size : IsHeaded (set_size f u n)
  unfolding set_size set_hi_entry
  IsHeaded-set_size = elim (Bool-cases (ltb 1 n)) [
    | inl e ↦ rw e (record { few = h.few; sentinel = h.sentinel; word = h.word })
    | inr e ↦ rw e (record { few = h.few; sentinel = h.sentinel; word = h.word })
  ]

  pub head-set_size : ((set_size f u n).head ≡ f.head) × ((set_size f u n).heads ≡ f.heads)
  unfolding set_size set_hi_entry
  head-set_size = elim (Bool-cases (ltb 1 n)) [
    | inl e ↦ rw e (refl, refl)
    | inr e ↦ rw e (refl, refl)
  ]

  hi-set_size_ne :
      (v : ℕ)
      → InTable f.heads v
      → v ≢ u
      → (1 < n → v ≢ u + 1)
      → (1 < n → v ≢ u + n - 1)
      → get_hi_entry (set_size f u n) v ≡ get_hi_entry f v
  unfolding set_size set_hi_entry get_hi_entry
  hi-set_size_ne v hv a b c = ground (arith, h.few, k.some_units, k.inside)

  hi-set_size_first : low_bits (get_hi_entry (set_size f u n) u) ≡ low_bits (get_hi_entry f u)
  unfolding set_size set_hi_entry get_hi_entry
  hi-set_size_first = ground (arith, h.few, k.some_units, k.inside)

  pub size-set_size : get_size (set_size f u n) u ≡ n
  unfolding get_size set_size set_hi_entry get_hi_entry
  size-set_size = ground (arith, h.few, k.some_units, k.inside)

  pub single : n ≡ 1 → high_bit (get_hi_entry (set_size f u n) u) ≡ false
  unfolding set_size set_hi_entry get_hi_entry
  single e = ground (arith, h.few, k.some_units, k.inside)

  lo-set_size : (v : ℕ) → get_lo_entry (set_size f u n) v ≡ get_lo_entry f v
  unfolding set_size
  lo-set_size v = elim (Bool-cases (ltb 1 n)) [
    | inl e ↦ rw e (lo-set_hi _ _ v _ ∙ lo-set_hi _ _ v _ ∙ lo-set_hi f u v _)
    | inr e ↦ rw e (lo-set_hi f u v _)
  ]

  pub prev-set_size : (v : ℕ) → get_prev (set_size f u n) v ≡ get_prev f v
  unfolding get_prev
  prev-set_size v = ground (arith, lo-set_size v, head-set_size)

  pub next-set_size :
      (v : ℕ)
      → InTable f.heads v
      → (v ≤ u) ⊎ (u + n ≤ v)
      → get_next (set_size f u n) v ≡ get_next f v
  unfolding get_next
  next-set_size v hv o = elim (ℕ_discrete v u) [
    | yes e ↦ rw e (ground (arith, hi-set_size_first, head-set_size))
    | no d ↦ ground (
      arith,
      head-set_size,
      hi-set_size_ne v hv d (λ lt. omega (arith, o, k.some_units))
          (λ lt. omega (arith, o, k.some_units)),
    )
  ]

  pub size-set_size_ne :
      (v : ℕ)
      → InTable f.heads v
      → InTable f.heads (v + 1)
      → (v + 1 ≤ u) ⊎ (u + n ≤ v)
      → (high_bit (get_hi_entry (set_size f u n) v) ≡ high_bit (get_hi_entry f v))
        × (get_size (set_size f u n) v ≡ get_size f v)
  size-set_size_ne v hv hw o =
      let plain : add32 v 1 ≡ v + 1 = omega (arith, hw.1) in
      let high = ap high_bit (
        hi-set_size_ne v hv (λ e. omega (arith, o, k.some_units)) (λ lt e. omega (arith, o))
          (λ lt e. omega (arith, o))) in
      (
        high,
        size_same f (set_size f u n) v high (λ t. rw plain (elim (ℕ_discrete (v + 1) u) [
          | yes e ↦ rw e hi-set_size_first
          | no d ↦
              ap low_bits
                (hi-set_size_ne (v + 1) hw d (λ lt e. omega (arith, o)) (λ lt e. omega (arith, o)))
        ])),
      )
