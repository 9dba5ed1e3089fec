-- ===== src/Forwarding/Moves.antt =====
-- What one step of a worker does to what each worker knows, src/util/object_forwarding.rs.
use mmtk_core.Base.{ℕ, ◌+◌, ◌≤◌, ◌≡◌, ◌≢◌, ◌⊎◌, inl, inr, Bool, true, false, arith, refl, ◌∙◌}
use mmtk_core.Forwarding.{Pc, attempt, loaded, won, copied, pointer_written, spinning, returned}
use mmtk_core.Forwarding.View.{
  Status, Move, load, not_first, exchange, exchange_fails, copy, store_both,
  write_forwarding_pointer, store_bits, spin, read_forwarding_pointer, not_forwarded,
}

-- The worker that forwards the object.
abbrev pub is_owner : Pc → Bool
is_owner won = true
is_owner (copied n) = true
is_owner (pointer_written n) = true
is_owner _ = false

-- What a worker knows of the metadata.
abbrev pub Knows : Status → Pc → Type 0
Knows m attempt = Unit
Knows m (loaded old) = (old ≡ 0) ⊎ (m.bits ≢ 0) × ((old ≡ 2) ⊎ (old ≡ 3) × (m.bits ≡ 3))
Knows m won = (m.bits ≡ 2) × (m.copies ≡ 0)
Knows m (copied n) = (m.bits ≡ 2) × (m.copies ≡ 1)
Knows m (pointer_written n) = (m.bits ≡ 2) × (m.copies ≡ 1) × (m.pointer ≡ n)
Knows m (spinning b) = (m.bits ≢ 0) × ((b ≡ 2) ⊎ (b ≡ 3) × (m.bits ≡ 3))
Knows m (returned r) = (m.bits ≡ 3) × (r ≡ m.pointer)

-- The object is copied once, between the compare-exchange and the store of the bits.
abbrev pub IsStatus : Status → Type 0
IsStatus m =
    ((m.bits ≡ 0) × (m.copies ≡ 0))
    ⊎ (((m.bits ≡ 2) × (m.copies ≤ 1)) ⊎ ((m.bits ≡ 3) × (m.copies ≡ 1)))

pub owner-bits : (m : Status) (q : Pc) → is_owner q ≡ true → Knows m q → m.bits ≡ 2
owner-bits m won h k = k.0
owner-bits m (copied n) h k = k.0
owner-bits m (pointer_written n) h k = k.0
owner-bits m attempt h k = cc
owner-bits m (loaded n) h k = cc
owner-bits m (spinning n) h k = cc
owner-bits m (returned n) h k = cc

set_being : (m : Status) (q : Pc) → m.bits ≡ 0 → Knows m q → Knows (record m { bits = 2 }) q
set_being m attempt e k = tt
set_being m (loaded n) e k = ground arith
set_being m won e k = ground arith
set_being m (copied n) e k = ground arith
set_being m (pointer_written n) e k = ground arith
set_being m (spinning n) e k = ground arith
set_being m (returned n) e k = ground arith

set_forwarded :
    (m : Status) (q : Pc) (a : ℕ)
    → m.bits ≡ 2
    → is_owner q ≡ false
    → Knows m q
    → Knows (record m { bits = 3; pointer = a }) q
set_forwarded m attempt a e o k = tt
set_forwarded m (loaded n) a e o k = ground arith
set_forwarded m won a e o k = cc
set_forwarded m (copied n) a e o k = cc
set_forwarded m (pointer_written n) a e o k = cc
set_forwarded m (spinning n) a e o k = ground arith
set_forwarded m (returned n) a e o k = ground arith

set_pointer :
    (m : Status) (q : Pc) (a : ℕ)
    → m.bits ≡ 2
    → is_owner q ≡ false
    → Knows m q
    → Knows (record m { pointer = a }) q
set_pointer m attempt a e o k = tt
set_pointer m (loaded n) a e o k = k
set_pointer m won a e o k = cc
set_pointer m (copied n) a e o k = cc
set_pointer m (pointer_written n) a e o k = cc
set_pointer m (spinning n) a e o k = k
set_pointer m (returned n) a e o k = ground arith

set_copies :
    (m : Status) (q : Pc) (n : ℕ)
    → m.bits ≡ 2
    → is_owner q ≡ false
    → Knows m q
    → Knows (record m { copies = n }) q
set_copies m attempt n e o k = tt
set_copies m (loaded old) n e o k = k
set_copies m won n e o k = cc
set_copies m (copied new) n e o k = cc
set_copies m (pointer_written new) n e o k = cc
set_copies m (spinning b) n e o k = k
set_copies m (returned r) n e o k = k

module _ {object : ℕ} {combined : Bool} where
  -- The mover itself.
  pub Move-Knows :
      {m m' : Status} {p p' : Pc}
      → Move object combined m p m' p'
      → IsStatus m
      → Knows m p
      → Knows m' p' × IsStatus m'
  Move-Knows load st k = ground arith
  Move-Knows (not_first h) st k = ground arith
  Move-Knows (exchange h e) st k = ground arith
  Move-Knows (exchange_fails h) st k = ground arith
  Move-Knows (copy n) st k = ground arith
  Move-Knows (store_both h) st k = ground arith
  Move-Knows (write_forwarding_pointer h) st k = ground arith
  Move-Knows store_bits st k = ground arith
  Move-Knows (spin h) st k = ground arith
  Move-Knows (read_forwarding_pointer h) st k = ground arith
  Move-Knows (not_forwarded h h') st k = ground arith

  -- A mover that owns afterwards owned before, or took the ownership of an untouched object.
  pub Move-owner :
      {m m' : Status} {p p' : Pc}
      → Move object combined m p m' p'
      → is_owner p' ≡ true
      → (is_owner p ≡ true) ⊎ (m.bits ≡ 0)
  Move-owner load h = cc
  Move-owner (not_first e) h = cc
  Move-owner (exchange e f) h = inr (f ∙ e)
  Move-owner (exchange_fails e) h = cc
  Move-owner (copy n) h = inl refl
  Move-owner (store_both e) h = cc
  Move-owner (write_forwarding_pointer e) h = inl refl
  Move-owner store_bits h = cc
  Move-owner (spin e) h = cc
  Move-owner (read_forwarding_pointer e) h = cc
  Move-owner (not_forwarded e f) h = cc

  -- An object that is being forwarded afterwards was so before and its owner did not give up, or
  -- the mover is its owner now.
  pub Move-busy :
      {m m' : Status} {p p' : Pc}
      → Move object combined m p m' p'
      → m'.bits ≡ 2
      → (is_owner p' ≡ true) ⊎ (m.bits ≡ 2) × (is_owner p ≡ false)
  Move-busy load h = inr (h, refl)
  Move-busy (not_first e) h = inr (h, refl)
  Move-busy (exchange e f) h = inl refl
  Move-busy (exchange_fails e) h = inr (h, refl)
  Move-busy (copy n) h = inl refl
  Move-busy (store_both e) h = absurd (omega arith)
  Move-busy (write_forwarding_pointer e) h = inl refl
  Move-busy store_bits h = absurd (omega arith)
  Move-busy (spin e) h = inr (h, refl)
  Move-busy (read_forwarding_pointer e) h = inr (h, refl)
  Move-busy (not_forwarded e f) h = inr (h, refl)

  -- Another worker `q` is not disturbed.
  pub Move-other :
      {m m' : Status} {p p' : Pc} (q : Pc)
      → Move object combined m p m' p'
      → Knows m p
      → Knows m q
      → (is_owner p ≡ true → is_owner q ≡ false)
      → Knows m' q
  Move-other q load kp k o = k
  Move-other q (not_first e) kp k o = k
  Move-other {m} q (exchange e f) kp k o = set_being m q (f ∙ e) k
  Move-other q (exchange_fails e) kp k o = k
  Move-other {m} q (copy n) kp k o = set_copies m q (m.copies + 1) kp.0 (o refl) k
  Move-other {m} q (store_both {new} e) kp k o = set_forwarded m q new kp.0 (o refl) k
  Move-other {m} q (write_forwarding_pointer {new} e) kp k o = set_pointer m q new kp.0 (o refl) k
  Move-other {m} q store_bits kp k o = set_forwarded m q m.pointer kp.0 (o refl) k
  Move-other q (spin e) kp k o = k
  Move-other q (read_forwarding_pointer e) kp k o = k
  Move-other q (not_forwarded e f) kp k o = k
