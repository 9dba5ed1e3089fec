-- ===== src/Metadata/Bulk/Fill.antt =====
-- What `zero_meta_bits` and `set_meta_bits` do to each bit, src/util/metadata/side_metadata/global.rs.
use mmtk_core.Base.{
  ℕ, ◌+◌, ◌*◌, ◌/◌, ◌%◌, ◌≤◌, ◌<◌, ◌≡◌, refl, true, false, List, [], ◌∷◌, if◌then◌else◌, arith,
  ℕ_discrete,
}
use mmtk_core.Metadata.Ranges.{BitByteRange, bytes, bits_in_byte, Visitor, break_bit_range}
use mmtk_core.Metadata.Ranges.Cover.{
  first_bit, last_bit, IsProper, Tiles, visit_all, break_bit_range-Tiles,
}
use mmtk_core.Metadata.Access.{Memory}
use mmtk_core.Metadata.Access.Words.{IsBytes, update-IsBytes}
use mmtk_core.Metadata.Bulk.{zero_visitor, set_visitor, zero_meta_bits, set_meta_bits}
use mmtk_core.Metadata.Bulk.Bits.{
  bit, within, zeroed_bit, ones_bit, masked_below, zero-bit_of, ones-bit_of,
}

-- The bits from `lo` up to `hi` are `c`, and the others are as before.
abbrev pub IsFilled : ℕ → ℕ → ℕ → Memory → Memory → Type 0
IsFilled c lo hi before after = (p : ℕ) → bit after p ≡ (if within lo hi p then c else bit before p)

-- A visitor that fills each range, and never stops.
record IsFiller (c : ℕ) (v : Visitor Memory) : Type 0 where
  goes_on : (r : BitByteRange) (mem : Memory) → (v r mem).1 ≡ false
  fills :
      (r : BitByteRange) (mem : Memory)
      → IsProper r
      → IsBytes mem
      → IsFilled c (first_bit r) (last_bit r) mem (v r mem).0
  keeps : (r : BitByteRange) (mem : Memory) → IsProper r → IsBytes mem → IsBytes (v r mem).0

zero-fills :
    (r : BitByteRange) (mem : Memory)
    → IsProper r
    → IsBytes mem
    → IsFilled 0 (first_bit r) (last_bit r) mem (zero_visitor r mem).0
zero-fills (bytes start end) mem h ok p = ground (arith, zero-bit_of (p % 8))
zero-fills (bits_in_byte addr b e) mem h ok p = elim (ℕ_discrete addr (p / 8)) [
  | yes q ↦
      ground (arith, zeroed_bit b e (mem addr) (omega arith) h.1 (ok addr) (p % 8) (omega arith))
  | no n ↦ ground arith
]

set-fills :
    (r : BitByteRange) (mem : Memory)
    → IsProper r
    → IsBytes mem
    → IsFilled 1 (first_bit r) (last_bit r) mem (set_visitor r mem).0
set-fills (bytes start end) mem h ok p = ground (arith, ones-bit_of (p % 8) (omega arith))
set-fills (bits_in_byte addr b e) mem h ok p = elim (ℕ_discrete addr (p / 8)) [
  | yes q ↦
      ground (arith, ones_bit b e (mem addr) (omega arith) h.1 (ok addr) (p % 8) (omega arith))
  | no n ↦ ground arith
]

zero-keeps :
    (r : BitByteRange) (mem : Memory) → IsProper r → IsBytes mem → IsBytes (zero_visitor r mem).0
zero-keeps (bytes start end) mem h ok a = ground (arith, ok a)
zero-keeps (bits_in_byte addr b e) mem h ok a =
    update-IsBytes mem addr _ ok (masked_below b e (mem addr) (omega arith) h.1 (ok addr)).0 a

set-keeps :
    (r : BitByteRange) (mem : Memory) → IsProper r → IsBytes mem → IsBytes (set_visitor r mem).0
set-keeps (bytes start end) mem h ok a = ground (arith, ok a)
set-keeps (bits_in_byte addr b e) mem h ok a =
    update-IsBytes mem addr _ ok (masked_below b e (mem addr) (omega arith) h.1 (ok addr)).1 a

zero-goes_on : (r : BitByteRange) (mem : Memory) → (zero_visitor r mem).1 ≡ false
zero-goes_on (bytes start end) mem = refl
zero-goes_on (bits_in_byte addr b e) mem = refl

zero-IsFiller : IsFiller 0 zero_visitor
zero-IsFiller = record { goes_on = zero-goes_on; fills = zero-fills; keeps = zero-keeps }

set-goes_on : (r : BitByteRange) (mem : Memory) → (set_visitor r mem).1 ≡ false
set-goes_on (bytes start end) mem = refl
set-goes_on (bits_in_byte addr b e) mem = refl

set-IsFiller : IsFiller 1 set_visitor
set-IsFiller = record { goes_on = set-goes_on; fills = set-fills; keeps = set-keeps }

proper_le : (r : BitByteRange) → IsProper r → first_bit r ≤ last_bit r
proper_le (bytes start end) h = omega arith
proper_le (bits_in_byte addr b e) h = omega arith

Tiles-le : (lo hi : ℕ) (rs : List BitByteRange) → Tiles lo hi rs → lo ≤ hi
Tiles-le lo hi [] h = omega arith
Tiles-le lo hi (r ∷ rs) (e, h, t) = omega (arith, proper_le r h, Tiles-le (last_bit r) hi rs t)

fill_all :
    (c : ℕ) (v : Visitor Memory)
    → IsFiller c v
    → (lo hi : ℕ) (rs : List BitByteRange) (mem : Memory) → Tiles lo hi rs
    → IsBytes mem
    → IsFilled c lo hi mem (visit_all rs v mem).0 × IsBytes (visit_all rs v mem).0
fill_all c v f lo hi [] mem h ok = (λ p. ground arith, ok)
fill_all c v f lo hi (r ∷ rs) mem (e, h, t) ok =
    let rest = fill_all c v f (last_bit r) hi rs (v r mem).0 t (f.keeps r mem h ok) in
    rw (f.goes_on r mem) (
      λ p.
          ground
            (arith, rest.0 p, f.fills r mem h ok p, proper_le r h, Tiles-le (last_bit r) hi rs t),
      rest.1,
    )

module _ (sa sb ea eb : ℕ) (mem : Memory) (hs : sb < 8) (he : eb < 8)
    (le : sa * 8 + sb ≤ ea * 8 + eb) (ok : IsBytes mem) where
  break_and_fill :
      (c : ℕ) (v : Visitor Memory)
      → IsFiller c v
      → IsFilled c (sa * 8 + sb) (ea * 8 + eb) mem (break_bit_range sa sb ea eb true v mem).0
        × IsBytes (break_bit_range sa sb ea eb true v mem).0
  break_and_fill c v f =
      let tiles = break_bit_range-Tiles sa sb ea eb hs he le in
      rw (tiles.2 Memory true v mem) (fill_all c v f _ _ tiles.0 mem tiles.1 ok)

  -- For bit offsets within a byte, an end that is not before the start, and bytes in memory:
  -- `zero_meta_bits` makes each bit from the start up to the end zero and changes no other, and
  -- `set_meta_bits` makes each of these bits one and changes no other.
  pub meta_bits-IsFilled :
      IsFilled 0 (sa * 8 + sb) (ea * 8 + eb) mem (zero_meta_bits sa sb ea eb mem)
      × IsFilled 1 (sa * 8 + sb) (ea * 8 + eb) mem (set_meta_bits sa sb ea eb mem)
  unfolding zero_meta_bits set_meta_bits
  meta_bits-IsFilled = (
    (break_and_fill 0 zero_visitor zero-IsFiller).0,
    (break_and_fill 1 set_visitor set-IsFiller).0,
  )

  pub meta_bits-IsBytes :
      IsBytes (zero_meta_bits sa sb ea eb mem) × IsBytes (set_meta_bits sa sb ea eb mem)
  unfolding zero_meta_bits set_meta_bits
  meta_bits-IsBytes = (
    (break_and_fill 0 zero_visitor zero-IsFiller).1,
    (break_and_fill 1 set_visitor set-IsFiller).1,
  )
