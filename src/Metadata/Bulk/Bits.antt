-- ===== src/Metadata/Bulk/Bits.antt =====
-- Single bits of memory, and what masks do to them, for src/util/metadata/side_metadata/global.rs.
use mmtk_core.Base.{
  ℕ, ◌/◌, ◌%◌, ◌^◌, ◌≤◌, ◌<◌, ◌≡◌, refl, ap, ◌==◌, leb, ltb, ◌&&◌, Bool, true, if◌then◌else◌,
  all_range, both_true, ==_iff, ltb→lt, arith,
}
use Prim.Native.Nat.{bit_and, bit_or}
use native.Mathlib.Nat.{zero-div}
use mmtk_core.Metadata.Bytes.{shl8, not8, for_all}
use mmtk_core.Metadata.Access.{Memory}
use mmtk_core.Metadata.Bulk.{ones_from, u8_max}

abbrev pub bit_of : ℕ → ℕ → ℕ
bit_of byte k = byte / 2 ^ k % 2

-- The bit at a position counted from the start of memory.
abbrev pub bit : Memory → ℕ → ℕ
bit mem p = bit_of (mem (p / 8)) (p % 8)

abbrev pub within : ℕ → ℕ → ℕ → Bool
within lo hi p = leb lo p && ltb p hi

-- For every range of bits in a byte, every byte and every bit.
abbrev each_bit : (ℕ → ℕ → ℕ → ℕ → Bool) → Bool
each_bit p =
    all_range 8 0 (λ b. all_range 9 0 (λ e. all_range 256 0 (λ x. all_range 8 0 (p b e x))))

at_bit :
    (p : ℕ → ℕ → ℕ → ℕ → Bool)
    → each_bit p ≡ true
    → (b e x k : ℕ) → b < 8
    → e ≤ 8
    → x < 256
    → k < 8
    → p b e x k ≡ true
at_bit p h b e x k hb he hx hk =
    for_all 8 _ (for_all 256 _ (for_all 9 _ (for_all 8 _ h b hb) e (omega arith)) x hx) k hk

zeroed : ℕ → ℕ → ℕ → ℕ
zeroed b e x = bit_and x (bit_or (ones_from e) (not8 (shl8 u8_max b)))

ones : ℕ → ℕ → ℕ → ℕ
ones b e x = bit_or x (bit_and (not8 (ones_from e)) (shl8 u8_max b))

zeroed_bits :
    each_bit (λ b e x k. bit_of (zeroed b e x) k == (if within b e k then 0 else bit_of x k)) ≡ true
unfolding all_range zeroed
zeroed_bits = refl

ones_bits :
    each_bit (λ b e x k. bit_of (ones b e x) k == (if within b e k then 1 else bit_of x k)) ≡ true
unfolding all_range ones
ones_bits = refl

below : each_bit (λ b e x k. ltb (zeroed b e x) 256 && ltb (ones b e x) 256) ≡ true
unfolding all_range ones zeroed
below = refl

module _ (b e x : ℕ) (hb : b < 8) (he : e ≤ 8) (hx : x < 256) where
  pub zeroed_bit :
      (k : ℕ)
      → k < 8
      → bit_of (bit_and x (bit_or (ones_from e) (not8 (shl8 u8_max b)))) k
        ≡ (if within b e k then 0 else bit_of x k)
  unfolding zeroed
  zeroed_bit k hk = (==_iff _ _).0 (at_bit _ zeroed_bits b e x k hb he hx hk)

  pub ones_bit :
      (k : ℕ)
      → k < 8
      → bit_of (bit_or x (bit_and (not8 (ones_from e)) (shl8 u8_max b))) k
        ≡ (if within b e k then 1 else bit_of x k)
  unfolding ones
  ones_bit k hk = (==_iff _ _).0 (at_bit _ ones_bits b e x k hb he hx hk)

  pub masked_below :
      (bit_and x (bit_or (ones_from e) (not8 (shl8 u8_max b))) < 256)
      × (bit_or x (bit_and (not8 (ones_from e)) (shl8 u8_max b)) < 256)
  unfolding zeroed ones
  masked_below =
      let both = both_true _ _ (at_bit _ below b e x 0 hb he hx (omega arith)) in
      (ltb→lt _ _ both.0, ltb→lt _ _ both.1)

pub zero-bit_of : (k : ℕ) → bit_of 0 k ≡ 0
zero-bit_of k = ap (λ (x : ℕ). x % 2) (zero-div (2 ^ k))

all_ones : all_range 8 0 (λ k. bit_of 255 k == 1) ≡ true
unfolding all_range
all_ones = refl

pub ones-bit_of : (k : ℕ) → k < 8 → bit_of 255 k ≡ 1
ones-bit_of k h = (==_iff _ _).0 (for_all 8 _ all_ones k h)
