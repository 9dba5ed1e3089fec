-- ===== src/Metadata/Bulk/Agree.antt =====
-- A load depends only on the bits of its value, for src/util/metadata/side_metadata/global.rs.
use mmtk_core.Base.{
  two_pow_add, ℕ, zero, suc, ◌+◌, ◌-◌, ◌*◌, ◌/◌, ◌%◌, ◌^◌, ◌≤◌, ◌<◌, ◌≡◌, refl, sym, ap, ◌∙◌, ◌==◌,
  ==_iff, true, arith, dec_lt, all_range,
}
use mathlib.Core.Path.{subst}
use mmtk_core.Metadata.Spec.{
  SideMetadataSpec, IsRegular, region, address_to_meta_address, address_to_contiguous_meta_address,
  meta_byte_lshift, meta_byte_mask,
}
use mmtk_core.Metadata.Spec.Translate.{spec_of, meta_byte_lshift_lem}
use mmtk_core.Metadata.Bytes.{get_bits, for_all, each_place, at_place}
use mmtk_core.Metadata.Access.{Memory, load}
use mmtk_core.Metadata.Access.Words.{IsBytes, load_value_agree}
use mmtk_core.Metadata.Access.Lanes.{
  byte_of, start_of, load_place, load_whole, whole_address, places,
}
use mmtk_core.Metadata.Bulk.Bits.{bit, bit_of}

-- The number that `n` bits of a byte make, from the bit `s` on.
bits_value : ℕ → ℕ → ℕ → ℕ
bits_value zero x s = 0
bits_value (suc n) x s = bit_of x s + 2 * bits_value n x (s + 1)

get_table :
    each_place
      (λ b i. all_range 256 0 (λ x. get_bits b (i * 2 ^ b) x == bits_value (2 ^ b) x (i * 2 ^ b)))
    ≡ true
unfolding all_range meta_byte_mask bits_value
get_table = refl

byte_table : all_range 256 0 (λ x. x == bits_value 8 x 0) ≡ true
unfolding all_range bits_value
byte_table = refl

bits_value_agree :
    (n x y s : ℕ)
    → ((k : ℕ) → s ≤ k → k < s + n → bit_of x k ≡ bit_of y k)
    → bits_value n x s ≡ bits_value n y s
unfolding bits_value
bits_value_agree zero x y s h = refl
bits_value_agree (suc n) x y s h = omega (
  arith,
  h s (omega arith) (omega arith),
  bits_value_agree n x y (s + 1) (λ k lo hi. h k (omega arith) (omega arith)),
)

byte_agree : (x y : ℕ) → x < 256 → y < 256 → ((k : ℕ) → k < 8 → bit_of x k ≡ bit_of y k) → x ≡ y
byte_agree x y hx hy h =
    (==_iff _ _).0 (for_all 256 _ byte_table x hx)
    ∙ bits_value_agree 8 x y 0 (λ k lo hi. h k hi)
    ∙ sym ((==_iff _ _).0 (for_all 256 _ byte_table y hy))

get_agree :
    (b i x y : ℕ)
    → b < 3
    → i < 8 / 2 ^ b
    → x < 256
    → y < 256
    → ((k : ℕ) → i * 2 ^ b ≤ k → k < i * 2 ^ b + 2 ^ b → bit_of x k ≡ bit_of y k)
    → get_bits b (i * 2 ^ b) x ≡ get_bits b (i * 2 ^ b) y
get_agree b i x y hb hi hx hy h =
    (==_iff _ _).0 (for_all 256 _ (at_place _ get_table b i hb hi) x hx)
    ∙ bits_value_agree (2 ^ b) x y (i * 2 ^ b) h
    ∙ sym ((==_iff _ _).0 (for_all 256 _ (at_place _ get_table b i hb hi) y hy))

-- The position in memory of the first bit of a region's value.
abbrev pub position : (o b r : ℕ) → ℕ
position o b r = o * 8 + r * 2 ^ b

small_position :
    (o b r : ℕ) → b < 3 → (o + r / 2 ^ (3 - b)) * 8 + r % 2 ^ (3 - b) * 2 ^ b ≡ position o b r
small_position o zero r h = omega arith
small_position o (suc zero) r h = omega arith
small_position o (suc (suc zero)) r h = omega arith
small_position o (suc (suc (suc b))) r h = absurd (omega arith)

small_room : (b i : ℕ) → b < 3 → i < 8 / 2 ^ b → i * 2 ^ b + 2 ^ b ≤ 8
small_room zero i h hi = omega arith
small_room (suc zero) i h hi = omega arith
small_room (suc (suc zero)) i h hi = omega arith
small_room (suc (suc (suc b))) i h hi = absurd (omega arith)

whole_position : (o b r : ℕ) → 3 ≤ b → (o + r * 2 ^ (b - 3)) * 8 ≡ position o b r
whole_position o b r h =
    omega (arith, ap (λ (t : ℕ). r * t) (two_pow_add (b - 3) 3 ∙ ap (λ (k : ℕ). 2 ^ k) back))
  where
    back : b - 3 + 3 ≡ b
    back = omega arith

-- The two memories have the same bits in the value of a region.
abbrev pub IsAlike : (o b r : ℕ) → Memory → Memory → Type 0
IsAlike o b r mem other =
    (p : ℕ) → position o b r ≤ p → p < position o b r + 2 ^ b → bit mem p ≡ bit other p

-- A bit of a byte, as a bit of memory.
byte_bit :
    (mem other : Memory) (a k : ℕ)
    → k < 8
    → bit mem (a * 8 + k) ≡ bit other (a * 8 + k)
    → bit_of (mem a) k ≡ bit_of (other a) k
byte_bit mem other a k h e =
    let byte : (a * 8 + k) / 8 ≡ a = omega arith in
    let place : (a * 8 + k) % 8 ≡ k = omega arith in
    subst (λ (c : ℕ). bit_of (mem c) k ≡ bit_of (other c) k) byte
      (subst (λ (j : ℕ). bit_of (mem ((a * 8 + k) / 8)) j ≡ bit_of (other ((a * 8 + k) / 8)) j)
        place e)

module _ (o b l : ℕ) (mem other : Memory) (ok : IsBytes mem) (ok' : IsBytes other) (e : ℕ)
    (alike : IsAlike o b (e / 2 ^ l) mem other) where
  small_agree : b < 3 → load (spec_of o b l) mem e ≡ load (spec_of o b l) other e
  small_agree small =
      rw (load_place o b l mem e small, load_place o b l other e small)
        (get_agree b _ _ _ small (places b _ small) (ok _) (ok' _) (λ k lo hi.
          byte_bit mem other (byte_of o b l e) k
            (omega (arith, small_room b _ small (places b (e / 2 ^ l) small)))
            (alike _ (omega (arith, small_position o b (e / 2 ^ l) small))
              (omega (arith, small_position o b (e / 2 ^ l) small)))))

  whole_agree :
      3 ≤ b → b ≤ l → e < 2 ^ 64 → load (spec_of o b l) mem e ≡ load (spec_of o b l) other e
  whole_agree large hl he =
      rw (load_whole o b l mem e large hl he, load_whole o b l other e large hl he)
        (load_value_agree (2 ^ (b - 3)) mem other (start_of o b l e) (λ a lo hi.
          byte_agree (mem a) (other a) (ok a) (ok' a) (λ k hk. byte_bit mem other a k hk (
            alike _ (omega (arith, whole_position o b (e / 2 ^ l) large))
              (omega (arith, whole_position o b (e / 2 ^ l) large, whole_position 0 b 1 large))))))

pub load_agree :
    (spec : SideMetadataSpec) (mem other : Memory) (e : ℕ)
    → IsRegular spec
    → IsBytes mem
    → IsBytes other
    → e < 2 ^ 64
    → IsAlike spec.offset spec.log_num_of_bits (region spec e) mem other
    → load spec mem e ≡ load spec other e
load_agree spec mem other e h ok ok' he alike = elim (dec_lt spec.log_num_of_bits 3) [
  | yes small ↦ small_agree spec.offset _ spec.log_bytes_in_region mem other ok ok' e alike small
  | no large ↦
      whole_agree spec.offset _ spec.log_bytes_in_region mem other ok ok' e alike (omega arith)
        h.at_most_region he
]

small_start :
    (o b l d : ℕ)
    → b < 3
    → address_to_meta_address (spec_of o b l) d * 8 + meta_byte_lshift (spec_of o b l) d
      ≡ position o b (d / 2 ^ l)
unfolding address_to_meta_address address_to_contiguous_meta_address
small_start o b l d h =
    ground (arith, meta_byte_lshift_lem o b l d h, small_position o b (d / 2 ^ l) h)

pub start-position :
    (spec : SideMetadataSpec) (d : ℕ)
    → IsRegular spec
    → d < 2 ^ 64
    → address_to_meta_address spec d * 8 + meta_byte_lshift spec d
      ≡ position spec.offset spec.log_num_of_bits (region spec d)
unfolding meta_byte_lshift
start-position spec d h hd = elim (dec_lt spec.log_num_of_bits 3) [
  | yes small ↦ small_start spec.offset _ spec.log_bytes_in_region d small
  | no large ↦ ground (
    arith,
    whole_address spec.offset spec.log_num_of_bits spec.log_bytes_in_region d (omega arith)
        h.at_most_region hd,
    whole_position spec.offset spec.log_num_of_bits (region spec d) (omega arith),
  )
]

place_room : (b r : ℕ) → b < 3 → r % 2 ^ (3 - b) * 2 ^ b < 8
place_room zero r h = omega arith
place_room (suc zero) r h = omega arith
place_room (suc (suc zero)) r h = omega arith
place_room (suc (suc (suc b))) r h = absurd (omega arith)

pub lshift-below : (spec : SideMetadataSpec) (d : ℕ) → meta_byte_lshift spec d < 8
unfolding meta_byte_lshift
lshift-below spec d = elim (dec_lt spec.log_num_of_bits 3) [
  | yes small ↦
      let eq : meta_byte_lshift spec d ≡ _ =
        meta_byte_lshift_lem spec.offset spec.log_num_of_bits spec.log_bytes_in_region d small in
      omega (arith, eq, place_room spec.log_num_of_bits (region spec d) small)
  | no large ↦ ground arith
]
