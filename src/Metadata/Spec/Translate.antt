-- ===== src/Metadata/Spec/Translate.antt =====
-- Addresses and back, src/util/metadata/side_metadata/helpers.rs.
use mmtk_core.Base.{pow_split, ℕ, zero, suc, ◌+◌, ◌-◌, ◌*◌, ◌/◌, ◌%◌, ◌^◌, ◌≤◌, ◌<◌, ◌≡◌, ap, arith}
use native.Mathlib.Nat.{one-le-pow, mul-le-mul_left, div-mul-le_self, pow-le-pow_right}
use mmtk_core.Metadata.Spec.{
  SideMetadataSpec, IsRegular, region, address_to_meta_address, meta_byte_lshift,
  contiguous_meta_address_to_address, address_to_contiguous_meta_address,
}

abbrev pub spec_of : ℕ → ℕ → ℕ → SideMetadataSpec
spec_of o b l = record { offset = o; log_num_of_bits = b; log_bytes_in_region = l }

-- The bits of a value within its byte start at a multiple of its size.
pub meta_byte_lshift_lem :
    (offset b l d : ℕ)
    → b < 3
    → meta_byte_lshift (spec_of offset b l) d ≡ d / 2 ^ l % 2 ^ (3 - b) * 2 ^ b
unfolding meta_byte_lshift
meta_byte_lshift_lem offset zero l d h = omega arith
meta_byte_lshift_lem offset (suc zero) l d h = omega arith
meta_byte_lshift_lem offset (suc (suc zero)) l d h = omega arith
meta_byte_lshift_lem offset (suc (suc (suc b))) l d h = absurd (omega arith)

-- Two parts that together are `r` regions, and wrap nowhere.
assemble :
    (d b k l r inter q bit s : ℕ)
    → 2 ^ b * 2 ^ k ≡ 2 ^ l
    → d < 2 ^ 64
    → r * 2 ^ l ≤ d
    → q + s ≡ r
    → inter ≡ q
    → bit ≡ s * 2 ^ b
    → inter * 2 ^ l % 2 ^ 64 + bit * 2 ^ k % 2 ^ 64 ≡ r * 2 ^ l
assemble d b k l r inter q bit s hb hd h e e₁ e₂ =
    rw (e₁, e₂) omega (arith, ap (λ (t : ℕ). t * 2 ^ l) e, ap (λ (t : ℕ). s * t) hb)

-- A word is kept by a shift to the left and back where the result is an address.
pub one_le_two_pow : (n : ℕ) → 1 ≤ 2 ^ n
one_le_two_pow n = one-le-pow n 2 (omega arith)

region_le : (l d : ℕ) → d / 2 ^ l ≤ d
region_le l d =
    omega (arith, div-mul-le_self d (2 ^ l), mul-le-mul_left (d / 2 ^ l) (one_le_two_pow l))

two_pos : 0 < 2
two_pos = omega arith

pub shl_region : (b l d : ℕ) → b ≤ l → d < 2 ^ 64 → d / 2 ^ l * 2 ^ b % 2 ^ 64 ≡ d / 2 ^ l * 2 ^ b
shl_region b l d h hd =
    omega
      (arith, div-mul-le_self d (2 ^ l), mul-le-mul_left (d / 2 ^ l) (pow-le-pow_right two_pos h))

round :
    (o b l d : ℕ)
    → b ≤ 6
    → b ≤ l
    → d < 2 ^ 64
    → contiguous_meta_address_to_address
        (spec_of o b l)
        (address_to_meta_address (spec_of o b l) d)
        (meta_byte_lshift (spec_of o b l) d)
      ≡ d / 2 ^ l * 2 ^ l
unfolding contiguous_meta_address_to_address address_to_meta_address
    address_to_contiguous_meta_address meta_byte_lshift
round o zero l d h hl hd =
    assemble d 0 (l - 0) l (d / 2 ^ l) _ (d / 2 ^ l / 8 * 8) _ (d / 2 ^ l % 8) (pow_split 0 l hl) hd
      (div-mul-le_self d (2 ^ l)) (omega arith) (omega (arith, region_le l d))
      (omega (arith, meta_byte_lshift_lem o 0 l d (omega arith)))
round o (suc zero) l d h hl hd =
    assemble d 1 (l - 1) l (d / 2 ^ l) _ (d / 2 ^ l / 4 * 4) _ (d / 2 ^ l % 4) (pow_split 1 l hl) hd
      (div-mul-le_self d (2 ^ l)) (omega arith) (omega (arith, region_le l d))
      (omega (arith, meta_byte_lshift_lem o 1 l d (omega arith)))
round o (suc (suc zero)) l d h hl hd =
    assemble d 2 (l - 2) l (d / 2 ^ l) _ (d / 2 ^ l / 2 * 2) _ (d / 2 ^ l % 2) (pow_split 2 l hl) hd
      (div-mul-le_self d (2 ^ l)) (omega arith) (omega (arith, region_le l d))
      (omega (arith, meta_byte_lshift_lem o 2 l d (omega arith)))
round o (suc (suc (suc zero))) l d h hl hd =
    assemble d 3 (l - 3) l (d / 2 ^ l) _ (d / 2 ^ l) _ 0 (pow_split 3 l hl) hd
      (div-mul-le_self d (2 ^ l)) (omega arith) (omega (arith, region_le l d)) (omega arith)
round o (suc (suc (suc (suc zero)))) l d h hl hd =
    assemble d 0 l l (d / 2 ^ l) _ (d / 2 ^ l) _ 0 (omega arith) hd (div-mul-le_self d (2 ^ l))
      (omega arith) (omega (arith, shl_region 1 l d (omega arith) hd)) (omega arith)
round o (suc (suc (suc (suc (suc zero))))) l d h hl hd =
    assemble d 0 l l (d / 2 ^ l) _ (d / 2 ^ l) _ 0 (omega arith) hd (div-mul-le_self d (2 ^ l))
      (omega arith) (omega (arith, shl_region 2 l d (omega arith) hd)) (omega arith)
round o (suc (suc (suc (suc (suc (suc zero)))))) l d h hl hd =
    assemble d 0 l l (d / 2 ^ l) _ (d / 2 ^ l) _ 0 (omega arith) hd (div-mul-le_self d (2 ^ l))
      (omega arith) (omega (arith, shl_region 3 l d (omega arith) hd)) (omega arith)
round o (suc (suc (suc (suc (suc (suc (suc b))))))) l d h hl hd = absurd (omega arith)

-- For a regular spec and an address of the machine: the address computed from the position of a data
-- address's metadata, its byte and its shift, is the start of the region that the data address is in.
pub address-meta_address :
    (spec : SideMetadataSpec) (d : ℕ)
    → IsRegular spec
    → d < 2 ^ 64
    → contiguous_meta_address_to_address spec
        (address_to_meta_address spec d)
        (meta_byte_lshift spec d)
      ≡ region spec d * 2 ^ spec.log_bytes_in_region
address-meta_address spec d h hd =
    round spec.offset spec.log_num_of_bits spec.log_bytes_in_region d h.at_most_word
      h.at_most_region hd
