-- ===== src/Metadata/Access/Lanes.antt =====
-- Where the metadata of a region lies, and what an access does there,
-- src/util/metadata/side_metadata/global.rs.
use mmtk_core.Base.{
  ℕ, zero, suc, ◌+◌, ◌-◌, ◌*◌, ◌/◌, ◌%◌, ◌^◌, ◌≤◌, ◌<◌, ◌≡◌, ◌≢◌, sym, arith, update, ℕ_discrete,
}
use mathlib.Core.Path.{subst}
use mmtk_core.Metadata.Spec.{address_to_contiguous_meta_address, address_to_meta_address}
use mmtk_core.Metadata.Spec.Translate.{spec_of, meta_byte_lshift_lem, shl_region}
use mmtk_core.Metadata.Bytes.{get_bits, put_bits}
use mmtk_core.Metadata.Access.{Memory, load, store, load_value, store_value}

module _ (o b l : ℕ) where
  -- The byte and the place in it of the value for an address, where values are less than a byte.
  abbrev pub byte_of : ℕ → ℕ
  byte_of d = o + d / 2 ^ l / 2 ^ (3 - b)

  abbrev pub place_of : ℕ → ℕ
  place_of d = d / 2 ^ l % 2 ^ (3 - b)

  pub load_place :
      (mem : Memory) (d : ℕ)
      → b < 3
      → load (spec_of o b l) mem d ≡ get_bits b (place_of d * 2 ^ b) (mem (byte_of d))
  unfolding load address_to_meta_address address_to_contiguous_meta_address
  load_place mem d h = ground (arith, meta_byte_lshift_lem o b l d h)

  pub store_place :
      (mem : Memory) (d v : ℕ)
      → b < 3
      → store (spec_of o b l) mem d v
        ≡ update mem (byte_of d) (put_bits b (place_of d * 2 ^ b) (mem (byte_of d)) v)
  unfolding store address_to_meta_address address_to_contiguous_meta_address
  store_place mem d v h = ground (arith, meta_byte_lshift_lem o b l d h)

  -- The first byte, where values are whole bytes.
  abbrev pub start_of : ℕ → ℕ
  start_of d = o + d / 2 ^ l * 2 ^ (b - 3)

  pub whole_address :
      (d : ℕ) → 3 ≤ b → b ≤ l → d < 2 ^ 64 → address_to_meta_address (spec_of o b l) d ≡ start_of d
  unfolding address_to_meta_address address_to_contiguous_meta_address
  whole_address d h hl hd = elim (ℕ_discrete b 3) [
    | yes e ↦
        subst (λ (c : ℕ). address_to_meta_address (spec_of o c l) d ≡ o + d / 2 ^ l * 2 ^ (c - 3))
          (sym e) (omega arith)
    | no n ↦ ground (arith, shl_region (b - 3) l d (omega arith) hd)
  ]

  pub load_whole :
      (mem : Memory) (d : ℕ)
      → 3 ≤ b
      → b ≤ l
      → d < 2 ^ 64
      → load (spec_of o b l) mem d ≡ load_value (2 ^ (b - 3)) mem (start_of d)
  unfolding load
  load_whole mem d h hl hd = ground (arith, whole_address d h hl hd)

  pub store_whole :
      (mem : Memory) (d v : ℕ)
      → 3 ≤ b
      → b ≤ l
      → d < 2 ^ 64
      → store (spec_of o b l) mem d v ≡ store_value (2 ^ (b - 3)) mem (start_of d) v
  unfolding store
  store_whole mem d v h hl hd = ground (arith, whole_address d h hl hd)

pub places : (b r : ℕ) → b < 3 → r % 2 ^ (3 - b) < 8 / 2 ^ b
places zero r h = omega arith
places (suc zero) r h = omega arith
places (suc (suc zero)) r h = omega arith
places (suc (suc (suc b))) r h = absurd (omega arith)

-- Different regions share a byte only at different places.
pub places_differ :
    (o b r s : ℕ)
    → b < 3
    → r ≢ s
    → o + r / 2 ^ (3 - b) ≡ o + s / 2 ^ (3 - b)
    → r % 2 ^ (3 - b) ≢ s % 2 ^ (3 - b)
places_differ o zero r s h n e p = n (omega arith)
places_differ o (suc zero) r s h n e p = n (omega arith)
places_differ o (suc (suc zero)) r s h n e p = n (omega arith)
places_differ o (suc (suc (suc b))) r s h n e p = absurd (omega arith)

pub value_range : (b : ℕ) → 3 ≤ b → b ≤ 6 → 256 ^ (2 ^ (b - 3)) ≡ 2 ^ (2 ^ b)
value_range b lo hi = elim (ℕ_discrete b 3) [
  | yes e ↦ at_size _ e (omega arith)
  | no n ↦ elim (ℕ_discrete b 4) [
    | yes e ↦ at_size _ e (omega arith)
    | no m ↦ elim (ℕ_discrete b 5) [
      | yes e ↦ at_size _ e (omega arith)
      | no k ↦ at_size 6 (omega arith) (omega arith)
    ]
  ]
]
  where
    at_size :
        (c : ℕ) → b ≡ c → 256 ^ (2 ^ (c - 3)) ≡ 2 ^ (2 ^ c) → 256 ^ (2 ^ (b - 3)) ≡ 2 ^ (2 ^ b)
    at_size c e h = subst (λ (d : ℕ). 256 ^ (2 ^ (d - 3)) ≡ 2 ^ (2 ^ d)) (sym e) h
