-- ===== src/Metadata/Access/Region.antt =====
-- Side metadata as a map from regions to values, src/util/metadata/side_metadata/global.rs.
use mmtk_core.Base.{
  ℕ, ◌+◌, ◌-◌, ◌*◌, ◌/◌, ◌^◌, ◌≤◌, ◌<◌, ◌≡◌, ◌≢◌, ◌==◌, if◌then◌else◌, ◌∙◌, sym, ap, arith, update,
  update_self, update_ne, dec_lt, ℕ_discrete,
}
use native.Mathlib.Nat.{mul-le-mul_right}
use mmtk_core.Metadata.Spec.{SideMetadataSpec, IsRegular, region}
use mmtk_core.Metadata.Spec.Translate.{spec_of}
use mmtk_core.Metadata.Bytes.{get_bits, put_bits, get_bits-put_bits, get_bits-put_bits_ne}
use mmtk_core.Metadata.Access.{Memory, load, store, store_value, values}
use mmtk_core.Metadata.Access.Words.{
  IsBytes, load_value_agree, load_value-store_value, store_value_before, store_value_after,
}
use mmtk_core.Metadata.Access.Lanes.{
  byte_of, place_of, start_of, load_place, store_place, load_whole, store_whole, places,
  places_differ, value_range,
}

module _ (o b l : ℕ) (mem : Memory) (bytes : IsBytes mem) where
  module _ (small : b < 3) (d v : ℕ) (hv : v < 2 ^ (2 ^ b)) where
    lane : ℕ
    lane = place_of o b l d * 2 ^ b

    written : ℕ
    unfolding lane
    written = put_bits b lane (mem (byte_of o b l d)) v

    place_here :
        (e : ℕ) → d / 2 ^ l ≡ e / 2 ^ l → load (spec_of o b l) (store (spec_of o b l) mem d v) e ≡ v
    unfolding written lane
    place_here e h =
        rw (load_place o b l _ e small, store_place o b l mem d v small, ← h)
          (ap (get_bits b lane) (update_self mem (byte_of o b l d) written)
            ∙ get_bits-put_bits b _ small (places b _ small) _ v (bytes _) hv)

    place_other :
        (e : ℕ)
        → d / 2 ^ l ≢ e / 2 ^ l
        → load (spec_of o b l) (store (spec_of o b l) mem d v) e ≡ load (spec_of o b l) mem e
    unfolding written lane
    place_other e n =
        rw
          (
            load_place o b l (store (spec_of o b l) mem d v) e small,
            store_place o b l mem d v small,
            load_place o b l mem e small,
          )
          (elim (ℕ_discrete (byte_of o b l d) (byte_of o b l e)) [
            | no m ↦
                ap (get_bits b (place_of o b l e * 2 ^ b))
                  (update_ne mem (byte_of o b l d) (byte_of o b l e) written m)
            | yes p ↦
                ap (get_bits b (place_of o b l e * 2 ^ b)) (
                  ap (update mem (byte_of o b l d) written) (sym p)
                  ∙ update_self mem (byte_of o b l d) written)
                ∙ get_bits-put_bits_ne b _ small (places b _ small) _ _ v (places b _ small)
                    (places_differ o b _ _ small n p) (bytes _) hv
                ∙ ap (λ (a : ℕ). get_bits b (place_of o b l e * 2 ^ b) (mem a)) p
          ])

  module _ (large : 3 ≤ b) (at_most : b ≤ 6) (hl : b ≤ l) (d v : ℕ) (hd : d < 2 ^ 64) where
    size : ℕ
    size = 2 ^ (b - 3)

    whole_here :
        (e : ℕ)
        → e < 2 ^ 64
        → v < 2 ^ (2 ^ b)
        → d / 2 ^ l ≡ e / 2 ^ l
        → load (spec_of o b l) (store (spec_of o b l) mem d v) e ≡ v
    unfolding size
    whole_here e he hv h =
        rw
          (
            load_whole o b l (store (spec_of o b l) mem d v) e large hl he,
            store_whole o b l mem d v large hl hd,
            ← h,
          )
          (load_value-store_value size mem (start_of o b l d) v
            (omega (arith, hv, value_range b large at_most)))

    whole_other :
        (e : ℕ)
        → e < 2 ^ 64
        → d / 2 ^ l ≢ e / 2 ^ l
        → load (spec_of o b l) (store (spec_of o b l) mem d v) e ≡ load (spec_of o b l) mem e
    unfolding size
    whole_other e he n =
        rw
          (
            load_whole o b l (store (spec_of o b l) mem d v) e large hl he,
            store_whole o b l mem d v large hl hd,
            load_whole o b l mem e large hl he,
          )
          (load_value_agree size _ mem (start_of o b l e) apart)
      where
        apart :
            (a : ℕ)
            → start_of o b l e ≤ a
            → a < start_of o b l e + size
            → store_value size mem (start_of o b l d) v a ≡ mem a
        apart a lo hi = elim (dec_lt (d / 2 ^ l) (e / 2 ^ l)) [
          | yes lt ↦
              let le : d / 2 ^ l + 1 ≤ e / 2 ^ l = omega arith in
              store_value_after size mem (start_of o b l d) v a
                (omega (arith, mul-le-mul_right size le))
          | no ge ↦
              let le : e / 2 ^ l + 1 ≤ d / 2 ^ l = omega arith in
              store_value_before size mem (start_of o b l d) v a
                (omega (arith, mul-le-mul_right size le))
        ]

-- For a regular spec, bytes in memory, addresses of the machine and a value that fits: a load after
-- a store gives the stored value at each address in the region stored to, and what it gave before
-- at any other address.
pub load-store :
    (spec : SideMetadataSpec) (mem : Memory) (d e v : ℕ)
    → IsRegular spec
    → IsBytes mem
    → d < 2 ^ 64
    → e < 2 ^ 64
    → v < values spec
    → load spec (store spec mem d v) e
      ≡ (if region spec d == region spec e then v else load spec mem e)
load-store spec mem d e v h bytes hd he hv = elim (dec_lt spec.log_num_of_bits 3) [
  | yes small ↦ elim (ℕ_discrete (region spec d) (region spec e)) [
    | yes p ↦ ground (arith, place_here o b l mem bytes small d v hv e p)
    | no n ↦ ground (arith, place_other o b l mem bytes small d v hv e n)
  ]
  | no large ↦ elim (ℕ_discrete (region spec d) (region spec e)) [
    | yes p ↦ ground (
      arith,
      whole_here o b l mem bytes (omega arith) h.at_most_word h.at_most_region d v hd e he hv p,
    )
    | no n ↦ ground (
      arith,
      whole_other o b l mem bytes (omega arith) h.at_most_word h.at_most_region d v hd e he n,
    )
  ]
]
  where
    o : ℕ
    o = spec.offset

    b : ℕ
    b = spec.log_num_of_bits

    l : ℕ
    l = spec.log_bytes_in_region
