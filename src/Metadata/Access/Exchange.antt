-- ===== src/Metadata/Access/Exchange.antt =====
-- `compare_exchange_atomic` of src/util/metadata/side_metadata/global.rs, with other threads that write
-- between its load and its exchange.
use mmtk_core.Base.{
  ℕ, ◌*◌, ◌^◌, ◌≤◌, ◌<◌, ◌≡◌, ◌≢◌, ◌⊎◌, inl, inr, ◌∙◌, sym, ap, arith, dec_lt, ℕ_discrete,
}
use mmtk_core.Metadata.Spec.{
  SideMetadataSpec, address_to_meta_address, address_to_contiguous_meta_address,
}
use mmtk_core.Metadata.Spec.Translate.{spec_of, meta_byte_lshift_lem}
use mmtk_core.Metadata.Bytes.{get_bits, put_bits, get_bits-put_bits, put_bits-get_bits}
use mmtk_core.Metadata.Access.{
  Memory, load, store, values, ok, err, Exchanged, compare_exchange_atomic,
}
use mmtk_core.Metadata.Access.Words.{IsBytes}
use mmtk_core.Metadata.Access.Lanes.{byte_of, place_of, load_place, store_place, places}

abbrev pub IsExchanged : SideMetadataSpec → Memory → ℕ → ℕ → ℕ → Exchanged × Memory → Type 0
IsExchanged spec mem d old new found =
    (load spec mem d ≡ old) × (found ≡ (ok old, store spec mem d new))

abbrev pub IsRefused : SideMetadataSpec → Memory → ℕ → Exchanged × Memory → Type 0
IsRefused spec mem d found = found ≡ (err (load spec mem d), mem)

module _ (o b l : ℕ) (seen mem : Memory) (small : b < 3) (d old new : ℕ)
    (hold : old < 2 ^ (2 ^ b)) where
  lane : ℕ
  lane = place_of o b l d * 2 ^ b

  byte : ℕ
  byte = byte_of o b l d

  exchange-IsExchanged :
      IsBytes seen
      → mem byte ≡ put_bits b lane (seen byte) old
      → IsExchanged
          (spec_of o b l)
          mem
          d
          old
          new
          (compare_exchange_atomic (spec_of o b l) seen mem d old new)
  unfolding compare_exchange_atomic address_to_meta_address address_to_contiguous_meta_address lane
      byte
  exchange-IsExchanged bytes e =
      let found : get_bits b lane (mem byte) ≡ old =
        ap (get_bits b lane) e
        ∙ get_bits-put_bits b _ small (places b _ small) _ old (bytes _) hold in
      ground (
        arith,
        meta_byte_lshift_lem o b l d small,
        load_place o b l mem d small,
        store_place o b l mem d new small,
      )

  exchange-IsRefused :
      mem byte ≢ put_bits b lane (seen byte) old
      → IsRefused (spec_of o b l) mem d (compare_exchange_atomic (spec_of o b l) seen mem d old new)
  unfolding compare_exchange_atomic address_to_meta_address address_to_contiguous_meta_address lane
      byte
  exchange-IsRefused n =
      ground (arith, meta_byte_lshift_lem o b l d small, load_place o b l mem d small)

  exchange :
      IsBytes seen
      → let found = compare_exchange_atomic (spec_of o b l) seen mem d old new in
        IsExchanged (spec_of o b l) mem d old new found ⊎ IsRefused (spec_of o b l) mem d found
  exchange bytes = elim (ℕ_discrete (mem byte) (put_bits b lane (seen byte) old)) [
    | yes e ↦ inl (exchange-IsExchanged bytes e)
    | no n ↦ inr (exchange-IsRefused n)
  ]

  unchanged :
      IsBytes seen
      → seen ≡ mem
      → load (spec_of o b l) mem d ≡ old
      → mem byte ≡ put_bits b lane (seen byte) old
  unfolding lane byte
  unchanged bytes same e =
      ap (λ (m : Memory). m byte) (sym same)
      ∙ sym (put_bits-get_bits b _ small (places b _ small) (seen byte) (bytes byte))
      ∙ ap (put_bits b lane (seen byte)) (
          ap (λ (m : Memory). get_bits b lane (m byte)) same
          ∙ sym (load_place o b l mem d small)
          ∙ e)

whole_exchange :
    (spec : SideMetadataSpec) (seen mem : Memory) (d old new : ℕ)
    → 3 ≤ spec.log_num_of_bits
    → let found = compare_exchange_atomic spec seen mem d old new in
      (IsExchanged spec mem d old new found ⊎ IsRefused spec mem d found)
      × (load spec mem d ≡ old → IsExchanged spec mem d old new found)
unfolding compare_exchange_atomic load store
whole_exchange spec seen mem d old new large = elim (ℕ_discrete (load spec mem d) old) [
  | yes e ↦ (inl (ground arith), λ h. ground arith)
  | no n ↦ (inr (ground arith), λ h. absurd (n h))
]

-- For bytes in the memory that the call loads from, and an expected value that fits the metadata:
-- either the memory held the expected value at the exchange, and then the call returns it as a
-- success, and leaves the memory that a store of the new value leaves; or the call returns what the
-- memory held as a failure, and changes nothing. When no other thread wrote in between and the
-- memory holds the expected value, it succeeds.
pub compare_exchange_atomic_lem :
    (spec : SideMetadataSpec) (seen mem : Memory) (d old new : ℕ)
    → IsBytes seen
    → old < values spec
    → (IsExchanged spec mem d old new (compare_exchange_atomic spec seen mem d old new)
        ⊎ IsRefused spec mem d (compare_exchange_atomic spec seen mem d old new))
      × (seen ≡ mem
          → load spec mem d ≡ old
          → IsExchanged spec mem d old new (compare_exchange_atomic spec seen mem d old new))
compare_exchange_atomic_lem spec seen mem d old new bytes hold =
    elim (dec_lt spec.log_num_of_bits 3) [
      | yes small ↦ (
        exchange o b l seen mem small d old new hold bytes,
        λ same e.
            exchange-IsExchanged o b l seen mem small d old new hold bytes
              (unchanged o b l seen mem small d old new hold bytes same e),
      )
      | no large ↦
          let whole = whole_exchange spec seen mem d old new (omega arith) in
          (whole.0, λ same e. whole.1 e)
    ]
  where
    o : ℕ
    o = spec.offset

    b : ℕ
    b = spec.log_num_of_bits

    l : ℕ
    l = spec.log_bytes_in_region
