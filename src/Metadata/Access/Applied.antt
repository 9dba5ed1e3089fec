-- ===== src/Metadata/Access/Applied.antt =====
-- `fetch_update_atomic` of src/util/metadata/side_metadata/global.rs as a load and a store, and the
-- bounds that its callers need.
use mmtk_core.Base.{
  ℕ, ◌^◌, ◌<◌, ◌≡◌, ◌∙◌, ap, arith, dec_lt, Option, none, some, ltb, Bool-cases, inl, inr, refl,
  false, lt→ltb, ◌≤◌,
}
use native.Mathlib.Nat.{mod-eq_of_lt}
use mmtk_core.Metadata.Spec.{
  SideMetadataSpec, address_to_meta_address, address_to_contiguous_meta_address,
}
use mmtk_core.Metadata.Spec.Translate.{spec_of}
use mmtk_core.Metadata.Bytes.{put_bits-below}
use mmtk_core.Metadata.Access.{
  Memory, load, store, values, bytes_in_value, fetch_ops_on_bits, fetch_update_atomic, ok, err,
}
use mmtk_core.Metadata.Access.Words.{IsBytes, load_value-below, update-IsBytes, store_value-IsBytes}
use mmtk_core.Metadata.Access.Lanes.{byte_of, store_place, places, value_range}
use mmtk_core.Metadata.Access.Update.{load_below, fits, fetch_ops_on_bits-IsFetch, values_small}

pub load-below_values :
    (spec : SideMetadataSpec) (mem : Memory) (d : ℕ)
    → spec.log_num_of_bits ≤ 6
    → IsBytes mem
    → load spec mem d < values spec
unfolding load
load-below_values spec mem d word bytes = elim (dec_lt spec.log_num_of_bits 3) [
  | yes small ↦
      load_below spec.offset spec.log_num_of_bits spec.log_bytes_in_region mem bytes small d
  | no large ↦
      let test : ltb spec.log_num_of_bits 3 ≡ false = ground arith in
      rw (test, ← value_range spec.log_num_of_bits (omega arith) word)
        (load_value-below (bytes_in_value spec) mem (address_to_meta_address spec d) bytes)
]

bits_address :
    (spec : SideMetadataSpec) (d : ℕ)
    → spec.log_num_of_bits < 3
    → address_to_meta_address spec d
      ≡ byte_of spec.offset spec.log_num_of_bits spec.log_bytes_in_region d
unfolding address_to_meta_address address_to_contiguous_meta_address
bits_address spec d small = ground arith

-- An update of less than a byte, by the fetch that leaves the new value.
update_bits :
    (spec : SideMetadataSpec) (mem : Memory) (d : ℕ) (f : ℕ → Option ℕ) (new : ℕ)
    → spec.log_num_of_bits < 3
    → f (load spec mem d) ≡ some new
    → let fetched = fetch_ops_on_bits spec mem d (address_to_meta_address spec d) (λ x. new) in
      fetch_update_atomic spec mem d f ≡ (ok fetched.0, fetched.1)
unfolding fetch_update_atomic load fetch_ops_on_bits
update_bits spec mem d f new small e =
    let test = lt→ltb spec.log_num_of_bits 3 small in rw test (rw (rw test at e) refl)

whole_update :
    (spec : SideMetadataSpec) (mem : Memory) (d : ℕ) (f : ℕ → Option ℕ) (new : ℕ)
    → 3 ≤ spec.log_num_of_bits
    → f (load spec mem d) ≡ some new
    → fetch_update_atomic spec mem d f ≡ (ok (load spec mem d), store spec mem d new)
unfolding fetch_update_atomic load store
whole_update spec mem d f new large e =
    let test : ltb spec.log_num_of_bits 3 ≡ false = ground arith in rw test (rw (rw test at e) refl)

-- An update that is accepted is a store of the new value, and one that is refused changes nothing.
pub fetch_update_atomic-store :
    (spec : SideMetadataSpec) (mem : Memory) (d : ℕ) (f : ℕ → Option ℕ) (new : ℕ)
    → IsBytes mem
    → f (load spec mem d) ≡ some new
    → new < values spec
    → fetch_update_atomic spec mem d f ≡ (ok (load spec mem d), store spec mem d new)
fetch_update_atomic-store spec mem d f new bytes e h = elim (dec_lt spec.log_num_of_bits 3) [
  | yes small ↦
      update_bits spec mem d f new small e
      ∙ ap
          (λ a. (
            ok (fetch_ops_on_bits spec mem d a (λ x. new)).0,
            (fetch_ops_on_bits spec mem d a (λ x. new)).1,
          ))
          (bits_address spec d small)
      ∙ ap (λ (p : ℕ × Memory). (ok p.0, p.1))
          (fits spec mem d _ _ _ (mod-eq_of_lt h) (
            fetch_ops_on_bits-IsFetch spec.offset spec.log_num_of_bits spec.log_bytes_in_region mem
              bytes small d (λ x. new) (values_small spec.log_num_of_bits new small h)))
  | no large ↦ whole_update spec mem d f new (omega arith) e
]

pub fetch_update_atomic-refused :
    (spec : SideMetadataSpec) (mem : Memory) (d : ℕ) (f : ℕ → Option ℕ)
    → f (load spec mem d) ≡ none
    → fetch_update_atomic spec mem d f ≡ (err (load spec mem d), mem)
unfolding fetch_update_atomic load
fetch_update_atomic-refused spec mem d f e = elim (Bool-cases (ltb spec.log_num_of_bits 3)) [
  | inl small ↦ rw small (rw (rw small at e) refl)
  | inr large ↦ rw large (rw (rw large at e) refl)
]

store_bits-IsBytes :
    (o b l : ℕ) (mem : Memory) (d v : ℕ)
    → b < 3
    → IsBytes mem
    → v < 2 ^ (2 ^ b)
    → IsBytes (store (spec_of o b l) mem d v)
store_bits-IsBytes o b l mem d v small bytes h =
    rw (store_place o b l mem d v small)
      (update-IsBytes mem _ _ bytes (put_bits-below b _ small (places b _ small) _ v (bytes _) h))

-- A store of a value that fits keeps the memory a memory of bytes.
pub store-IsBytes :
    (spec : SideMetadataSpec) (mem : Memory) (d v : ℕ)
    → IsBytes mem
    → v < values spec
    → IsBytes (store spec mem d v)
unfolding store
store-IsBytes spec mem d v bytes h = elim (dec_lt spec.log_num_of_bits 3) [
  | yes small ↦
      store_bits-IsBytes spec.offset spec.log_num_of_bits spec.log_bytes_in_region mem d v small
        bytes h
  | no large ↦
      let test : ltb spec.log_num_of_bits 3 ≡ false = ground arith in
      rw test
        (store_value-IsBytes (bytes_in_value spec) mem (address_to_meta_address spec d) v bytes)
]
