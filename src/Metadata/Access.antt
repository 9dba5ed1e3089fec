-- ===== src/Metadata/Access.antt =====
-- Loads, stores and updates of side metadata, src/util/metadata/side_metadata/global.rs. The memory is
-- a function from addresses to bytes, and a value of several bytes has its lowest byte first. An atomic
-- operation is one step, and has the result and the memory after it as its value. The checks that the
-- feature `extreme_assertions` adds change no metadata, and are left out.
pub mod Words
pub mod Lanes
pub mod Region
pub mod Update
pub mod Applied
pub mod Exchange
use mmtk_core.Base.{
  ℕ, zero, suc, ◌+◌, ◌-◌, ◌*◌, ◌/◌, ◌%◌, ◌^◌, ◌==◌, leb, ltb, if◌then◌else◌, Option, none, some,
  update,
}
use Prim.Native.Nat.{bit_and, bit_or}
use mmtk_core.Metadata.Spec.{
  SideMetadataSpec, address_to_contiguous_meta_address, address_to_meta_address, meta_byte_lshift,
  meta_byte_mask,
}
use mmtk_core.Metadata.Bytes.{shl8, not8, shifted_mask, get_bits, put_bits, put_masked}

abbrev pub Memory : Type 0
Memory = ℕ → ℕ

-- A value of `n` bytes.
unfoldable pub load_value : ℕ → Memory → ℕ → ℕ
load_value zero mem addr = 0
load_value (suc n) mem addr = mem addr + 2 ^ 8 * load_value n mem (addr + 1)

unfoldable pub store_value : ℕ → Memory → ℕ → ℕ → Memory
store_value zero mem addr value = mem
store_value (suc n) mem addr value =
    update (store_value n mem (addr + 1) (value / 2 ^ 8)) addr (value % 2 ^ 8)

-- The type `T` of a value of at least a byte.
abbrev pub bytes_in_value : SideMetadataSpec → ℕ
bytes_in_value spec = 2 ^ (spec.log_num_of_bits - 3)

abbrev pub values : SideMetadataSpec → ℕ
values spec = 2 ^ (2 ^ spec.log_num_of_bits)

unfoldable pub load : SideMetadataSpec → Memory → ℕ → ℕ
unfolding address_to_meta_address address_to_contiguous_meta_address meta_byte_lshift
load spec mem data_addr =
    let meta_addr = address_to_meta_address spec data_addr in
    if ltb spec.log_num_of_bits 3
    then get_bits spec.log_num_of_bits (meta_byte_lshift spec data_addr) (mem meta_addr)
    else load_value (bytes_in_value spec) mem meta_addr

unfoldable pub store : SideMetadataSpec → Memory → ℕ → ℕ → Memory
store spec mem data_addr metadata =
    let meta_addr = address_to_meta_address spec data_addr in
    let lshift = meta_byte_lshift spec data_addr in
    if ltb spec.log_num_of_bits 3
    then update mem meta_addr (put_bits spec.log_num_of_bits lshift (mem meta_addr) metadata)
    else store_value (bytes_in_value spec) mem meta_addr metadata

-- Zero in the type for the size; none where no type has that size.
unfoldable pub set_zero : SideMetadataSpec → Memory → ℕ → Option Memory
set_zero spec mem data_addr =
    if leb spec.log_num_of_bits 6 then some (store spec mem data_addr 0) else none

-- The old value and the new memory.
unfoldable pub fetch_ops_on_bits : SideMetadataSpec → Memory → ℕ → ℕ → (ℕ → ℕ) → ℕ × Memory
fetch_ops_on_bits spec mem data_addr meta_addr f =
    let lshift = meta_byte_lshift spec data_addr in
    let old_val = get_bits spec.log_num_of_bits lshift (mem meta_addr) in
    (
      old_val,
      update mem meta_addr (put_masked spec.log_num_of_bits lshift (mem meta_addr) (f old_val)),
    )

-- A read, a change and a write of a whole value in one step.
unfoldable pub fetch_value : SideMetadataSpec → Memory → ℕ → (ℕ → ℕ) → ℕ × Memory
fetch_value spec mem meta_addr f =
    let old_val = load_value (bytes_in_value spec) mem meta_addr in
    (old_val, store_value (bytes_in_value spec) mem meta_addr (f old_val))

unfoldable pub fetch_add_atomic : SideMetadataSpec → Memory → ℕ → ℕ → ℕ × Memory
fetch_add_atomic spec mem data_addr val =
    let meta_addr = address_to_meta_address spec data_addr in
    if ltb spec.log_num_of_bits 3
    then fetch_ops_on_bits spec mem data_addr meta_addr (λ x. (x + val) % 2 ^ 8)
    else fetch_value spec mem meta_addr (λ x. (x + val) % values spec)

unfoldable pub fetch_sub_atomic : SideMetadataSpec → Memory → ℕ → ℕ → ℕ × Memory
fetch_sub_atomic spec mem data_addr val =
    let meta_addr = address_to_meta_address spec data_addr in
    if ltb spec.log_num_of_bits 3
    then fetch_ops_on_bits spec mem data_addr meta_addr (λ x. (x + 2 ^ 8 - val) % 2 ^ 8)
    else fetch_value spec mem meta_addr (λ x. (x + values spec - val) % values spec)

unfoldable pub fetch_and_atomic : SideMetadataSpec → Memory → ℕ → ℕ → ℕ × Memory
fetch_and_atomic spec mem data_addr val =
    let meta_addr = address_to_meta_address spec data_addr in
    let lshift = meta_byte_lshift spec data_addr in
    let rhs = bit_or (shl8 val lshift) (not8 (shifted_mask spec.log_num_of_bits lshift)) in
    if ltb spec.log_num_of_bits 3
    then (
      get_bits spec.log_num_of_bits lshift (mem meta_addr),
      update mem meta_addr (bit_and (mem meta_addr) rhs),
    )
    else fetch_value spec mem meta_addr (λ x. bit_and x val)

unfoldable pub fetch_or_atomic : SideMetadataSpec → Memory → ℕ → ℕ → ℕ × Memory
fetch_or_atomic spec mem data_addr val =
    let meta_addr = address_to_meta_address spec data_addr in
    let lshift = meta_byte_lshift spec data_addr in
    let rhs = bit_and (shl8 val lshift) (shifted_mask spec.log_num_of_bits lshift) in
    if ltb spec.log_num_of_bits 3
    then (
      get_bits spec.log_num_of_bits lshift (mem meta_addr),
      update mem meta_addr (bit_or (mem meta_addr) rhs),
    )
    else fetch_value spec mem meta_addr (λ x. bit_or x val)

-- What an exchange that may fail found.
pub data Exchanged : Type 0 where
  ok : (old : ℕ) → Exchanged
  err : (old : ℕ) → Exchanged

-- Other threads may run between the load of the byte and the exchange: `seen` is the memory at the
-- load, `mem` the memory at the exchange.
unfoldable pub compare_exchange_atomic :
    SideMetadataSpec
    → (seen mem : Memory) → (data_addr old_metadata new_metadata : ℕ) → Exchanged × Memory
compare_exchange_atomic spec seen mem data_addr old_metadata new_metadata =
    let meta_addr = address_to_meta_address spec data_addr in
    let b = spec.log_num_of_bits in
    let lshift = meta_byte_lshift spec data_addr in
    let expected_old_byte = put_bits b lshift (seen meta_addr) old_metadata in
    let expected_new_byte = put_bits b lshift expected_old_byte new_metadata in
    let old_val = load_value (bytes_in_value spec) mem meta_addr in
    if ltb b 3
    then (if mem meta_addr == expected_old_byte
        then (ok (get_bits b lshift (mem meta_addr)), update mem meta_addr expected_new_byte)
        else (err (get_bits b lshift (mem meta_addr)), mem))
    else if old_val == old_metadata
    then (ok old_val, store_value (bytes_in_value spec) mem meta_addr new_metadata)
    else (err old_val, mem)

-- What an update of a value comes to, when the function has refused or has a new value.
unfoldable pub fetch_updated : (old : ℕ) → Memory → (ℕ → Memory) → Option ℕ → Exchanged × Memory
fetch_updated old mem write none = (err old, mem)
fetch_updated old mem write (some new) = (ok old, write new)

-- An update by a function that may refuse the old value. It is retried when other threads interfere,
-- and its last try is one step.
unfoldable pub fetch_update_atomic :
    SideMetadataSpec → Memory → ℕ → (ℕ → Option ℕ) → Exchanged × Memory
unfolding fetch_updated
fetch_update_atomic spec mem data_addr f =
    let meta_addr = address_to_meta_address spec data_addr in
    let b = spec.log_num_of_bits in
    let lshift = meta_byte_lshift spec data_addr in
    let old_bits = get_bits b lshift (mem meta_addr) in
    let old_val = load_value (bytes_in_value spec) mem meta_addr in
    if ltb b 3
    then fetch_updated old_bits mem
        (λ new. update mem meta_addr (put_masked b lshift (mem meta_addr) new)) (f old_bits)
    else fetch_updated old_val mem (store_value (bytes_in_value spec) mem meta_addr) (f old_val)
