-- ===== src/Metadata/Bulk.antt =====
-- Bulk zeroing and setting of side metadata, src/util/metadata/side_metadata/global.rs, with the memory
-- as the state of the visitor of `break_bit_range`. A call is one step: nothing else writes meanwhile.
pub mod Bits
pub mod Fill
pub mod Agree
pub mod Load
use mmtk_core.Base.{
  ℕ, ◌+◌, ◌-◌, ◌*◌, ◌/◌, ◌%◌, ◌^◌, ◌==◌, leb, ltb, ◌&&◌, Bool, true, false, if◌then◌else◌, update,
}
use Prim.Native.Nat.{bit_and, bit_or}
use mmtk_core.Metadata.Spec.{SideMetadataSpec, address_to_meta_address, meta_byte_lshift}
use mmtk_core.Metadata.Bytes.{shl8, not8}
use mmtk_core.Metadata.Ranges.{BitByteRange, bytes, bits_in_byte, Visitor, break_bit_range}
use mmtk_core.Metadata.Access.{Memory}

abbrev pub u8_max : ℕ
u8_max = 255

-- `u8::MAX.checked_shl(bit_end).unwrap_or(0)`.
abbrev pub ones_from : ℕ → ℕ
ones_from bit_end = if leb 8 bit_end then 0 else shl8 u8_max bit_end

-- `memory::set` of src/util/memory.rs, and `memory::zero`, which calls it.
abbrev pub set_bytes : Memory → (start val len : ℕ) → Memory
set_bytes mem start val len a = if leb start a && ltb a (start + len) then val else mem a

abbrev pub zero_visitor : Visitor Memory
zero_visitor (bytes start end) mem = (set_bytes mem start 0 (end - start), false)
zero_visitor (bits_in_byte addr bit_start bit_end) mem =
    let mask = bit_or (ones_from bit_end) (not8 (shl8 u8_max bit_start)) in
    (update mem addr (bit_and (mem addr) mask), false)

abbrev pub set_visitor : Visitor Memory
set_visitor (bytes start end) mem = (set_bytes mem start 0xff (end - start), false)
set_visitor (bits_in_byte addr bit_start bit_end) mem =
    let mask = bit_and (not8 (ones_from bit_end)) (shl8 u8_max bit_start) in
    (update mem addr (bit_or (mem addr) mask), false)

abbrev pub BitsUpdate : Type 0
BitsUpdate = (meta_start_addr meta_start_bit meta_end_addr meta_end_bit : ℕ) → Memory → Memory

unfoldable pub zero_meta_bits : BitsUpdate
zero_meta_bits sa sb ea eb mem = (break_bit_range sa sb ea eb true zero_visitor mem).0

unfoldable pub set_meta_bits : BitsUpdate
set_meta_bits sa sb ea eb mem = (break_bit_range sa sb ea eb true set_visitor mem).0

-- On a 64-bit machine the metadata is contiguous.
unfoldable pub bulk_update_metadata :
    SideMetadataSpec → (start size : ℕ) → BitsUpdate → Memory → Memory
bulk_update_metadata spec start size update_meta_bits mem =
    if size == 0
    then mem
    else update_meta_bits (address_to_meta_address spec start) (meta_byte_lshift spec start)
        (address_to_meta_address spec (start + size)) (meta_byte_lshift spec (start + size)) mem

unfoldable pub bzero_metadata : SideMetadataSpec → (start size : ℕ) → Memory → Memory
unfolding bulk_update_metadata
bzero_metadata spec start size mem = bulk_update_metadata spec start size zero_meta_bits mem

unfoldable pub bset_metadata : SideMetadataSpec → (start size : ℕ) → Memory → Memory
unfolding bulk_update_metadata
bset_metadata spec start size mem = bulk_update_metadata spec start size set_meta_bits mem
