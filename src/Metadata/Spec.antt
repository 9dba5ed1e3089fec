-- ===== src/Metadata/Spec.antt =====
-- `SideMetadataSpec` and the translation between data addresses and metadata addresses, of
-- src/util/metadata/side_metadata/global.rs and helpers.rs, on a 64-bit machine, where all side
-- metadata is contiguous. Addresses are numbers; a shift to the left loses the bits above 2 ^ 64.
pub mod Translate
use mmtk_core.Base.{ℕ, ◌+◌, ◌-◌, ◌*◌, ◌/◌, ◌%◌, ◌^◌, ◌≤◌, leb, ltb, if◌then◌else◌}

pub record SideMetadataSpec : Type 0 where
  pub offset : ℕ
  pub log_num_of_bits : ℕ
  pub log_bytes_in_region : ℕ

abbrev pub log_bits_in_byte : ℕ
log_bits_in_byte = 3

abbrev pub shl : ℕ → ℕ → ℕ
shl x n = x * 2 ^ n % 2 ^ 64

abbrev pub shr : ℕ → ℕ → ℕ
shr x n = x / 2 ^ n

-- The region that an address lies in.
abbrev pub region : SideMetadataSpec → ℕ → ℕ
region spec data_addr = shr data_addr spec.log_bytes_in_region

unfoldable pub address_to_contiguous_meta_address : SideMetadataSpec → ℕ → ℕ
address_to_contiguous_meta_address spec data_addr =
    if leb spec.log_num_of_bits log_bits_in_byte
    then spec.offset + shr (region spec data_addr) (log_bits_in_byte - spec.log_num_of_bits)
    else spec.offset + shl (region spec data_addr) (spec.log_num_of_bits - log_bits_in_byte)

unfoldable pub address_to_meta_address : SideMetadataSpec → ℕ → ℕ
unfolding address_to_contiguous_meta_address
address_to_meta_address spec data_addr = address_to_contiguous_meta_address spec data_addr

unfoldable pub contiguous_meta_address_to_address : SideMetadataSpec → ℕ → ℕ → ℕ
contiguous_meta_address_to_address spec metadata_addr bit =
    let relative_meta_addr = metadata_addr - spec.offset in
    let data_addr_intermediate =
      if leb spec.log_num_of_bits log_bits_in_byte
      then shl relative_meta_addr (log_bits_in_byte - spec.log_num_of_bits)
      else shr relative_meta_addr (spec.log_num_of_bits - log_bits_in_byte) in
    let data_addr_bit_shift =
      if leb spec.log_num_of_bits log_bits_in_byte
      then spec.log_bytes_in_region - spec.log_num_of_bits
      else spec.log_bytes_in_region in
    shl data_addr_intermediate spec.log_bytes_in_region + shl bit data_addr_bit_shift

unfoldable pub align_metadata_address : SideMetadataSpec → ℕ → ℕ → ℕ × ℕ
align_metadata_address spec metadata_addr bit =
    if leb log_bits_in_byte spec.log_num_of_bits
    then (
      shl (shr metadata_addr (spec.log_num_of_bits - log_bits_in_byte))
          (spec.log_num_of_bits - log_bits_in_byte),
      0,
    )
    else (metadata_addr, shl (shr bit spec.log_num_of_bits) spec.log_num_of_bits)

unfoldable pub meta_byte_lshift : SideMetadataSpec → ℕ → ℕ
meta_byte_lshift spec data_addr =
    let rem_shift = 64 - (log_bits_in_byte - spec.log_num_of_bits) in
    if leb 3 spec.log_num_of_bits
    then 0
    else shl (shr (shl (region spec data_addr) rem_shift) rem_shift) spec.log_num_of_bits % 2 ^ 8

unfoldable pub meta_byte_mask : ℕ → ℕ
meta_byte_mask bits_num_log = (2 ^ (2 ^ bits_num_log) - 1) % 2 ^ 8

-- A value has at most 64 bits, and no more bits than its region has bytes.
pub record IsRegular (spec : SideMetadataSpec) : Type 0 where
  pub at_most_word : spec.log_num_of_bits ≤ 6
  pub at_most_region : spec.log_num_of_bits ≤ spec.log_bytes_in_region
