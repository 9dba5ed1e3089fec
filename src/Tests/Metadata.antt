-- ===== src/Tests/Metadata.antt =====
-- Side metadata of two bits for each eight bytes, and of sixteen bits for each page, at concrete
-- addresses, for src/util/metadata/side_metadata.
use mmtk_core.Base.{◌+◌, ◌-◌, ◌*◌, ◌^◌, ◌≡◌, ◌⊎◌, refl, ◌==◌, if◌then◌else◌, arith}
use mmtk_core.Metadata.Spec.{
  SideMetadataSpec, IsRegular, region, contiguous_meta_address_to_address, address_to_meta_address,
  address_to_contiguous_meta_address, meta_byte_lshift, meta_byte_mask,
}
use mmtk_core.Metadata.Spec.Translate.{address-meta_address}
use mmtk_core.Metadata.Access.{
  Memory, load, store, values, load_value, store_value, compare_exchange_atomic,
}
use mmtk_core.Metadata.Access.Region.{load-store}
use mmtk_core.Metadata.Access.Update.{IsFetchedLike, fetch_atomic-IsFetchedLike}
use mmtk_core.Metadata.Access.Exchange.{IsExchanged, IsRefused, compare_exchange_atomic_lem}
use mmtk_core.Metadata.Bulk.{bzero_metadata, bset_metadata}
use mmtk_core.Metadata.Bulk.Bits.{within}
use mmtk_core.Metadata.Bulk.Load.{load-bulk_metadata}

abbrev forwarding_bits : SideMetadataSpec
forwarding_bits = record { offset = 1000; log_num_of_bits = 1; log_bytes_in_region = 3 }

abbrev page_counts : SideMetadataSpec
page_counts = record { offset = 4000; log_num_of_bits = 4; log_bytes_in_region = 12 }

abbrev memory : Memory
memory a = 0x5a

forwarding_bits-IsRegular : IsRegular forwarding_bits
forwarding_bits-IsRegular = record { at_most_word = omega arith; at_most_region = omega arith }

stored : load forwarding_bits (store forwarding_bits memory 0x108 3) 0x10f ≡ 3
unfolding load store address_to_meta_address address_to_contiguous_meta_address meta_byte_lshift
    meta_byte_mask
stored = refl

neighbour : load forwarding_bits (store forwarding_bits memory 0x108 3) 0x110 ≡ 1
unfolding load store address_to_meta_address address_to_contiguous_meta_address meta_byte_lshift
    meta_byte_mask
neighbour = refl

counted : load page_counts (store page_counts memory 0x3000 0x1234) 0x3fff ≡ 0x1234
unfolding load store load_value store_value address_to_meta_address
    address_to_contiguous_meta_address
counted = refl

address-meta_address_example :
    contiguous_meta_address_to_address forwarding_bits
      (address_to_meta_address forwarding_bits 0x10b)
      (meta_byte_lshift forwarding_bits 0x10b)
    ≡ region forwarding_bits 0x10b * 2 ^ 3
address-meta_address_example =
    address-meta_address forwarding_bits 0x10b forwarding_bits-IsRegular (omega arith)

load-store_example : load forwarding_bits (store forwarding_bits memory 0x108 3) 0x110 ≡ (
    if region forwarding_bits 0x108 == region forwarding_bits 0x110
    then 3
    else load forwarding_bits memory 0x110)
load-store_example =
    load-store forwarding_bits memory 0x108 0x110 3 forwarding_bits-IsRegular (λ a. omega arith)
      (omega arith) (omega arith) (omega arith)

fetch_atomic-IsFetchedLike_example : IsFetchedLike forwarding_bits memory 0x108 3
fetch_atomic-IsFetchedLike_example =
    fetch_atomic-IsFetchedLike forwarding_bits memory 0x108 3 (λ a. omega arith) (omega arith)

compare_exchange_atomic_lem_example :
    (IsExchanged forwarding_bits memory 0x108 2 3
        (compare_exchange_atomic forwarding_bits memory memory 0x108 2 3)
      ⊎ IsRefused forwarding_bits memory 0x108
          (compare_exchange_atomic forwarding_bits memory memory 0x108 2 3))
    × (memory ≡ memory
        → load forwarding_bits memory 0x108 ≡ 2
        → IsExchanged forwarding_bits memory 0x108 2 3
            (compare_exchange_atomic forwarding_bits memory memory 0x108 2 3))
compare_exchange_atomic_lem_example =
    compare_exchange_atomic_lem forwarding_bits memory memory 0x108 2 3 (λ a. omega arith)
      (omega arith)

load-bulk_metadata_example :
    (load forwarding_bits (bzero_metadata forwarding_bits 0x108 0x40 memory) 0x120 ≡ (
      if within
        (region forwarding_bits 0x108)
        (region forwarding_bits (0x108 + 0x40))
        (region forwarding_bits 0x120)
      then 0
      else load forwarding_bits memory 0x120))
    × (load forwarding_bits (bset_metadata forwarding_bits 0x108 0x40 memory) 0x120 ≡ (
        if within
          (region forwarding_bits 0x108)
          (region forwarding_bits (0x108 + 0x40))
          (region forwarding_bits 0x120)
        then values forwarding_bits - 1
        else load forwarding_bits memory 0x120))
load-bulk_metadata_example =
    load-bulk_metadata forwarding_bits 0x108 0x40 0x120 memory forwarding_bits-IsRegular
      (λ a. omega arith) (omega arith) (omega arith)
