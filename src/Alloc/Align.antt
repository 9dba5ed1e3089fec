-- ===== src/Alloc/Align.antt =====
-- The alignment of allocations, src/util/alloc/allocator.rs, on a 64-bit machine. A wrapping
-- subtraction is written out.
pub mod Bounds
use mmtk_core.Base.{
  ℕ, zero, suc, ◌+◌, ◌-◌, ◌*◌, ◌/◌, ◌%◌, ◌^◌, leb, ltb, ◌==◌, Bool, ◌||◌, ◌&&◌, not, if◌then◌else◌,
  List, [], ◌∷◌,
}
use Prim.Native.Nat.{bit_and}

-- The constants of a `VMBinding`.
pub record VmBinding : Type 0 where
  pub min_alignment : ℕ
  pub max_alignment : ℕ
  pub alignment_value : ℕ

abbrev pub bytes_in_int : ℕ
bytes_in_int = 4

abbrev pub wrapping_sub : ℕ → ℕ → ℕ
wrapping_sub x y = (x + 2 ^ 64 - y) % 2 ^ 64

-- The addresses that the loop of `fill_alignment_gap` stores the alignment value to; each round
-- fills an int.
unfoldable pub fill_ints : ℕ → (start end : ℕ) → List ℕ
fill_ints zero start end = []
fill_ints (suc rounds) start end =
    let rest = fill_ints rounds (start + bytes_in_int) end in
    if ltb start end then start ∷ rest else []

-- The addresses that are stored to.
unfoldable pub fill_alignment_gap : VmBinding → (start end : ℕ) → List ℕ
fill_alignment_gap vm start end =
    if vm.max_alignment - vm.min_alignment == bytes_in_int
    then (if end - start == 0 then [] else start ∷ [])
    else fill_ints (end - start) start end

-- The number of bytes that are skipped.
unfoldable pub alignment_delta : (region alignment offset : ℕ) → ℕ
alignment_delta region alignment offset =
    let mask = alignment - 1 in
    let neg_off = wrapping_sub 0 offset in bit_and (wrapping_sub neg_off region) mask

-- The aligned address, and the addresses of the gap that are stored to.
unfoldable pub align_allocation_inner :
    VmBinding → (region alignment offset known_alignment : ℕ) → Bool → ℕ × List ℕ
align_allocation_inner vm region alignment offset known_alignment fillalignmentgap =
    let delta = alignment_delta region alignment offset in
    if leb alignment known_alignment || leb vm.max_alignment vm.min_alignment
    then (region, [])
    else (
      region + delta,
      if fillalignmentgap && not (vm.alignment_value == 0)
          then fill_alignment_gap vm region (region + delta)
          else [],
    )

unfoldable pub align_allocation_no_fill : VmBinding → (region alignment offset : ℕ) → ℕ
unfolding align_allocation_inner
align_allocation_no_fill vm region alignment offset =
    (align_allocation_inner vm region alignment offset vm.min_alignment Bool.false).0

unfoldable pub get_maximum_aligned_size_inner : VmBinding → (size alignment known_alignment : ℕ) → ℕ
get_maximum_aligned_size_inner vm size alignment known_alignment =
    if leb vm.max_alignment vm.min_alignment || leb alignment known_alignment
    then size
    else size + alignment - known_alignment

unfoldable pub get_maximum_aligned_size : VmBinding → (size alignment : ℕ) → ℕ
unfolding get_maximum_aligned_size_inner
get_maximum_aligned_size vm size alignment =
    get_maximum_aligned_size_inner vm size alignment vm.min_alignment
