-- ===== src/Tests/Allocators.antt =====
-- A VM with alignments from four to sixteen bytes, for src/util/alloc.
use mmtk_core.Base.{◌+◌, ◌^◌, ◌≤◌, ◌<◌, ◌≡◌, refl, false, List, [], ◌∷◌, arith}
use mmtk_core.Alloc.Align.{
  VmBinding, align_allocation_no_fill, get_maximum_aligned_size, get_maximum_aligned_size_inner,
  align_allocation_inner, alignment_delta,
}
use mmtk_core.Alloc.Align.Bounds.{IsAllowed}
use mmtk_core.Alloc.Bump.{BumpPointer, Space, acquire_block, alloc, whole_blocks}
use mmtk_core.Alloc.Bump.Serve.{IsWithin, acquire_block-IsWithin}
use mmtk_core.Alloc.Bump.Packed.{Request, alloc_all, IsPacked, AreBounded, alloc_all-IsPacked}

abbrev vm : VmBinding
vm = record { min_alignment = 4; max_alignment = 16; alignment_value = 0 }

abbrev heap : Space
heap = record { will_oom_on_acquire = λ size. false; acquire = λ pages. 0x10000 }

abbrev buffer : BumpPointer
buffer = record { cursor = 100; limit = 200 }

abbrev requests : List Request
requests =
    record { size = 24; align = 8; offset = 0 }
    ∷ record { size = 40; align = 16; offset = 4 }
    ∷ record { size = 60; align = 4; offset = 0 }
    ∷ []

packed : alloc_all vm buffer requests ≡ (104, 24) ∷ (140, 40) ∷ []
unfolding alloc_all alloc align_allocation_no_fill align_allocation_inner alignment_delta
packed = refl

block-IsAllowed : IsAllowed vm 2 3 0x10000 0
block-IsAllowed = record {
  smallest = refl;
  largest = omega arith;
  word = omega arith;
  region_word = omega arith;
  offset_word = omega arith;
  region_multiple = omega arith;
  offset_multiple = omega arith;
}

roomy : get_maximum_aligned_size vm 24 (2 ^ 3) ≤ whole_blocks 24
unfolding get_maximum_aligned_size get_maximum_aligned_size_inner
roomy = ground arith

ends : 0x10000 + whole_blocks 24 < 2 ^ 64
ends = omega arith

acquire_block-IsWithin_example :
    IsWithin 0x10000
      (0x10000 + whole_blocks 24)
      24
      (2 ^ 3)
      0
      (acquire_block vm heap buffer 24 (2 ^ 3) 0 false)
acquire_block-IsWithin_example =
    acquire_block-IsWithin vm heap buffer 24 2 3 0 0x10000 false refl refl (λ e. omega (arith, e))
      block-IsAllowed roomy ends

requests-AreBounded : AreBounded vm buffer requests
unfolding align_allocation_no_fill align_allocation_inner alignment_delta
requests-AreBounded = (omega arith, (omega arith, (omega arith, tt)))

alloc_all-IsPacked_example : IsPacked 100 200 (alloc_all vm buffer requests)
alloc_all-IsPacked_example = alloc_all-IsPacked vm buffer requests (omega arith) requests-AreBounded
