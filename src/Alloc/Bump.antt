-- ===== src/Alloc/Bump.antt =====
-- `BumpAllocator` of src/util/alloc/bumpallocator.rs, with the default size of a block. The space is a
-- parameter: what it answers to the calls of one request. A sum that makes a cursor or a limit wraps, as
-- it does in a release build; `align_allocation` and the rounding to blocks do not wrap here.
pub mod Serve
pub mod Packed
use mmtk_core.Base.{
  ℕ, ◌+◌, ◌-◌, ◌*◌, ◌/◌, ◌%◌, ◌^◌, ltb, ◌==◌, Bool, true, false, if◌then◌else◌, List, [], ◌∷◌,
}
use mmtk_core.Alloc.Align.{VmBinding, align_allocation_no_fill, fill_alignment_gap}

abbrev pub bytes_in_page : ℕ
bytes_in_page = 2 ^ 12

abbrev pub block_size : ℕ
block_size = 8 * bytes_in_page

pub record BumpPointer : Type 0 where
  pub cursor : ℕ
  pub limit : ℕ

pub record Space : Type 0 where
  pub will_oom_on_acquire : (size : ℕ) → Bool
  pub acquire : (pages : ℕ) → ℕ

-- What a call comes to: an address, zero for a failure, with the addresses of the gap that were
-- stored to; or another call, of `alloc_slow` or of `acquire_block` under stress.
pub data Allocation : Type 0 where
  done : (result : ℕ) (filled : List ℕ) (bump_pointer : BumpPointer) → Allocation
  alloc_slow : (bump_pointer : BumpPointer) → Allocation
  acquire_again : (bump_pointer : BumpPointer) → Allocation

unfoldable pub alloc : VmBinding → BumpPointer → (size align offset : ℕ) → Allocation
alloc vm p size align offset =
    let result = align_allocation_no_fill vm p.cursor align offset in
    let new_cursor = (result + size) % 2 ^ 64 in
    if ltb p.limit new_cursor
    then alloc_slow p
    else done result (fill_alignment_gap vm p.cursor result) (record p { cursor = new_cursor })

-- `alloc_slow_once_precise_stress` where no poll is needed: the limit is relative to the cursor.
unfoldable pub alloc_precise_stress : VmBinding → BumpPointer → (size align offset : ℕ) → Allocation
alloc_precise_stress vm p size align offset =
    let result = align_allocation_no_fill vm p.cursor align offset in
    let new_cursor = (result + size) % 2 ^ 64 in
    if ltb ((p.cursor + p.limit) % 2 ^ 64) new_cursor
    then acquire_again p
    else done result (fill_alignment_gap vm p.cursor result)
        (record { cursor = new_cursor; limit = p.limit - (new_cursor - p.cursor) })

-- `size` rounded up to whole blocks.
abbrev pub whole_blocks : ℕ → ℕ
whole_blocks size = (size + (block_size - 1)) / block_size * block_size

abbrev pub bytes_to_pages_up : ℕ → ℕ
bytes_to_pages_up bytes = (bytes + (bytes_in_page - 1)) / bytes_in_page

unfoldable pub acquire_block :
    VmBinding → Space → BumpPointer → (size align offset : ℕ) → Bool → Allocation
acquire_block vm space p size align offset stress_test =
    let acquired_start = space.acquire (bytes_to_pages_up (whole_blocks size)) in
    if space.will_oom_on_acquire size
    then done 0 [] p
    else if acquired_start == 0
    then done 0 [] p
    else if stress_test
    then alloc_precise_stress vm (record { cursor = acquired_start; limit = whole_blocks size })
        size align offset
    else alloc vm
        (record { cursor = acquired_start; limit = (acquired_start + whole_blocks size) % 2 ^ 64 })
        size align offset

unfoldable pub alloc_slow_once_precise_stress :
    VmBinding → Space → BumpPointer → (size align offset : ℕ) → (need_poll : Bool) → Allocation
alloc_slow_once_precise_stress vm space p size align offset need_poll =
    let direct = alloc_precise_stress vm p size align offset in
    if need_poll then acquire_block vm space p size align offset true else elim direct [
      | done r filled q ↦ done r filled q
      | alloc_slow q ↦ alloc_slow q
      | acquire_again q ↦ acquire_block vm space q size align offset true
    ]

unfoldable pub alloc_slow_once :
    VmBinding → Space → BumpPointer → (size align offset : ℕ) → Allocation
unfolding acquire_block
alloc_slow_once vm space p size align offset = acquire_block vm space p size align offset false
