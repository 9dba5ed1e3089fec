-- ===== src/Alloc/Bump/Serve.antt =====
-- Objects of a buffer, and requests that a fresh block serves, src/util/alloc/bumpallocator.rs.
use mmtk_core.Base.{ℕ, ◌+◌, ◌^◌, ◌≤◌, ◌<◌, ◌≡◌, ◌≢◌, Bool, true, false, arith}
use mmtk_core.Alloc.Align.{VmBinding, get_maximum_aligned_size}
use mmtk_core.Alloc.Align.Bounds.{IsAligned, IsAllowed, align_allocation_no_fill-IsPlaced}
use mmtk_core.Alloc.Bump.{
  BumpPointer, Space, Allocation, done, alloc_slow, acquire_again, alloc, alloc_precise_stress,
  acquire_block, whole_blocks, bytes_to_pages_up,
}

-- The address at which a call put `size` bytes, all of them between two bounds.
abbrev pub IsWithin : (low high size align offset : ℕ) → Allocation → Type 0
IsWithin low high size align offset (done result filled p) =
    (low ≤ result)
    × (result + size ≤ high)
    × IsAligned result align offset
    × (p.cursor ≡ result + size)
IsWithin low high size align offset (alloc_slow p) = ⊥
IsWithin low high size align offset (acquire_again p) = ⊥

-- Where the space has the memory, gives it at an address that is allowed, and the request with the
-- most that its alignment may skip is no larger than the request rounded up to whole blocks, which end
-- below the last address: `acquire_block` places the object, aligned, in the block that it acquires, under stress or not, and the
-- cursor is then at its end; it neither fails nor takes the slow path again.
pub acquire_block-IsWithin :
    (vm : VmBinding) (space : Space) (p : BumpPointer) (size j k offset start : ℕ)
    (stress_test : Bool)
    → space.will_oom_on_acquire size ≡ false
    → space.acquire (bytes_to_pages_up (whole_blocks size)) ≡ start
    → start ≢ 0
    → IsAllowed vm j k start offset
    → get_maximum_aligned_size vm size (2 ^ k) ≤ whole_blocks size
    → start + whole_blocks size < 2 ^ 64
    → IsWithin start
        (start + whole_blocks size)
        size
        (2 ^ k)
        offset
        (acquire_block vm space p size (2 ^ k) offset stress_test)
unfolding acquire_block alloc alloc_precise_stress
acquire_block-IsWithin vm space p size j k offset start true roomy e some h fits ends =
    let placed = align_allocation_no_fill-IsPlaced vm j k start offset size h in
    rw (roomy, e) (ground (arith, placed, fits, ends))
acquire_block-IsWithin vm space p size j k offset start false roomy e some h fits ends =
    let placed = align_allocation_no_fill-IsPlaced vm j k start offset size h in
    rw (roomy, e) (ground (arith, placed, fits, ends))
