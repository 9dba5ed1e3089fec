-- ===== src/FreeList/Initialize.antt =====
-- `set_sentinel` and `initialize_heap` of src/util/freelist.rs, and `IntArrayFreeList::new` of
-- src/util/int_array_freelist.rs. The loop over grains runs `units / grain` rounds.
pub mod Blocks
pub mod New
use mmtk_core.Base.{ℕ, zero, suc, ◌+◌, ◌-◌, ◌*◌, ◌/◌, ◌%◌, ◌^◌, ltb, if◌then◌else◌}
use mmtk_core.FreeList.{
  IntArrayFreeList, low_bits, set_lo_entry, set_hi_entry, set_size, add_to_free,
}

unfoldable pub set_sentinel : IntArrayFreeList → ℕ → IntArrayFreeList
set_sentinel f unit = set_hi_entry (set_lo_entry f unit (low_bits unit)) unit (low_bits unit)

-- The sentinels of the first `n` heads; that of the head `i` is the unit `-i`.
unfoldable pub set_head_sentinels : ℕ → IntArrayFreeList → IntArrayFreeList
set_head_sentinels zero f = f
set_head_sentinels (suc n) f = set_sentinel (set_head_sentinels n f) (2 ^ 32 - suc n)

unfoldable pub add_block : IntArrayFreeList → (cursor size : ℕ) → IntArrayFreeList
add_block f cursor size = add_to_free (set_size f cursor size) cursor

-- The loop over the grains, from the last to the first.
unfoldable pub add_grains : ℕ → IntArrayFreeList → ℕ → IntArrayFreeList
add_grains zero f grain = f
add_grains (suc rounds) f grain = add_grains rounds (add_block f (rounds * grain) grain) grain

unfoldable pub initialize_heap : IntArrayFreeList → (units grain : ℕ) → IntArrayFreeList
initialize_heap f units grain =
    let f₁ = set_sentinel (set_head_sentinels f.heads f) units in
    let offset = units % grain in
    let f₂ = if ltb 0 offset then add_block f₁ (units - offset) offset else f₁ in
    add_grains (units / grain) f₂ grain

-- The table is zero at first.
unfoldable pub new : (units grain heads : ℕ) → IntArrayFreeList
new units grain heads =
    initialize_heap (record { head = 2 ^ 32 - 1; heads = heads; table = λ i. 0 }) units grain
