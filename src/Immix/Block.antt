-- ===== src/Immix/Block.antt =====
-- The state of a block and its sweep, src/policy/immix/block.rs. A block has a byte in each side table
-- and a mark for each line. `lines` is `Block::LINES`. A panic is `none`.
pub mod States
pub mod Tallied
pub mod Swept
use mmtk_core.Base.{
  ℕ, zero, suc, ◌+◌, ◌-◌, ◌/◌, ◌%◌, ◌==◌, ltb, min, if◌then◌else◌, Bool, true, false, not, Option,
  none, some, update,
}

pub data BlockState : Type 0 where
  unallocated : BlockState
  unmarked : BlockState
  marked : BlockState
  reusable : (unavailable_lines : ℕ) → BlockState

unfoldable pub from_u8 : ℕ → BlockState
from_u8 state =
    if state == 0
    then unallocated
    else if state == 255
    then unmarked
    else if state == 254
    then marked
    else reusable state

unfoldable pub to_u8 : BlockState → Option ℕ
to_u8 unallocated = some 0
to_u8 unmarked = some 255
to_u8 marked = some 254
to_u8 (reusable unavailable_lines) =
    if unavailable_lines == 0 then none else some (min unavailable_lines 251)

-- How the program is built.
pub record Features : Type 0 where
  pub lines : ℕ
  pub block_only : Bool
  pub live_size_based_defrag : Bool
  pub rc_enabled : Bool

pub record Block : Type 0 where
  pub mark : ℕ
  pub defrag_state : ℕ
  pub owner : ℕ
  pub in_place_promoted : ℕ
  pub line_marks : ℕ → ℕ

unfoldable pub set_state : Block → BlockState → Option Block
set_state b state = elim (to_u8 state) [ none ↦ none | some byte ↦ some (record b { mark = byte }) ]

unfoldable pub get_state : Block → BlockState
get_state b = from_u8 b.mark

unfoldable pub set_as_defrag_source : Block → Bool → Block
set_as_defrag_source b defrag = record b { defrag_state = if defrag then 255 else 0 }

unfoldable pub is_defrag_source : Block → Bool
is_defrag_source b = not (b.defrag_state == 0)

unfoldable pub set_holes : Block → ℕ → Block
set_holes b holes = record b { defrag_state = holes % 256 }

unfoldable pub get_holes : Block → ℕ
get_holes b = b.defrag_state

-- The state `Unallocated` is the byte 0.
unfoldable pub deinit : Features → Block → Block
unfolding set_as_defrag_source
deinit c b =
    let freed = record b { mark = 0 } in
    if c.rc_enabled
    then set_as_defrag_source (record freed { in_place_promoted = 0; owner = 0 }) false
    else freed

abbrev pub max_mark_state : ℕ
max_mark_state = 127

-- What the loop over the lines of a block has counted, and the marks that it leaves.
pub record Tally : Type 0 where
  pub marked_lines : ℕ
  pub holes : ℕ
  pub prev_line_is_marked : Bool
  pub line_marks : ℕ → ℕ

unfoldable pub sweep_line : ℕ → ℕ → Tally → Tally
sweep_line line_mark_state i t =
    if t.line_marks i == line_mark_state
    then record t { marked_lines = t.marked_lines + 1; prev_line_is_marked = true }
    else record t {
      holes = if t.prev_line_is_marked then t.holes + 1 else t.holes;
      prev_line_is_marked = false;
      line_marks =
          if ltb (max_mark_state - 2) line_mark_state
          then update t.line_marks i 0
          else t.line_marks;
    }

unfoldable pub sweep_lines : ℕ → (rounds i : ℕ) → Tally → Tally
sweep_lines line_mark_state zero i t = t
sweep_lines line_mark_state (suc rounds) i t =
    sweep_lines line_mark_state rounds (i + 1) (sweep_line line_mark_state i t)

abbrev pub Histogram : Type 0
Histogram = ℕ → ℕ

unfoldable pub num_bins : Features → ℕ
num_bins c = if c.live_size_based_defrag then c.lines + 1 else c.lines / 2 + 1

-- An index outside the array is a panic.
unfoldable pub add_to_histogram :
    Features → Histogram → (bucket marked_lines : ℕ) → Option Histogram
add_to_histogram c h bucket marked_lines =
    if ltb bucket (num_bins c) then some (update h bucket (h bucket + marked_lines)) else none

-- The block and the histogram after the sweep, and whether the block is swept.
pub record Sweep : Type 0 where
  pub block : Block
  pub mark_histogram : Histogram
  pub is_swept : Bool

unfoldable pub keep_live : Features → Block → Histogram → Tally → Option Sweep
keep_live c b h t =
    let state =
      if not (t.marked_lines == c.lines) then reusable (min t.marked_lines 255) else unmarked in
    let bucket = if c.live_size_based_defrag then c.lines - t.marked_lines else t.holes in
    elim (set_state b state) [
      | none ↦ none
      | some b' ↦ elim (add_to_histogram c h bucket t.marked_lines) [
        | none ↦ none
        | some h' ↦
            some (record { block = set_holes b' bucket; mark_histogram = h'; is_swept = false })
      ]
    ]

unfoldable pub sweep_by_lines : Features → Block → Histogram → ℕ → Option Sweep
sweep_by_lines c b h line_mark_state =
    let t = sweep_lines line_mark_state c.lines 0 (record {
      marked_lines = 0;
      holes = 0;
      prev_line_is_marked = true;
      line_marks = b.line_marks;
    }) in
    let b' = record b { line_marks = t.line_marks } in
    if t.marked_lines == 0
    then some (record { block = deinit c b'; mark_histogram = h; is_swept = true })
    else keep_live c b' h t

unfoldable pub sweep_block_only : Block → Histogram → BlockState → Option Sweep
sweep_block_only b h unallocated = some (record { block = b; mark_histogram = h; is_swept = false })
sweep_block_only b h unmarked = none
sweep_block_only b h marked = some (record { block = b; mark_histogram = h; is_swept = false })
sweep_block_only b h (reusable unavailable_lines) = none

unfoldable pub sweep : Features → Block → Histogram → (line_mark_state : Option ℕ) → Option Sweep
sweep c b h line_mark_state =
    let b' = set_as_defrag_source b false in
    if c.block_only
    then sweep_block_only b' h (get_state b')
    else elim line_mark_state [ none ↦ none | some state ↦ sweep_by_lines c b' h state ]
