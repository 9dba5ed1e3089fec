-- ===== src/Immix/Cycle.antt =====
-- The cycle of mark states over collections, `prepare` and `release` of src/policy/immix/immixspace.rs
-- with the sweep of a block of src/policy/immix/block.rs, for one block that stays allocated. A build
-- with lines and without reference counting.
pub mod Fresh
use mmtk_core.Base.{
  ℕ, ◌+◌, ◌<◌, ◌≡◌, ◌≢◌, ltb, if◌then◌else◌, Bool, true, false, Option, some, update,
}
use mmtk_core.Immix.Block.{Features, Block, Histogram, Sweep, sweep, max_mark_state}

abbrev pub reset_mark_state : ℕ
reset_mark_state = 1

-- The states of the space that collections change.
pub record MarkStates : Type 0 where
  pub line_mark_state : ℕ
  pub line_unavail_state : ℕ

unfoldable pub new : MarkStates
new = record { line_mark_state = reset_mark_state; line_unavail_state = reset_mark_state }

unfoldable pub prepare : Bool → MarkStates → MarkStates
prepare major_gc s =
    let next = s.line_mark_state + 1 in
    if major_gc
    then record s { line_mark_state = if ltb max_mark_state next then reset_mark_state else next }
    else s

unfoldable pub release : Bool → MarkStates → MarkStates
release major_gc s = if major_gc then record s { line_unavail_state = s.line_mark_state } else s

-- A line is marked in the current state.
unfoldable pub mark_line : MarkStates → Block → ℕ → Block
mark_line s b i = record b { line_marks = update b.line_marks i s.line_mark_state }

-- What a space with one block is doing.
pub data Phase : Type 0 where
  running : Phase
  prepared : (major_gc : Bool) → Phase
  tracing : (major_gc : Bool) → Phase

pub record Heap : Type 0 where
  pub states : MarkStates
  pub block : Block
  pub phase : Phase

-- Lines are marked while a collection traces, and, with concurrent marking, while mutators reuse
-- them. A sweep that releases the block is no step: the marks of a released block stay, and what
-- becomes of them when it is allocated again is not modelled.
pub data Step (c : Features) : Heap → Heap → Type 0 where
  prepares :
      (major_gc : Bool) {h : Heap}
      → h.phase ≡ running
      → Step c h (record h { states = prepare major_gc h.states; phase = prepared major_gc })
  traces :
      (major_gc : Bool) {h : Heap}
      → h.phase ≡ prepared major_gc
      → Step c h (record h { phase = tracing major_gc })
  marks :
      (i : ℕ) {h : Heap}
      → i < c.lines
      → h.phase ≢ prepared true
      → h.phase ≢ prepared false
      → Step c h (record h { block = mark_line h.states h.block i })
  sweeps :
      (major_gc : Bool) (histogram : Histogram) (s : Sweep) {h : Heap}
      → h.phase ≡ tracing major_gc
      → sweep c h.block histogram (some h.states.line_mark_state) ≡ some s
      → s.is_swept ≡ false
      → Step c h (record { states = release major_gc h.states; block = s.block; phase = running })

pub data Reach (c : Features) : Heap → Type 0 where
  start :
      (b : Block)
      → ((i : ℕ) → b.line_marks i ≡ 0)
      → Reach c (record { states = new; block = b; phase = running })
  later : {h h' : Heap} → Reach c h → Step c h h' → Reach c h'
