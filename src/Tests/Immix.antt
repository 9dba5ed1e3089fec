-- ===== src/Tests/Immix.antt =====
-- The Immix space, src/policy/immix.
use mmtk_core.Base.{
  ℕ, ◌≡◌, ◌≢◌, refl, ◌==◌, if◌then◌else◌, Bool, true, false, some, [], ◌∷◌, not, ◌||◌, ltb, arith,
  count_below,
}
use mmtk_core.Immix.Lines.{
  ImmixSpace, LineTables, is_available, is_dead, advance, find_limit,
  normal_get_next_available_lines, first_free_cursor, rc_get_next_available_lines,
}
use mmtk_core.Immix.Lines.Search.{Searched}
use mmtk_core.Immix.Lines.Normal.{tables_after}
use mmtk_core.Immix.Lines.Normal.Found.{normal_get_next_available_lines_lem}
use mmtk_core.Immix.Lines.Usable.{is_usable, reused}
use mmtk_core.Immix.Lines.Counted.{rc_get_next_available_lines_lem}
use mmtk_core.Immix.Holes.{
  iter_holes, holes_from, calc_dead_lines, calc_holes, has_holes, seek_holes,
}
use mmtk_core.Immix.Holes.Dead.{sum, iter_holes-calc_dead_lines, calc_holes-zero}
use mmtk_core.Immix.Block.{Features, Block, Histogram, Sweep, sweep}
use mmtk_core.Immix.Block.Swept.{swept_block, sweep_lem}
use mmtk_core.Immix.Cycle.{
  Heap, running, prepared, tracing, new, prepare, release, mark_line, Reach, start, later, prepares,
  traces, marks, sweeps,
}
use mmtk_core.Immix.Cycle.Fresh.{Reach-IsFresh}

abbrev eight_lines : ImmixSpace
eight_lines = record {
  lines = 8;
  min_reuse_lines = 2;
  rc_enabled = false;
  cm_enabled = true;
  needs_log_bit = true;
  line_unavail_state = 1;
  line_mark_state = 2;
  cm_in_progress_or_final_mark = true;
  barrier_measurement_no_slow = false;
  compressed_ptr_enabled = true;
  mark_bits_per_line = 32;
}

-- The first, third and sixth lines are marked, or have objects.
abbrev tables : LineTables
tables = record {
  line_marks = λ i. if i == 0 then 1 else if i == 2 then 2 else if i == 5 then 1 else 0;
  ref_counts = λ i. if i == 0 then 3 else if i == 2 then 1 else 0;
  unlog_bits = λ i. 0;
  mark_bits = λ i. 0;
  reused_lines_consumed = 0;
}

hole_found : (normal_get_next_available_lines eight_lines 9 true tables 0).0 ≡ some (3, 5)
unfolding normal_get_next_available_lines advance is_available find_limit
hole_found = refl

dead_found : (rc_get_next_available_lines eight_lines 9 false tables 0).0 ≡ some (4, 8)
unfolding rc_get_next_available_lines first_free_cursor is_dead advance
dead_found = refl

normal_get_next_available_lines_lem_example :
    Searched
      (is_available eight_lines tables.line_marks)
      8
      2
      0
      (normal_get_next_available_lines eight_lines 9 true tables 0).0
    × ((normal_get_next_available_lines eight_lines 9 true tables 0).1
        ≡ tables_after eight_lines true tables 0
            (normal_get_next_available_lines eight_lines 9 true tables 0).0)
normal_get_next_available_lines_lem_example =
    normal_get_next_available_lines_lem eight_lines true 9 tables 0 (omega arith) (omega arith)
      (omega arith)

rc_get_next_available_lines_lem_example :
    Searched
      (is_usable (is_dead tables.ref_counts) 0)
      8
      2
      0
      (rc_get_next_available_lines eight_lines 9 false tables 0).0
    × ((rc_get_next_available_lines eight_lines 9 false tables 0).1
        ≡ reused eight_lines false tables
            (rc_get_next_available_lines eight_lines 9 false tables 0).0)
rc_get_next_available_lines_lem_example =
    rc_get_next_available_lines_lem eight_lines false 9 tables 0 (omega arith) (omega arith)
      (omega arith)

abbrev four_lines : Features
four_lines = record {
  lines = 4;
  block_only = false;
  live_size_based_defrag = false;
  rc_enabled = false;
}

abbrev clean_block : Block
clean_block = record {
  mark = 255;
  defrag_state = 0;
  owner = 0;
  in_place_promoted = 0;
  line_marks = λ i. 0;
}

abbrev no_blocks : Histogram
no_blocks bucket = 0

-- Two lines that are marked.
abbrev traced_block : Block
traced_block =
    mark_line (record { line_mark_state = 2; line_unavail_state = 1 })
      (mark_line (record { line_mark_state = 2; line_unavail_state = 1 }) clean_block 1) 3

sweep_lem_example :
    sweep four_lines traced_block no_blocks (some 2)
    ≡ some (swept_block four_lines traced_block no_blocks 2)
sweep_lem_example = sweep_lem four_lines traced_block no_blocks 2 refl refl

-- A line is marked, the block is swept, and the next collection begins.
abbrev marked_heap : Heap
marked_heap = record {
  states = prepare true new;
  block = mark_line (prepare true new) clean_block 1;
  phase = tracing true;
}

abbrev after_sweep : Sweep
after_sweep = swept_block four_lines marked_heap.block no_blocks 2

swept_live : after_sweep.is_swept ≡ false
unfolding new prepare mark_line count_below
swept_live = refl

swept :
    sweep four_lines marked_heap.block no_blocks (some marked_heap.states.line_mark_state)
    ≡ some after_sweep
unfolding new prepare
swept = sweep_lem four_lines marked_heap.block no_blocks 2 refl refl

Reach-marked_heap : Reach four_lines marked_heap
Reach-marked_heap =
    later (later (later (start clean_block (λ i. refl)) (prepares true refl)) (traces true refl))
      (marks 1 (omega arith) (λ e. cc e) (λ e. cc e))

abbrev next_heap : Heap
next_heap = record {
  states = prepare true (release true (prepare true new));
  block = after_sweep.block;
  phase = prepared true;
}

Reach-next_heap : Reach four_lines next_heap
Reach-next_heap =
    later (later Reach-marked_heap (sweeps true no_blocks after_sweep refl swept swept_live))
      (prepares true refl)

Reach-IsFresh_example :
    (next_heap.phase ≡ prepared true
      → next_heap.block.line_marks 1 ≢ next_heap.states.line_mark_state)
    × (next_heap.phase ≡ running
        → next_heap.states.line_unavail_state ≡ next_heap.states.line_mark_state)
Reach-IsFresh_example = Reach-IsFresh four_lines refl refl Reach-next_heap 1 (omega arith)

-- Dead lines 1, 3, 4, 5 and 6 of seven.
abbrev dead_lines : ℕ → Bool
dead_lines i = not (i == 0 || i == 2)

holes_found : iter_holes dead_lines 7 8 ≡ 1 ∷ 4 ∷ []
unfolding iter_holes holes_from advance
holes_found = refl

iter_holes-calc_dead_lines_example : sum (iter_holes dead_lines 7 8) ≡ calc_dead_lines dead_lines 7
iter_holes-calc_dead_lines_example = iter_holes-calc_dead_lines dead_lines 7 8 (omega arith)

no_hole_counted : calc_holes dead_lines 7 1 8 ≡ some 0
no_hole_counted = calc_holes-zero dead_lines 7 1 8 (omega arith) (omega arith)

-- Of two dead lines at the start, one is counted, though a search finds both.
first_hole_missed : has_holes (λ i. ltb i 2) 8 2 ≡ false
unfolding has_holes seek_holes
first_hole_missed = refl

first_hole_free :
    (rc_get_next_available_lines eight_lines 9 false
      (record tables { ref_counts = λ i. if ltb i 2 then 0 else 1 })
      0).0
    ≡ some (0, 2)
unfolding rc_get_next_available_lines first_free_cursor is_dead advance
first_hole_free = refl

has_holes_there : has_holes (is_dead tables.ref_counts) 8 2 ≡ true
unfolding has_holes seek_holes is_dead
has_holes_there = refl
