-- ===== src/Immix/Block/Swept.antt =====
-- What `sweep` does to a block with lines.
use mmtk_core.Base.{
  ℕ, zero, suc, ◌+◌, ◌-◌, ◌%◌, ◌≤◌, ◌<◌, ◌≡◌, refl, ◌∙◌, ◌==◌, ltb, min, inl, inr, if◌then◌else◌,
  Bool, true, false, not, ◌||◌, some, Bool-cases, arith, update, count_below,
}
use mmtk_core.Immix.Block.{
  Features, Block, Histogram, Sweep, num_bins, add_to_histogram, keep_live, sweep_by_lines, sweep,
  reusable, unmarked, to_u8, set_state, set_holes, set_as_defrag_source, deinit,
}
use mmtk_core.Immix.Block.Tallied.{
  is_marked, marked_below, holes_below, marks_left, tally, sweep_lines_lem,
}

-- The byte for the state of a block with some marked lines.
abbrev pub state_byte : Features → ℕ → ℕ
state_byte c marked_lines = if marked_lines == c.lines then 255 else min marked_lines 251

-- The block after its sweep, and the histogram.
abbrev pub swept_block : Features → Block → Histogram → ℕ → Sweep
swept_block c b h line_mark_state =
    let m = marked_below line_mark_state b.line_marks c.lines in
    let bucket =
      if c.live_size_based_defrag
      then c.lines - m
      else holes_below line_mark_state b.line_marks c.lines in
    let left = marks_left line_mark_state b.line_marks c.lines in
    if m == 0
    then record {
      block = deinit c (record b { defrag_state = 0; line_marks = left });
      mark_histogram = h;
      is_swept = true;
    }
    else record {
      block = record b { mark = state_byte c m; defrag_state = bucket % 256; line_marks = left };
      mark_histogram = update h bucket (h bucket + m);
      is_swept = false;
    }

module _ (line_mark_state : ℕ) (marks : ℕ → ℕ) where
  -- Between two holes there is a marked line.
  holes_bound :
      (n : ℕ)
      → (holes_below line_mark_state marks n
          ≤ marked_below line_mark_state marks n
            + (if n == 0 || is_marked line_mark_state marks (n - 1) then 0 else 1))
        × (holes_below line_mark_state marks n + marked_below line_mark_state marks n ≤ n)
  unfolding count_below
  holes_bound zero = (omega arith, omega arith)
  holes_bound (suc n) =
      let back : suc n - 1 ≡ n = omega arith in
      let ih = holes_bound n in
      rw back (elim (Bool-cases (is_marked line_mark_state marks n)) [
        | inl h ↦ rw h (ground (arith, ih.0, ih.1), ground (arith, ih.1))
        | inr h ↦ rw h (ground (arith, ih.0, ih.1), ground (arith, ih.1))
      ])

module _ (c : Features) (b : Block) (h : Histogram) (line_mark_state : ℕ) where
  m : ℕ
  m = marked_below line_mark_state b.line_marks c.lines

  bucket : ℕ
  unfolding m
  bucket =
      if c.live_size_based_defrag
      then c.lines - m
      else holes_below line_mark_state b.line_marks c.lines

  within : (even : c.lines % 2 ≡ 0) → ltb bucket (num_bins c) ≡ true
  unfolding bucket num_bins m
  within even = elim (Bool-cases c.live_size_based_defrag) [
    | inl on ↦ rw on (ground arith)
    | inr off ↦
        let bound = holes_bound line_mark_state b.line_marks c.lines in
        rw off (ground (arith, bound.0, bound.1))
  ]

  live_state :
      0 < m
      → to_u8 (if not (m == c.lines) then reusable (min m 255) else unmarked)
        ≡ some (state_byte c m)
  unfolding to_u8
  live_state more = ground arith

  emptied : Block
  emptied = record b {
    defrag_state = 0;
    line_marks = marks_left line_mark_state b.line_marks c.lines;
  }

  state_set :
      0 < m
      → set_state emptied (if not (m == c.lines) then reusable (min m 255) else unmarked)
        ≡ some (record emptied { mark = state_byte c m })
  unfolding set_state
  state_set more = rw (live_state more, set_state)

  added : c.lines % 2 ≡ 0 → add_to_histogram c h bucket m ≡ some (update h bucket (h bucket + m))
  unfolding add_to_histogram
  added even = rw (within even)

  kept :
      0 < m
      → c.lines % 2 ≡ 0
      → keep_live c emptied h (tally line_mark_state b.line_marks c.lines)
        ≡ some (record {
          block = set_holes (record emptied { mark = state_byte c m }) bucket;
          mark_histogram = update h bucket (h bucket + m);
          is_swept = false;
        })
  unfolding keep_live bucket m
  kept more even = rw (state_set more, keep_live) (rw (added even, keep_live) refl)

  branch {ℓ} : {A : Type ℓ} (test : Bool) (x y : A) → test ≡ false → (if test then x else y) ≡ y
  branch test x y e = rw e

  -- For a program with lines, an even number of them to a block: `sweep` does not panic, whatever
  -- the marks of lines are. The block is swept exactly when no line has the mark; then it is
  -- released, and the histogram is as before. Otherwise its state says that all lines are marked, or
  -- how many are, but at most 251; it records the number of its holes, or with
  -- `ix_live_size_based_defrag` of its lines without the mark, modulo 256; and the histogram has its
  -- marked lines added at that number, which is not reduced. Lines with another
  -- mark are cleared in the last two mark states, and no other mark changes.
  pub sweep_lem :
      c.block_only ≡ false
      → c.lines % 2 ≡ 0
      → sweep c b h (some line_mark_state) ≡ some (swept_block c b h line_mark_state)
  unfolding sweep sweep_by_lines set_as_defrag_source set_holes m bucket emptied
  sweep_lem with_lines even =
      branch c.block_only _ _ with_lines
      ∙ rw (sweep_lines_lem line_mark_state b.line_marks c.lines) (elim (Bool-cases (m == 0)) [
        | inl none_left ↦ rw none_left refl
        | inr some_left ↦ rw some_left (kept (ground arith) even)
      ])
