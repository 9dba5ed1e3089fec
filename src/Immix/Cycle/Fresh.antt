-- ===== src/Immix/Cycle/Fresh.antt =====
-- A line that bears the current mark state was marked in the current cycle.
use mmtk_core.Base.{
  ℕ, ◌%◌, ◌≤◌, ◌<◌, ◌≡◌, ◌≢◌, refl, ◌⊎◌, inl, inr, ◌==◌, ltb, if◌then◌else◌, Bool, true, false, not,
  ◌&&◌, Bool-cases, arith, update_self, update_ne, ℕ_discrete,
}
use mmtk_core.Immix.Block.{Features, Block, Histogram}
use mmtk_core.Immix.Block.Tallied.{marked_below}
use mmtk_core.Immix.Block.Swept.{swept_block, sweep_lem}
use mmtk_core.Immix.Cycle.{
  MarkStates, Phase, Heap, running, prepared, tracing, new, prepare, release, mark_line, Step,
  prepares, traces, marks, sweeps, Reach, start, later,
}

-- Marks of the last collection with state 127 stay until the states 126 and 127 clear them.
abbrev IsTraced : (state mark : ℕ) → Type 0
IsTraced state mark =
    (1 ≤ state)
    × (state ≤ 127)
    × ((mark ≤ state) ⊎ (mark ≡ 127))
    × ((state < 127) ⊎ ((mark ≡ 0) ⊎ (126 ≤ mark)))

abbrev IsSettled : (state mark : ℕ) → Type 0
IsSettled state mark = IsTraced state mark × ((state < 126) ⊎ ((mark ≡ 0) ⊎ (mark ≡ state)))

abbrev HasPhase : Phase → (state unavail mark : ℕ) → Type 0
HasPhase running state unavail mark = IsSettled state mark × (unavail ≡ state)
HasPhase (prepared true) state unavail mark = IsTraced state mark × (mark ≢ state)
HasPhase (prepared false) state unavail mark = IsTraced state mark × (unavail ≡ state)
HasPhase (tracing true) state unavail mark = IsTraced state mark
HasPhase (tracing false) state unavail mark = IsTraced state mark × (unavail ≡ state)

abbrev IsCycled : Features → Heap → Type 0
IsCycled c h =
    (i : ℕ)
    → i < c.lines
    → HasPhase h.phase h.states.line_mark_state h.states.line_unavail_state (h.block.line_marks i)

prepare-HasPhase :
    (major_gc : Bool) (s : MarkStates) (mark : ℕ)
    → HasPhase running s.line_mark_state s.line_unavail_state mark
    → HasPhase
        (prepared major_gc)
        (prepare major_gc s).line_mark_state
        (prepare major_gc s).line_unavail_state
        mark
unfolding prepare
prepare-HasPhase true s mark h = ground arith
prepare-HasPhase false s mark h = ground arith

traces-HasPhase :
    (major_gc : Bool) (state unavail mark : ℕ)
    → HasPhase (prepared major_gc) state unavail mark
    → HasPhase (tracing major_gc) state unavail mark
traces-HasPhase true state unavail mark h = h.0
traces-HasPhase false state unavail mark h = h

-- The mark that a sweep leaves on a line.
swept-HasPhase :
    (major_gc : Bool) (s : MarkStates) (mark : ℕ)
    → HasPhase (tracing major_gc) s.line_mark_state s.line_unavail_state mark
    → HasPhase running
        (release major_gc s).line_mark_state
        (release major_gc s).line_unavail_state
        (if not (mark == s.line_mark_state) && ltb 125 s.line_mark_state then 0 else mark)
unfolding release
swept-HasPhase true s mark h = ground arith
swept-HasPhase false s mark h = ground arith

-- A mark with the current state suits every phase but the prepared ones.
marked-HasPhase :
    (p : Phase) (state unavail mark : ℕ)
    → p ≢ prepared true
    → p ≢ prepared false
    → HasPhase p state unavail mark
    → HasPhase p state unavail state
marked-HasPhase running state unavail mark a b h = omega arith
marked-HasPhase (prepared true) state unavail mark a b h = absurd (a refl)
marked-HasPhase (prepared false) state unavail mark a b h = absurd (b refl)
marked-HasPhase (tracing true) state unavail mark a b h = omega arith
marked-HasPhase (tracing false) state unavail mark a b h = omega arith

swept_marks :
    (c : Features) (b : Block) (h : Histogram) (state i : ℕ)
    → (swept_block c b h state).is_swept ≡ false
    → i < c.lines
    → (swept_block c b h state).block.line_marks i
      ≡ (if not (b.line_marks i == state) && ltb 125 state then 0 else b.line_marks i)
swept_marks c b h state i live lt =
    elim (Bool-cases (marked_below state b.line_marks c.lines == 0)) [
      | inl e ↦ cc (rw e at live)
      | inr e ↦ rw e (ground arith)
    ]

module _ (c : Features) (with_lines : c.block_only ≡ false) (even : c.lines % 2 ≡ 0) where
  Step-IsCycled : {h h' : Heap} → Step c h h' → IsCycled c h → IsCycled c h'
  unfolding mark_line
  Step-IsCycled (prepares major_gc {h} e) inv i lt =
      prepare-HasPhase major_gc h.states (h.block.line_marks i) (rw e at (inv i lt))
  Step-IsCycled (traces major_gc {h} e) inv i lt =
      traces-HasPhase major_gc _ _ (h.block.line_marks i) (rw e at (inv i lt))
  Step-IsCycled (marks j {h} lt_j a b) inv i lt = elim (ℕ_discrete j i) [
    | yes e ↦ rw (← e) (
        rw (update_self h.block.line_marks j h.states.line_mark_state)
          (marked-HasPhase h.phase _ _ _ a b (inv j lt_j)))
    | no n ↦ rw (update_ne h.block.line_marks j i h.states.line_mark_state n) (inv i lt)
  ]
  Step-IsCycled (sweeps major_gc histogram s {h} e swept live) inv i lt =
      let done : s ≡ swept_block c h.block histogram h.states.line_mark_state =
        cc (sweep_lem c h.block histogram h.states.line_mark_state with_lines even) in
      let mark = swept_marks c h.block histogram h.states.line_mark_state i (rw done at live) lt in
      rw (done, mark) (swept-HasPhase major_gc h.states (h.block.line_marks i) (rw e at (inv i lt)))

  Reach-IsCycled : {h : Heap} → Reach c h → IsCycled c h
  unfolding new
  Reach-IsCycled (start b clean) i lt = rw (clean i) (omega arith)
  Reach-IsCycled (later r st) i lt = Step-IsCycled st (Reach-IsCycled r) i lt

  -- For a build with lines, an even number of them to a block, and one block that starts without
  -- marks and stays allocated, so that each sweep finds a marked line in it, whichever lines these are
  -- and however major and other collections follow one another: after `prepare` of a major collection
  -- no line of the block bears its mark state, also when the states start again; and while no
  -- collection runs, the lines that are not available are those with the state of the last collection.
  -- Nothing is said of a block that is released, which keeps its marks, and allocated again.
  pub Reach-IsFresh :
      {h : Heap}
      → Reach c h
      → (i : ℕ) → i < c.lines
      → (h.phase ≡ prepared true → h.block.line_marks i ≢ h.states.line_mark_state)
        × (h.phase ≡ running → h.states.line_unavail_state ≡ h.states.line_mark_state)
  Reach-IsFresh {h} r i lt =
      (λ e. (rw e at (Reach-IsCycled r i lt)).1, λ e. (rw e at (Reach-IsCycled r i lt)).1)
