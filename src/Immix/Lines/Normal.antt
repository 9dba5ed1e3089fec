-- ===== src/Immix/Lines/Normal.antt =====
-- `normal_get_next_available_lines`, which looks at the marks of lines: the marks that its loops read
-- and write.
pub mod Hole
pub mod Found
use mmtk_core.Base.{
  ℕ, zero, suc, ◌+◌, ◌-◌, ◌≤◌, ◌<◌, ◌≡◌, refl, sym, ap, ◌∙◌, ◌==◌, leb, ltb, inl, inr,
  if◌then◌else◌, Bool, true, false, not, ◌&&◌, Option, none, some, Bool-cases, ==_iff, tests, arith,
  dec_lt, update,
}
use mathlib.Core.Path.{fun_ext}
use mmtk_core.Immix.Lines.{
  ImmixSpace, LineTables, advance, is_available, find_limit, log_lines,
  normal_get_next_available_lines,
}
use mmtk_core.Immix.Lines.Run.{IsFirst, advance-IsFirst}
use mmtk_core.Immix.Lines.Search.{Searched, search, search-Searched}

-- The marks after the free lines of a range have been marked, while marking is concurrent.
abbrev pub marked : ImmixSpace → (ℕ → ℕ) → (from to : ℕ) → ℕ → ℕ
marked space marks from to j =
    if space.cm_enabled && (leb from j && (ltb j to && is_available space marks j))
    then space.line_mark_state
    else marks j

-- The tables after a search that has found these lines.
abbrev pub tables_after : ImmixSpace → Bool → LineTables → ℕ → Option (ℕ × ℕ) → LineTables
tables_after space copy t from none = record t {
  line_marks = marked space t.line_marks from space.lines;
}
tables_after space copy t from (some (start, end)) =
    let t' = record t { line_marks = marked space t.line_marks from end } in
    if space.needs_log_bit && not space.barrier_measurement_no_slow
    then log_lines space copy t' start end
    else t'

one_more :
    (on : Bool) (cursor end j state mark result : ℕ)
    → cursor + 1 ≤ end
    → result ≡ (
        if on && (leb (cursor + 1) j && ltb j end)
        then state
        else if on
        then (if cursor == j then state else mark)
        else mark)
    → result ≡ (if on && (leb cursor j && ltb j end) then state else mark)
one_more on cursor end j state mark result le h = ground arith

module _ (space : ImmixSpace) where
  pub advance-agree :
      (f g : ℕ → Bool) (rounds cursor : ℕ)
      → ((j : ℕ) → cursor ≤ j → f j ≡ g j)
      → advance f rounds cursor ≡ advance g rounds cursor
  unfolding advance
  advance-agree f g zero cursor h = refl
  advance-agree f g (suc rounds) cursor h =
      rw (h cursor (omega arith), advance-agree f g rounds (cursor + 1) (λ j le. h j (omega arith)))

  -- A write before a line does not change whether that line is available.
  pub available_at :
      (marks marks' : ℕ → ℕ) (j : ℕ)
      → marks j ≡ marks' j
      → is_available space marks j ≡ is_available space marks' j
  unfolding is_available
  available_at marks marks' j e = rw e

  mark_line : (ℕ → ℕ) → ℕ → ℕ → ℕ
  mark_line marks i = if space.cm_enabled then update marks i space.line_mark_state else marks

  mark_line_at :
      (marks : ℕ → ℕ) (i j : ℕ)
      → mark_line marks i j ≡ (
          if space.cm_enabled then (if i == j then space.line_mark_state else marks j) else marks j)
  unfolding mark_line
  mark_line_at marks i j = elim (Bool-cases space.cm_enabled) [ inl on ↦ rw on | inr off ↦ rw off ]

  mark_line_ne : (marks : ℕ → ℕ) (i j : ℕ) → i < j → mark_line marks i j ≡ marks j
  unfolding mark_line
  mark_line_ne marks i j lt = elim (Bool-cases space.cm_enabled) [
    | inl on ↦ rw on (ground arith)
    | inr off ↦ rw off
  ]

  pub find_limit-advance :
      (rounds : ℕ) (marks : ℕ → ℕ) (cursor : ℕ)
      → (find_limit space rounds marks cursor).0
        ≡ advance (λ j. not (is_available space marks j)) rounds cursor
  unfolding find_limit advance mark_line
  find_limit-advance zero marks cursor = refl
  find_limit-advance (suc rounds) marks cursor =
      elim (Bool-cases (is_available space marks cursor)) [
        | inl free ↦ rw free (
            find_limit-advance rounds (mark_line marks cursor) (cursor + 1)
            ∙ advance-agree _ _ rounds (cursor + 1) λ j le. ap not (
                available_at (mark_line marks cursor) marks j
                  (mark_line_ne marks cursor j (omega arith))))
        | inr busy ↦ rw busy
      ]

  find_limit-above :
      (rounds : ℕ) (marks : ℕ → ℕ) (cursor : ℕ) → cursor ≤ (find_limit space rounds marks cursor).0
  find_limit-above rounds marks cursor =
      rw (find_limit-advance rounds marks cursor)
        (advance-IsFirst _ rounds cursor (cursor + rounds) refl).above

  pub find_limit-marks :
      (rounds : ℕ) (marks : ℕ → ℕ) (cursor j : ℕ)
      → (find_limit space rounds marks cursor).1 j ≡ (
          if space.cm_enabled && (leb cursor j && ltb j (find_limit space rounds marks cursor).0)
          then space.line_mark_state
          else marks j)
  unfolding find_limit mark_line
  find_limit-marks zero marks cursor j = ground arith
  find_limit-marks (suc rounds) marks cursor j =
      elim (Bool-cases (is_available space marks cursor)) [
        | inl free ↦ rw free (
            one_more space.cm_enabled cursor _ j space.line_mark_state (marks j) _
              (find_limit-above rounds (mark_line marks cursor) (cursor + 1))
              (find_limit-marks rounds (mark_line marks cursor) (cursor + 1) j
                ∙ ap
                    (λ y.
                      if space.cm_enabled
                        && (leb (cursor + 1) j
                            && ltb j
                                (find_limit space rounds (mark_line marks cursor) (cursor + 1)).0)
                      then space.line_mark_state
                      else y)
                    (mark_line_at marks cursor j)))
        | inr busy ↦ rw busy (ground arith)
      ]

  -- One hole: the lines before it are not available, and those in it are.
  pub marked_hole :
      (marks : ℕ → ℕ) (from start end j m : ℕ)
      → IsFirst (is_available space marks) from space.lines start
      → IsFirst (λ i. not (is_available space marks i)) start space.lines end
      → m ≡ (
          if space.cm_enabled && (leb start j && ltb j end) then space.line_mark_state else marks j)
      → m ≡ marked space marks from end j
  marked_hole marks from start end j m skipped taken h = elim (dec_lt j start) [
    | yes early ↦ elim (dec_lt j from) [
      | yes out ↦ ground arith
      | no within ↦ ground (arith, skipped.passed j (omega arith) early)
    ]
    | no late ↦ elim (dec_lt j end) [
      | yes within ↦ ground (arith, taken.passed j (omega arith) within, skipped.above)
      | no out ↦ ground arith
    ]
  ]

  pub marked_twice :
      (marks marks' : ℕ → ℕ) (from end to : ℕ)
      → from ≤ end
      → end ≤ to
      → ((j : ℕ) → marks' j ≡ marked space marks from end j)
      → (j : ℕ) → marked space marks' end to j ≡ marked space marks from to j
  marked_twice marks marks' from end to lo hi h j = elim (dec_lt j end) [
    | yes early ↦ ground (arith, h j)
    | no late ↦
        let same : marks' j ≡ marks j = ground (arith, h j) in
        let still = available_at marks' marks j same in ground (arith, same, still)
  ]
