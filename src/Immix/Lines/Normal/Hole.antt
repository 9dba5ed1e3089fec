-- ===== src/Immix/Lines/Normal/Hole.antt =====
-- One round of `normal_get_next_available_lines`: the hole that it looks at, and the tables behind it.
use mmtk_core.Base.{
  ℕ, zero, suc, ◌-◌, ◌≤◌, ◌≡◌, refl, ap, ◌∙◌, ◌==◌, ltb, if◌then◌else◌, Bool, not, ◌&&◌, Option,
  none, some, arith, dec_lt,
}
use mathlib.Core.Path.{fun_ext}
use mmtk_core.Immix.Lines.{
  ImmixSpace, LineTables, advance, is_available, find_limit, log_lines,
  normal_get_next_available_lines,
}
use mmtk_core.Immix.Lines.Run.{IsFirst, advance-IsFirst}
use mmtk_core.Immix.Lines.Search.{Searched, search}
use mmtk_core.Immix.Lines.Normal.{
  marked, tables_after, advance-agree, available_at, find_limit-advance, find_limit-marks,
  marked_hole, marked_twice,
}

module _ (space : ImmixSpace) (copy : Bool) where
  -- A search looks at no line before the first one.
  pub search-agree :
      (f g : ℕ → Bool) (fuel from : ℕ)
      → ((j : ℕ) → from ≤ j → f j ≡ g j)
      → from ≤ space.lines
      → search f space.lines space.min_reuse_lines fuel from
        ≡ search g space.lines space.min_reuse_lines fuel from
  unfolding search
  search-agree f g zero from h le = refl
  search-agree f g (suc fuel) from h le =
      let start = advance g (space.lines - from) from in
      let end = advance (λ i. not (g i)) (space.lines - start) start in
      let skipped = advance-IsFirst g (space.lines - from) from space.lines (omega arith) in
      let within : start ≤ space.lines = skipped.below in
      let taken =
        advance-IsFirst (λ i. not (g i)) (space.lines - start) start space.lines
          (omega (arith, within)) in
      rw (
        advance-agree space f g (space.lines - from) from h,
        advance-agree space (λ i. not (f i)) (λ i. not (g i)) (space.lines - start) start
            (λ j lo. ap not (h j (omega (arith, skipped.above)))),
        search-agree f g fuel end (λ j lo. h j (omega (arith, skipped.above, taken.above)))
            taken.below,
      )

  unfoldable pub hole_start : LineTables → ℕ → ℕ
  hole_start t from = advance (is_available space t.line_marks) (space.lines - from) from

  unfoldable pub hole_limit : LineTables → ℕ → ℕ × (ℕ → ℕ)
  unfolding hole_start
  hole_limit t from =
      find_limit space (space.lines - hole_start t from) t.line_marks (hole_start t from)

  pub skipped :
      (t : LineTables) (from : ℕ)
      → from ≤ space.lines
      → IsFirst (is_available space t.line_marks) from space.lines (hole_start t from)
  unfolding hole_start
  skipped t from le = advance-IsFirst _ (space.lines - from) from space.lines (omega arith)

  pub taken :
      (t : LineTables) (from : ℕ)
      → from ≤ space.lines
      → IsFirst
          (λ i. not (is_available space t.line_marks i))
          (hole_start t from)
          space.lines
          (hole_limit t from).0
  unfolding hole_limit
  taken t from le =
      let within : hole_start t from ≤ space.lines = (skipped t from le).below in
      rw
        (find_limit-advance space (space.lines - hole_start t from) t.line_marks
          (hole_start t from))
        (advance-IsFirst _ (space.lines - hole_start t from) (hole_start t from) space.lines
          (omega (arith, within)))

  pub limit_marks :
      (t : LineTables) (from : ℕ)
      → from ≤ space.lines
      → (j : ℕ) → (hole_limit t from).1 j ≡ marked space t.line_marks from (hole_limit t from).0 j
  unfolding hole_limit
  limit_marks t from le j =
      marked_hole space t.line_marks from (hole_start t from) (hole_limit t from).0 j _
        (skipped t from le) (taken t from le)
        (find_limit-marks space (space.lines - hole_start t from) t.line_marks (hole_start t from)
          j)

  unfoldable pub behind : LineTables → ℕ → LineTables
  behind t from = record t { line_marks = (hole_limit t from).1 }

  pub normal_step :
      (fuel : ℕ) (t : LineTables) (from : ℕ)
      → normal_get_next_available_lines space (suc fuel) copy t from ≡ (
          if hole_start t from == space.lines
          then (none, t)
          else if ltb ((hole_limit t from).0 - hole_start t from) space.min_reuse_lines
          then (if (hole_limit t from).0 == space.lines
              then (none, behind t from)
              else normal_get_next_available_lines space fuel copy
                  (behind t from)
                  (hole_limit t from).0)
          else if space.needs_log_bit && not space.barrier_measurement_no_slow
          then (
            some (hole_start t from, (hole_limit t from).0),
            log_lines space copy (behind t from) (hole_start t from) (hole_limit t from).0,
          )
          else (some (hole_start t from, (hole_limit t from).0), behind t from))
  unfolding normal_get_next_available_lines hole_limit hole_start behind
  normal_step fuel t from = refl

  pub search_step :
      (fuel : ℕ) (t : LineTables) (from : ℕ)
      → search (is_available space t.line_marks) space.lines space.min_reuse_lines (suc fuel) from
        ≡ (if hole_start t from == space.lines
            then none
            else if ltb ((hole_limit t from).0 - hole_start t from) space.min_reuse_lines
            then (if (hole_limit t from).0 == space.lines
                then none
                else search
                    (is_available space t.line_marks)
                    space.lines
                    space.min_reuse_lines
                    fuel
                    (hole_limit t from).0)
            else some (hole_start t from, (hole_limit t from).0))
  unfolding search hole_limit hole_start
  search_step fuel t from =
      rw (
        find_limit-advance space (space.lines - hole_start t from) t.line_marks (hole_start t from))

  pub marks_agree :
      (t : LineTables) (from j : ℕ)
      → from ≤ space.lines
      → (hole_limit t from).0 ≤ j
      → is_available space (behind t from).line_marks j ≡ is_available space t.line_marks j
  unfolding behind
  marks_agree t from j le late =
      available_at space (hole_limit t from).1 t.line_marks j
        (limit_marks t from le j ∙ ground arith)

  pub nothing_found :
      (t : LineTables) (from : ℕ)
      → from ≤ space.lines
      → hole_start t from ≡ space.lines
      → t ≡ tables_after space copy t from none
  nothing_found t from le e =
      ap (λ m. record t { line_marks = m })
        (fun_ext λ j. elim (dec_lt j from) [
          | yes out ↦ ground arith
          | no within ↦ elim (dec_lt j space.lines) [
            | yes inside ↦ ground (arith, (skipped t from le).passed j (omega arith) (omega arith))
            | no out ↦ ground arith
          ]
        ])

  pub behind_after :
      (t : LineTables) (from : ℕ)
      → from ≤ space.lines
      → behind t from
        ≡ record t { line_marks = marked space t.line_marks from (hole_limit t from).0 }
  unfolding behind
  behind_after t from le = ap (λ m. record t { line_marks = m }) (fun_ext (limit_marks t from le))

  pub tables_twice :
      (t : LineTables) (from : ℕ) (found : Option (ℕ × ℕ))
      → from ≤ space.lines
      → Searched
          (is_available space t.line_marks)
          space.lines
          space.min_reuse_lines
          (hole_limit t from).0
          found
      → tables_after space copy (behind t from) (hole_limit t from).0 found
        ≡ tables_after space copy t from found
  unfolding behind
  tables_twice t from none le s =
      ap (λ m. record t { line_marks = m })
        (fun_ext (
          marked_twice space t.line_marks (hole_limit t from).1 from (hole_limit t from).0
            space.lines (omega (arith, (skipped t from le).above, (taken t from le).above))
            (taken t from le).below (limit_marks t from le)))
  tables_twice t from (some (start, end)) le s =
      ap
        (λ m.
          let t' = record t { line_marks = m } in
          if space.needs_log_bit && not space.barrier_measurement_no_slow
          then log_lines space copy t' start end
          else t')
        (fun_ext (
          marked_twice space t.line_marks (hole_limit t from).1 from (hole_limit t from).0 end
            (omega (arith, (skipped t from le).above, (taken t from le).above))
            (omega (arith, s.above, s.room)) (limit_marks t from le)))
