-- ===== src/Immix/Lines/Normal/Found.antt =====
-- What `normal_get_next_available_lines` finds, and the tables after it.
use mmtk_core.Base.{
  ℕ, zero, suc, ◌+◌, ◌-◌, ◌≤◌, ◌<◌, ◌≡◌, refl, ap, ◌∙◌, ◌==◌, ltb, inl, inr, if◌then◌else◌, Bool,
  not, ◌&&◌, Option, some, Bool-cases, ==_iff, tests, arith,
}
use mmtk_core.Immix.Lines.{
  ImmixSpace, LineTables, is_available, log_lines, normal_get_next_available_lines,
}
use mmtk_core.Immix.Lines.Search.{Searched, search, search-Searched, not_empty}
use mmtk_core.Immix.Lines.Normal.{marked, tables_after}
use mmtk_core.Immix.Lines.Normal.Hole.{
  search-agree, hole_start, hole_limit, skipped, taken, behind, normal_step, search_step,
  marks_agree, nothing_found, behind_after, tables_twice,
}

module _ (space : ImmixSpace) (copy : Bool) where
  pub Finds : (fuel : ℕ) → LineTables → ℕ → Type 0
  Finds fuel t from =
      ((normal_get_next_available_lines space fuel copy t from).0
        ≡ search (is_available space t.line_marks) space.lines space.min_reuse_lines fuel from)
      × ((normal_get_next_available_lines space fuel copy t from).1
          ≡ tables_after space copy t from
              (normal_get_next_available_lines space fuel copy t from).0)

  -- A hole that is too short is left behind.
  Finds-behind :
      (fuel : ℕ) (t : LineTables) (from : ℕ)
      → 0 < space.min_reuse_lines
      → from ≤ space.lines
      → space.lines < (hole_limit space copy t from).0 + fuel
      → Finds fuel (behind space copy t from) (hole_limit space copy t from).0
      → ((normal_get_next_available_lines space fuel copy
            (behind space copy t from)
            (hole_limit space copy t from).0).0
          ≡ search
              (is_available space t.line_marks)
              space.lines
              space.min_reuse_lines
              fuel
              (hole_limit space copy t from).0)
        × ((normal_get_next_available_lines space fuel copy
              (behind space copy t from)
              (hole_limit space copy t from).0).1
            ≡ tables_after space copy t from
                (normal_get_next_available_lines space fuel copy
                  (behind space copy t from)
                  (hole_limit space copy t from).0).0)
  unfolding Finds
  Finds-behind fuel t from room le enough h =
      let same =
        h.0
        ∙ search-agree space copy _ _ fuel (hole_limit space copy t from).0
            (λ j lo. marks_agree space copy t from j le lo) (taken space copy t from le).below in
      let found =
        search-Searched (is_available space t.line_marks) space.lines space.min_reuse_lines room
          fuel (hole_limit space copy t from).0 (taken space copy t from le).below enough in
      (same, h.1 ∙ tables_twice space copy t from _ le (rw same found))

  -- The hole is found, and its lines are logged.
  long_enough :
      (t : LineTables) (from : ℕ)
      → from ≤ space.lines
      → let start = hole_start space copy t from in
        let end = (hole_limit space copy t from).0 in
        let out : Option (ℕ × ℕ) × LineTables =
          if space.needs_log_bit && not space.barrier_measurement_no_slow
          then (some (start, end), log_lines space copy (behind space copy t from) start end)
          else (some (start, end), behind space copy t from) in
        (out.0 ≡ some (start, end)) × (out.1 ≡ tables_after space copy t from out.0)
  long_enough t from le =
      let after = behind_after space copy t from le in
      let log = λ (x : LineTables).
        log_lines space copy x (hole_start space copy t from) (hole_limit space copy t from).0 in
      elim (Bool-cases (space.needs_log_bit && not space.barrier_measurement_no_slow)) [
        | inl logs ↦ rw (logs, logs) (refl, ap log after)
        | inr quiet ↦ rw (quiet, quiet) (refl, after)
      ]

  normal-Finds :
      (fuel : ℕ) (t : LineTables) (from : ℕ)
      → 0 < space.min_reuse_lines
      → from ≤ space.lines
      → space.lines < from + fuel
      → Finds fuel t from
  unfolding Finds
  normal-Finds zero t from room le enough = absurd (omega arith)
  normal-Finds (suc fuel) t from room le enough =
      rw (normal_step space copy fuel t from, search_step space copy fuel t from)
        (elim (Bool-cases (hole_start space copy t from == space.lines)) [
          | inl over ↦ rw over (refl, nothing_found space copy t from le ((==_iff _ _).0 over))
          | inr more ↦
              rw more
                (elim (Bool-cases (
                  ltb ((hole_limit space copy t from).0 - hole_start space copy t from)
                    space.min_reuse_lines)) [
                      | inl short ↦
                          rw short
                            (elim (Bool-cases ((hole_limit space copy t from).0 == space.lines)) [
                              | inl at_end ↦ rw at_end (
                                refl,
                                behind_after space copy t from le
                                    ∙ ap
                                        (λ k. record t {
                                          line_marks = marked space t.line_marks from k;
                                        })
                                        ((==_iff _ _).0 at_end),
                              )
                              | inr inside ↦
                                  let lies : hole_start space copy t from
                                      < (hole_limit space copy t from).0 =
                                    not_empty (is_available space t.line_marks) space.lines
                                      space.min_reuse_lines room (skipped space copy t from le)
                                      (taken space copy t from le)
                                      (omega (tests, more, (skipped space copy t from le).below)) in
                                  let further : space.lines
                                      < (hole_limit space copy t from).0 + fuel =
                                    omega (arith, (skipped space copy t from le).above) in
                                  rw inside (
                                    Finds-behind fuel t from room le further (
                                      normal-Finds fuel (behind space copy t from)
                                        (hole_limit space copy t from).0 room
                                        (taken space copy t from le).below further))
                            ])
                      | inr long ↦ rw long (long_enough t from le)
                    ])
        ])

  -- For a positive `min_reuse_lines`, a line of the block to search from and fuel for more rounds
  -- than there are lines: `normal_get_next_available_lines` finds the first hole with room for
  -- `min_reuse_lines` available lines, up to the next line that is not available, and none exactly
  -- when there is no such room. While marking is concurrent, it marks the available lines up to the
  -- end of that hole, or of the block; it sets the log bits of the fields in the hole for copying,
  -- or clears them, if the space needs them; and it changes nothing else.
  pub normal_get_next_available_lines_lem :
      (fuel : ℕ) (t : LineTables) (from : ℕ)
      → 0 < space.min_reuse_lines
      → from ≤ space.lines
      → space.lines < from + fuel
      → Searched
          (is_available space t.line_marks)
          space.lines
          space.min_reuse_lines
          from
          (normal_get_next_available_lines space fuel copy t from).0
        × ((normal_get_next_available_lines space fuel copy t from).1
            ≡ tables_after space copy t from
                (normal_get_next_available_lines space fuel copy t from).0)
  unfolding Finds
  normal_get_next_available_lines_lem fuel t from room le enough =
      let h = normal-Finds fuel t from room le enough in
      (rw h.0 (search-Searched _ space.lines space.min_reuse_lines room fuel from le enough), h.1)
