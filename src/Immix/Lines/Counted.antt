-- ===== src/Immix/Lines/Counted.antt =====
-- `rc_get_next_available_lines`, which looks at the reference counts of the objects in lines.
use mmtk_core.Base.{
  ℕ, zero, suc, ◌+◌, ◌-◌, ◌≤◌, ◌<◌, ◌≡◌, refl, ◌∙◌, ◌==◌, ltb, inl, inr, if◌then◌else◌, Bool, not,
  none, some, Bool-cases, not-true, tests, arith,
}
use mmtk_core.Immix.Lines.{ImmixSpace, LineTables, is_dead, rc_get_next_available_lines}
use mmtk_core.Immix.Lines.Run.{IsFirst, advance-IsFirst}
use mmtk_core.Immix.Lines.Search.{Searched, search, search-Searched}
use mmtk_core.Immix.Lines.Normal.Hole.{search-agree}
use mmtk_core.Immix.Lines.Usable.{
  is_usable, reused, usable, dead_end, rc_step, usable_start, usable_skipped, dead_end_lem,
  usable_behind,
}

module _ (space : ImmixSpace) (copy : Bool) where
  Finds : (fuel : ℕ) → LineTables → ℕ → Type 0
  Finds fuel t from =
      ((rc_get_next_available_lines space fuel copy t from).0
        ≡ search (usable space copy t from) space.lines space.min_reuse_lines fuel from)
      × ((rc_get_next_available_lines space fuel copy t from).1
          ≡ reused space copy t (rc_get_next_available_lines space fuel copy t from).0)

  search_step :
      (fuel : ℕ) (t : LineTables) (from : ℕ)
      → from ≤ space.lines
      → search (usable space copy t from) space.lines space.min_reuse_lines (suc fuel) from ≡ (
          let start = usable_start space copy t from in
          let end = dead_end space copy t start in
          if start == space.lines
          then none
          else if ltb (end - start) space.min_reuse_lines
          then (if end == space.lines
              then none
              else search (usable space copy t from) space.lines space.min_reuse_lines fuel end)
          else some (start, end))
  unfolding search usable_start
  search_step fuel t from le = elim (Bool-cases (usable_start space copy t from == space.lines)) [
    | inl over ↦ rw over
    | inr more ↦
        let within = (usable_skipped space copy t from le).below in
        let less : usable_start space copy t from < space.lines = omega (tests, more, within) in
        rw (more, dead_end_lem space copy t from le less)
  ]

  dead_end-IsFirst :
      (t : LineTables) (start : ℕ)
      → start < space.lines
      → IsFirst
          (λ i. not (is_dead t.ref_counts i))
          (start + 1)
          space.lines
          (dead_end space copy t start)
  unfolding dead_end
  dead_end-IsFirst t start lt =
      advance-IsFirst _ (space.lines - (start + 1)) (start + 1) space.lines (omega arith)

  rc-Finds :
      (fuel : ℕ) (t : LineTables) (from : ℕ)
      → 0 < space.min_reuse_lines
      → from ≤ space.lines
      → space.lines < from + fuel
      → Finds fuel t from
  unfolding Finds usable_start
  rc-Finds zero t from room le enough = absurd (omega arith)
  rc-Finds (suc fuel) t from room le enough =
      let start = usable_start space copy t from in
      let end = dead_end space copy t start in
      rw (rc_step space copy fuel t from le, search_step fuel t from le)
        (elim (Bool-cases (start == space.lines)) [
          | inl over ↦ rw over (refl, refl)
          | inr more ↦ rw more (elim (Bool-cases (ltb (end - start) space.min_reuse_lines)) [
            | inl short ↦
                let skipped = usable_skipped space copy t from le in
                let taken = dead_end-IsFirst t start (omega (tests, more, skipped.below)) in
                let further : space.lines < end + fuel =
                  omega (arith, skipped.above, taken.above) in
                let later : from ≤ end = omega (arith, skipped.above, taken.above) in
                rw short (elim (Bool-cases (end == space.lines)) [
                  | inl at_end ↦ rw at_end (refl, refl)
                  | inr inside ↦
                      let live = not-true _ (taken.stops (omega (tests, inside, taken.below))) in
                      let rest = rc-Finds fuel t end room taken.below further in
                      let same =
                        search-agree space copy (usable space copy t end) (usable space copy t from)
                          fuel end (λ j lo. usable_behind space copy t from end j later live lo)
                          taken.below in
                      rw inside (rest.0 ∙ same, rest.1)
                ])
            | inr long ↦ rw long (refl, refl)
          ])
        ])

  -- For a positive `min_reuse_lines`, a line of the block to search from and fuel for more rounds
  -- than there are lines: `rc_get_next_available_lines` finds the first hole with room for
  -- `min_reuse_lines` lines, up to the next line that is alive, and none exactly when there is no
  -- such room. Each line of the hole is dead, and so is the line before it, unless it is the first
  -- of the block. If it finds none, then it changes nothing; otherwise it does with the lines of the
  -- hole what `reuse_lines` does, and nothing else.
  pub rc_get_next_available_lines_lem :
      (fuel : ℕ) (t : LineTables) (from : ℕ)
      → 0 < space.min_reuse_lines
      → from ≤ space.lines
      → space.lines < from + fuel
      → Searched
          (is_usable (is_dead t.ref_counts) from)
          space.lines
          space.min_reuse_lines
          from
          (rc_get_next_available_lines space fuel copy t from).0
        × ((rc_get_next_available_lines space fuel copy t from).1
            ≡ reused space copy t (rc_get_next_available_lines space fuel copy t from).0)
  unfolding Finds usable
  rc_get_next_available_lines_lem fuel t from room le enough =
      let h = rc-Finds fuel t from room le enough in
      (rw h.0 (search-Searched _ space.lines space.min_reuse_lines room fuel from le enough), h.1)
