-- ===== src/Immix/Lines/Usable.antt =====
-- One round of `rc_get_next_available_lines`: the lines that it may use, and the hole that it looks at.
use mmtk_core.Base.{
  ℕ, zero, suc, ◌+◌, ◌-◌, ◌≤◌, ◌<◌, ◌≡◌, refl, sym, ap, ◌∙◌, ◌==◌, ltb, inl, inr, if◌then◌else◌,
  Bool, true, false, not, ◌&&◌, ◌||◌, Option, none, some, Bool-cases, arith, dec_lt,
}
use mmtk_core.Immix.Lines.{
  ImmixSpace, LineTables, advance, is_dead, first_free_cursor, reuse_lines,
  rc_get_next_available_lines,
}
use mmtk_core.Immix.Lines.Run.{IsFirst, advance-IsFirst}

-- A dead line may hold the end of an object that starts in the line before it. It can be used if it
-- is the first of the block, or if the line before it is dead and is looked at too.
abbrev pub is_usable : (ℕ → Bool) → (from i : ℕ) → Bool
is_usable dead from i = dead i && (i == 0 || (ltb from i && dead (i - 1)))

-- The tables after a search that has found these lines.
abbrev pub reused : ImmixSpace → Bool → LineTables → Option (ℕ × ℕ) → LineTables
reused space copy t none = t
reused space copy t (some (start, end)) = reuse_lines space copy t start end

module _ (dead : ℕ → Bool) (from limit : ℕ) where
  cursor_of : ℕ → Option ℕ
  cursor_of c = if c == limit then none else some c

  -- The flag says that the line before is dead and has been looked at.
  first_free_cursor-advance :
      (rounds i : ℕ) (found : Bool)
      → from ≤ i
      → i + rounds ≡ limit
      → found ≡ (ltb from i && dead (i - 1))
      → first_free_cursor dead rounds i found ≡ cursor_of (advance (is_usable dead from) rounds i)
  unfolding first_free_cursor advance cursor_of
  first_free_cursor-advance zero i found lo e h = ground arith
  first_free_cursor-advance (suc rounds) i found lo e h =
      let back : i + 1 - 1 ≡ i = omega arith in
      let on : dead i ≡ true → true ≡ (ltb from (i + 1) && dead (i + 1 - 1)) =
        λ d. rw (back, d) (ground arith) in
      let off : dead i ≡ false → false ≡ (ltb from (i + 1) && dead (i + 1 - 1)) =
        λ d. rw (back, d) (ground arith) in
      elim (Bool-cases (dead i)) [
        | inl d ↦ elim (Bool-cases (i == 0)) [
          | inl first ↦ rw (d, first) (ground arith)
          | inr later ↦ elim (Bool-cases found) [
            | inl yes_found ↦ rw (d, later, yes_found, ← h, yes_found) (ground arith)
            | inr not_found ↦
                rw (d, later, not_found, ← h, not_found)
                  (first_free_cursor-advance rounds (i + 1) true (omega arith) (omega arith) (on d))
          ]
        ]
        | inr d ↦
            rw d
              (first_free_cursor-advance rounds (i + 1) false (omega arith) (omega arith) (off d))
      ]

  limit-advance :
      (rounds c : ℕ)
      → from < c
      → dead (c - 1) ≡ true
      → advance (λ j. not (dead j)) rounds c ≡ advance (λ j. not (is_usable dead from j)) rounds c
  unfolding advance
  limit-advance zero c lt h = refl
  limit-advance (suc rounds) c lt h =
      let ahead : ltb from c ≡ true = ground arith in
      let back : c + 1 - 1 ≡ c = omega arith in
      elim (Bool-cases (dead c)) [
        | inl d ↦
            let rest = limit-advance rounds (c + 1) (omega arith) (rw back d) in
            ground (arith, rest)
        | inr d ↦ rw d
      ]

module _ (space : ImmixSpace) (copy : Bool) where
  unfoldable pub usable : LineTables → ℕ → ℕ → Bool
  usable t from = is_usable (is_dead t.ref_counts) from

  unfoldable pub dead_end : LineTables → ℕ → ℕ
  dead_end t start =
      advance (λ i. not (is_dead t.ref_counts i)) (space.lines - (start + 1)) (start + 1)

  pub rc_step :
      (fuel : ℕ) (t : LineTables) (from : ℕ)
      → from ≤ space.lines
      → rc_get_next_available_lines space (suc fuel) copy t from ≡ (
          let start = advance (usable t from) (space.lines - from) from in
          let end = dead_end t start in
          if start == space.lines
          then (none, t)
          else if ltb (end - start) space.min_reuse_lines
          then (if end == space.lines
              then (none, t)
              else rc_get_next_available_lines space fuel copy t end)
          else (some (start, end), reuse_lines space copy t start end))
  unfolding rc_get_next_available_lines dead_end usable cursor_of
  rc_step fuel t from le =
      rw
        (
          first_free_cursor-advance (is_dead t.ref_counts) from space.lines (space.lines - from)
              from false (omega arith) (omega arith) (ground arith),
          rc_get_next_available_lines,
        )
        (elim (Bool-cases (advance (usable t from) (space.lines - from) from == space.lines)) [
          | inl over ↦ rw over
          | inr more ↦ rw more
        ])

  pub advance_on :
      (stop : ℕ → Bool) (rounds c : ℕ)
      → 0 < rounds
      → stop c ≡ false
      → advance stop rounds c ≡ advance stop (rounds - 1) (c + 1)
  unfolding advance
  advance_on stop zero c lt h = absurd (omega arith)
  advance_on stop (suc rounds) c lt h = rw h (ap (λ r. advance stop r (c + 1)) (omega arith))

  unfoldable pub usable_start : LineTables → ℕ → ℕ
  unfolding usable
  usable_start t from = advance (usable t from) (space.lines - from) from

  pub usable_skipped :
      (t : LineTables) (from : ℕ)
      → from ≤ space.lines
      → IsFirst (usable t from) from space.lines (usable_start t from)
  unfolding usable_start
  usable_skipped t from le = advance-IsFirst _ (space.lines - from) from space.lines (omega arith)

  pub usable-dead :
      (t : LineTables) (from i : ℕ) → usable t from i ≡ true → is_dead t.ref_counts i ≡ true
  unfolding usable
  usable-dead t from i h = ground arith

  pub dead_end_lem :
      (t : LineTables) (from : ℕ)
      → from ≤ space.lines
      → usable_start t from < space.lines
      → dead_end t (usable_start t from)
        ≡ advance
            (λ i. not (usable t from i))
            (space.lines - usable_start t from)
            (usable_start t from)
  unfolding dead_end usable
  dead_end_lem t from le more =
      let s = usable_start t from in
      let hit : usable t from s ≡ true = (usable_skipped t from le).stops more in
      let lo : from ≤ s = (usable_skipped t from le).above in
      let back : s + 1 - 1 ≡ s = omega arith in
      let left : space.lines - s - 1 ≡ space.lines - (s + 1) = omega arith in
      let limits =
        limit-advance (is_dead t.ref_counts) from 0 (space.lines - (s + 1)) (s + 1) (omega arith)
          (rw back (usable-dead t from s hit)) in
      limits
      ∙ sym (
          advance_on (λ i. not (usable t from i)) (space.lines - s) s (omega arith) (rw hit refl)
          ∙ ap (λ r. advance (λ i. not (usable t from i)) r (s + 1)) left)

  -- Behind a hole, a search from the hole's end looks for the same lines.
  pub usable_behind :
      (t : LineTables) (from end j : ℕ)
      → from ≤ end
      → is_dead t.ref_counts end ≡ false
      → end ≤ j
      → usable t end j ≡ usable t from j
  unfolding usable
  usable_behind t from end j le live lo = elim (dec_lt end j) [
    | yes h ↦ ground arith
    | no h ↦ let same : j ≡ end = omega arith in rw (same, live)
  ]
