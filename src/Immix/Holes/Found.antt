-- ===== src/Immix/Holes/Found.antt =====
-- A block that has holes has lines for an allocator.
use mmtk_core.Base.{
  ℕ, zero, suc, ◌+◌, ◌-◌, ◌≤◌, ◌<◌, ◌≡◌, ◌≢◌, refl, ◌⊎◌, ◌==◌, leb, inl, inr, if◌then◌else◌, Bool,
  true, false, ◌||◌, none, Bool-cases, ℕ_discrete, ==_iff, tests, arith,
}
use mmtk_core.Immix.Lines.{ImmixSpace, LineTables, is_dead, rc_get_next_available_lines}
use mmtk_core.Immix.Lines.Search.{HasRoom}
use mmtk_core.Immix.Lines.Usable.{is_usable}
use mmtk_core.Immix.Lines.Counted.{rc_get_next_available_lines_lem}
use mmtk_core.Immix.Holes.{seek_holes, has_holes}

-- The lines that are counted before `i` are usable, and the line before `i` is dead if any are, or
-- if a first one has been found.
record IsSeeking (dead : ℕ → Bool) (i : ℕ) (found : Bool) (free : ℕ) : Type 0 where
  within : free ≤ i
  usable : (j : ℕ) → i ≤ j + free → j < i → is_usable dead 0 j ≡ true
  behind : (found ≡ true) ⊎ (0 < free) → (0 < i) × (dead (i - 1) ≡ true)

module _ (dead : ℕ → Bool) (lines n : ℕ) where
  Room : Type 0
  Room = (a : ℕ) × HasRoom (is_usable dead 0) lines n a

  nothing_yet : (i : ℕ) → IsSeeking dead (i + 1) false 0
  nothing_yet i = record {
    within = omega arith;
    usable = λ j lo hi. absurd (omega arith);
    behind = elim [ inl e ↦ cc e | inr e ↦ absurd (omega arith) ];
  }

  front_or_found : (i : ℕ) (found : Bool) → (i == 0 || found) ≡ true → (i ≡ 0) ⊎ (found ≡ true)
  front_or_found i true h = inr refl
  front_or_found i false h = elim (Bool-cases (i == 0)) [
    | inl e ↦ inl ((==_iff i 0).0 e)
    | inr e ↦ cc (rw e at h)
  ]

  usable_here :
      (i : ℕ)
      → dead i ≡ true
      → (i ≡ 0) ⊎ ((0 < i) × (dead (i - 1) ≡ true))
      → is_usable dead 0 i ≡ true
  usable_here i d (inl e) = rw d (ground arith)
  usable_here i d (inr (lt, b)) = rw (d, b) (ground arith)

  -- One more dead line.
  one_more :
      (i free : ℕ) (found found' : Bool)
      → IsSeeking dead i found free
      → dead i ≡ true
      → (free' : ℕ) → ((free' ≡ free + 1) × ((i ≡ 0) ⊎ (found ≡ true))) ⊎ (free' ≡ free)
      → IsSeeking dead (i + 1) found' free'
  one_more i free found found' s d free' h = record {
    within = omega (arith, s.within, h);
    usable = λ j lo hi. elim (ℕ_discrete j i) [
      | yes e ↦ rw e (usable_here i d (here h (rw e at lo)))
      | no other ↦ s.usable j (omega (arith, h)) (omega arith)
    ];
    behind = λ b. let back : i + 1 - 1 ≡ i = omega arith in (omega arith, rw back d);
  }
    where
      here :
          ((free' ≡ free + 1) × ((i ≡ 0) ⊎ (found ≡ true))) ⊎ (free' ≡ free)
          → i + 1 ≤ i + free'
          → (i ≡ 0) ⊎ ((0 < i) × (dead (i - 1) ≡ true))
      here (inl (_, inl e)) lt = inl e
      here (inl (_, inr e)) lt = inr (s.behind (inl e))
      here (inr e) lt = inr (s.behind (inr (omega arith)))

  -- A dead line ends a run that is long enough, or the search goes on.
  dead_line :
      (rounds i : ℕ) (found : Bool) (free : ℕ)
      → i + suc rounds ≡ lines
      → IsSeeking dead i found free
      → dead i ≡ true
      → let counts = i == 0 || found in
        let free' = if counts then free + 1 else free in
        let found' = if counts then found else true in
        (if leb n free' then true else seek_holes dead n rounds (i + 1) found' free') ≡ true
        → ((found' : Bool) (free' : ℕ)
            → IsSeeking dead (i + 1) found' free'
            → seek_holes dead n rounds (i + 1) found' free' ≡ true
            → Room)
        → Room
  unfolding Room
  dead_line rounds i found free e s d h later =
      let counts = i == 0 || found in
      let free' = if counts then free + 1 else free in
      let found' = if counts then found else true in
      let next : IsSeeking dead (i + 1) found' free' =
        one_more i free found found' s d free' (elim (Bool-cases counts) [
          | inl c ↦ inl (rw c refl, front_or_found i found c)
          | inr c ↦ inr (rw c refl)
        ]) in
      elim (Bool-cases (leb n free')) [
        | inl long ↦
            let enough : n ≤ free' = omega (tests, long) in
            (
              i + 1 - n,
              (
                omega (arith, enough, next.within),
                λ j lo hi.
                    next.usable j (omega (arith, enough)) (omega (arith, enough, next.within)),
              ),
            )
        | inr short ↦ later found' free' next (rw short at h)
      ]

  seek-Room :
      (rounds i : ℕ) (found : Bool) (free : ℕ)
      → i + rounds ≡ lines
      → IsSeeking dead i found free
      → seek_holes dead n rounds i found free ≡ true
      → Room
  unfolding seek_holes Room
  seek-Room zero i found free e s h = cc h
  seek-Room (suc rounds) i found free e s h = elim (Bool-cases (dead i)) [
    | inr alive ↦ seek-Room rounds (i + 1) false 0 (omega arith) (nothing_yet i) (rw alive at h)
    | inl d ↦
        dead_line rounds i found free e s d (rw d at h)
          (λ found' free'. seek-Room rounds (i + 1) found' free' (omega arith))
  ]

-- For a positive `min_reuse_lines`, with fuel for more rounds than there are lines: when `has_holes`
-- holds of a block, `rc_get_next_available_lines` finds lines in it, from its first line on.
pub has_holes-found :
    (space : ImmixSpace) (copy : Bool) (fuel : ℕ) (t : LineTables)
    → 0 < space.min_reuse_lines
    → space.lines < fuel
    → has_holes (is_dead t.ref_counts) space.lines space.min_reuse_lines ≡ true
    → (rc_get_next_available_lines space fuel copy t 0).0 ≢ none
unfolding has_holes Room
has_holes-found space copy fuel t room enough h e =
    let dead = is_dead t.ref_counts in
    let start : IsSeeking dead 0 false 0 = record {
      within = omega arith;
      usable = λ j lo hi. absurd (omega arith);
      behind = elim [ inl b ↦ cc b | inr b ↦ absurd (omega arith) ];
    } in
    let there =
      seek-Room dead space.lines space.min_reuse_lines space.lines 0 false 0 (omega arith) start
        h in
    let searched =
      (rc_get_next_available_lines_lem space copy fuel t 0 room (omega arith) (omega arith)).0 in
    (rw e at searched) there.0 (omega arith) there.1
