-- ===== src/Immix/Lines/Search.antt =====
-- What a search for free lines promises, and a plain search that keeps the promise.
use mmtk_core.Base.{
  ℕ, zero, suc, ◌+◌, ◌-◌, ◌≤◌, ◌<◌, ◌≡◌, ◌==◌, ltb, inl, inr, if◌then◌else◌, Bool, true, false, not,
  Option, none, some, Bool-cases, not-true, not-false, ==_iff, tests, arith, dec_lt,
}
use mmtk_core.Immix.Lines.{advance}
use mmtk_core.Immix.Lines.Run.{AllFree, IsFirst, advance-IsFirst}

-- There are `n` free lines from `start` on.
abbrev pub HasRoom : (ℕ → Bool) → (lines n start : ℕ) → Type 0
HasRoom free lines n start = (start + n ≤ lines) × AllFree free start (start + n)

-- The hole at `start` is the first with room for `n` lines, and goes on as far as lines are free.
pub record IsHole (free : ℕ → Bool) (lines n from start end : ℕ) : Type 0 where
  pub above : from ≤ start
  pub room : start + n ≤ end
  pub below : end ≤ lines
  pub is_free : AllFree free start end
  pub ends : end < lines → free end ≡ false
  pub is_first : (a : ℕ) → from ≤ a → a < start → ¬ HasRoom free lines n a

-- What a search from `from` finds.
abbrev pub Searched : (ℕ → Bool) → (lines n from : ℕ) → Option (ℕ × ℕ) → Type 0
Searched free lines n from none = (a : ℕ) → from ≤ a → ¬ HasRoom free lines n a
Searched free lines n from (some (start, end)) = IsHole free lines n from start end

unfoldable pub search : (ℕ → Bool) → (lines n : ℕ) → (fuel from : ℕ) → Option (ℕ × ℕ)
search free lines n zero from = none
search free lines n (suc fuel) from =
    let start = advance free (lines - from) from in
    let end = advance (λ i. not (free i)) (lines - start) start in
    let rest = search free lines n fuel end in
    if start == lines
    then none
    else if ltb (end - start) n
    then (if end == lines then none else rest)
    else some (start, end)

module _ (free : ℕ → Bool) (lines n : ℕ) (some_room : 0 < n) where
  -- A run cannot start where a line is not free, and cannot go over such a line.
  no_room_at : (a b : ℕ) → a ≤ b → b < a + n → free b ≡ false → ¬ HasRoom free lines n a
  no_room_at a b lo hi f room = cc (room.1 b lo hi)

  no_room_before :
      {from start : ℕ}
      → IsFirst free from lines start
      → (a : ℕ) → from ≤ a
      → a < start
      → ¬ HasRoom free lines n a
  no_room_before skipped a lo hi =
      no_room_at a a (omega arith) (omega arith) (skipped.passed a lo hi)

  -- A hole that is too short has no room, wherever a run would start in it.
  no_room_within :
      {start end : ℕ}
      → IsFirst (λ i. not (free i)) start lines end
      → end - start < n
      → (a : ℕ) → start ≤ a
      → a < end
      → ¬ HasRoom free lines n a
  no_room_within {start} {end} taken short a lo hi = elim (dec_lt end lines) [
    | yes more ↦ no_room_at a end (omega arith) (omega arith) (not-true _ (taken.stops more))
    | no over ↦ λ room. absurd (omega (arith, room.0))
  ]

  Searched-after :
      {from end : ℕ} (found : Option (ℕ × ℕ))
      → from ≤ end
      → ((a : ℕ) → from ≤ a → a < end → ¬ HasRoom free lines n a)
      → Searched free lines n end found
      → Searched free lines n from found
  Searched-after {end} none le before s =
      λ a lo. elim (dec_lt a end) [ yes early ↦ before a lo early | no late ↦ s a (omega arith) ]
  Searched-after {from} {end} (some (start, stop)) le before s = record {
    above = omega (arith, s.above);
    room = s.room;
    below = s.below;
    is_free = s.is_free;
    ends = s.ends;
    is_first = first;
  }
    where
      first : (a : ℕ) → from ≤ a → a < start → ¬ HasRoom free lines n a
      first a lo hi = elim (dec_lt a end) [
        | yes early ↦ before a lo early
        | no late ↦ s.is_first a (omega arith) hi
      ]

  all_taken :
      {from start : ℕ}
      → IsFirst free from lines start
      → start ≡ lines
      → Searched free lines n from none
  all_taken skipped e a lo room =
      no_room_at a a (omega arith) (omega arith) (skipped.passed a lo (omega (arith, room.0))) room

  hole :
      {from start end : ℕ}
      → IsFirst free from lines start
      → IsFirst (λ i. not (free i)) start lines end
      → start + n ≤ end
      → IsHole free lines n from start end
  hole skipped taken long = record {
    above = skipped.above;
    room = long;
    below = taken.below;
    is_free = λ j lo hi. not-false _ (taken.passed j lo hi);
    ends = λ h. not-true _ (taken.stops h);
    is_first = no_room_before skipped;
  }

  skipped_or_short :
      {from start end : ℕ}
      → IsFirst free from lines start
      → IsFirst (λ i. not (free i)) start lines end
      → end - start < n
      → (a : ℕ) → from ≤ a
      → a < end
      → ¬ HasRoom free lines n a
  skipped_or_short {start} skipped taken short a lo hi = elim (dec_lt a start) [
    | yes early ↦ no_room_before skipped a lo early
    | no late ↦ no_room_within taken short a (omega arith) hi
  ]

  pub not_empty :
      {from start end : ℕ}
      → IsFirst free from lines start
      → IsFirst (λ i. not (free i)) start lines end
      → start < lines
      → start < end
  not_empty {start} {end} skipped taken more = elim (dec_lt start end) [
    | yes h ↦ h
    | no h ↦
        let same : end ≡ start = omega (arith, taken.above) in
        let busy : free end ≡ false = not-true _ (taken.stops (omega arith)) in
        let idle : free end ≡ true = rw same (skipped.stops more) in cc
  ]

  Searched-over :
      {from end : ℕ}
      → ((a : ℕ) → from ≤ a → a < end → ¬ HasRoom free lines n a)
      → end ≡ lines
      → Searched free lines n from none
  Searched-over before e a lo room = before a lo (omega (arith, room.0)) room

  -- The search is complete, and finds the first hole.
  pub search-Searched :
      (fuel from : ℕ)
      → from ≤ lines
      → lines < from + fuel
      → Searched free lines n from (search free lines n fuel from)
  unfolding search
  search-Searched zero from le enough = absurd (omega arith)
  search-Searched (suc fuel) from le enough =
      let start = advance free (lines - from) from in
      let end = advance (λ i. not (free i)) (lines - start) start in
      let skipped = advance-IsFirst free (lines - from) from lines (omega arith) in
      let within : start ≤ lines = skipped.below in
      let taken =
        advance-IsFirst (λ i. not (free i)) (lines - start) start lines (omega (arith, within)) in
      elim (Bool-cases (start == lines)) [
        | inl none_left ↦ rw none_left (all_taken skipped ((==_iff _ _).0 none_left))
        | inr some_left ↦ rw some_left (elim (Bool-cases (ltb (end - start) n)) [
          | inl short ↦
              let before = λ (a : ℕ) (lo : from ≤ a) (hi : a < end).
                skipped_or_short skipped taken (omega (tests, short)) a lo hi in
              let lies : start < end = not_empty skipped taken (omega (tests, some_left)) in
              rw short (elim (Bool-cases (end == lines)) [
                | inl over ↦ rw over (Searched-over before ((==_iff _ _).0 over))
                | inr more ↦ rw more (
                    Searched-after (search free lines n fuel end) (omega (arith, skipped.above))
                      before (search-Searched fuel end taken.below (omega (arith, skipped.above))))
              ])
          | inr long ↦ rw long (hole skipped taken (omega (tests, long)))
        ])
      ]
