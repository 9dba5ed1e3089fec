-- ===== src/Metadata/Ranges/Cover.antt =====
-- What `break_bit_range` visits, src/util/metadata/side_metadata/ranges.rs.
use mmtk_core.Base.{
  ℕ, ◌+◌, ◌*◌, ◌<◌, ◌≤◌, ◌≡◌, refl, ◌==◌, ltb, Bool, true, false, ◌&&◌, List, [], ◌∷◌, ◌++◌,
  if◌then◌else◌, arith,
}
use mathlib.Core.List.{reverse}
use mmtk_core.Metadata.Ranges.{BitByteRange, bytes, bits_in_byte, Visitor, break_bit_range}

-- The positions of the first bit of a range and of the bit after its last one.
abbrev pub first_bit : BitByteRange → ℕ
first_bit (bytes start end) = start * 8
first_bit (bits_in_byte addr b e) = addr * 8 + b

abbrev pub last_bit : BitByteRange → ℕ
last_bit (bytes start end) = end * 8
last_bit (bits_in_byte addr b e) = addr * 8 + e

-- A range is not empty, and bits stay within their byte.
abbrev pub IsProper : BitByteRange → Type 0
IsProper (bytes start end) = start < end
IsProper (bits_in_byte addr b e) = (b < e) × (e ≤ 8)

-- The ranges lie end to end from the bit `lo` to the bit `hi`.
abbrev pub Tiles : ℕ → ℕ → List BitByteRange → Type 0
Tiles lo hi [] = lo ≡ hi
Tiles lo hi (r ∷ rs) = (first_bit r ≡ lo) × IsProper r × Tiles (last_bit r) hi rs

-- Visit ranges in order until the visitor stops.
abbrev pub visit_all : {S : Type 0} → List BitByteRange → Visitor S → S → S × Bool
visit_all [] v s = (s, false)
visit_all (r ∷ rs) v s =
    let rest = visit_all rs v (v r s).0 in if (v r s).1 then ((v r s).0, true) else rest

abbrev pub directed : Bool → List BitByteRange → List BitByteRange
directed true rs = rs
directed false rs = reverse rs

-- The ranges, from low to high.
pieces : (start_addr start_bit end_addr end_bit : ℕ) → List BitByteRange
pieces sa sb ea eb =
    let first = if sb == 0 then [] else bits_in_byte sa sb 8 ∷ [] in
    let start = if sb == 0 then sa else sa + 1 in
    let middle = if ltb start ea then bytes start ea ∷ [] else [] in
    let last = if eb == 0 then [] else bits_in_byte ea 0 eb ∷ [] in
    if sa == ea && sb == eb
    then []
    else if sb == 0 && eb == 0
    then bytes sa ea ∷ []
    else if sa == ea
    then bits_in_byte sa sb eb ∷ []
    else if sa + 1 == ea && eb == 0
    then bits_in_byte sa sb 8 ∷ []
    else first ++ middle ++ last

pieces-Tiles :
    (sa sb ea eb : ℕ)
    → sb < 8
    → eb < 8
    → sa * 8 + sb ≤ ea * 8 + eb
    → Tiles (sa * 8 + sb) (ea * 8 + eb) (pieces sa sb ea eb)
unfolding pieces
pieces-Tiles sa sb ea eb hs he h = ground arith

visits_forwards :
    {S : Type 0} (sa sb ea eb : ℕ) (v : Visitor S) (s : S)
    → break_bit_range sa sb ea eb true v s ≡ visit_all (pieces sa sb ea eb) v s
unfolding break_bit_range pieces
visits_forwards sa sb ea eb v s = ground arith

visits_backwards :
    {S : Type 0} (sa sb ea eb : ℕ) (v : Visitor S) (s : S)
    → break_bit_range sa sb ea eb false v s ≡ visit_all (reverse (pieces sa sb ea eb)) v s
unfolding break_bit_range pieces
visits_backwards sa sb ea eb v s = ground arith

-- For bit offsets within a byte and an end that is not before the start: there are non-empty ranges
-- that lie end to end from the first bit to the end bit, so that each bit is in exactly one of them,
-- and `break_bit_range` visits them in that order, or in the reverse order if it goes backwards,
-- until the visitor stops; it returns whether the visitor stopped.
pub break_bit_range-Tiles :
    (sa sb ea eb : ℕ)
    → sb < 8
    → eb < 8
    → sa * 8 + sb ≤ ea * 8 + eb
    → (rs : List BitByteRange) × Tiles (sa * 8 + sb) (ea * 8 + eb) rs
      × ((S : Type 0) (forwards : Bool) (v : Visitor S) (s : S)
          → break_bit_range sa sb ea eb forwards v s ≡ visit_all (directed forwards rs) v s)
break_bit_range-Tiles sa sb ea eb hs he h =
    (pieces sa sb ea eb, pieces-Tiles sa sb ea eb hs he h, visits)
  where
    visits :
        (S : Type 0) (forwards : Bool) (v : Visitor S) (s : S)
        → break_bit_range sa sb ea eb forwards v s
          ≡ visit_all (directed forwards (pieces sa sb ea eb)) v s
    visits S true v s = visits_forwards sa sb ea eb v s
    visits S false v s = visits_backwards sa sb ea eb v s

visit_all-completes :
    {S : Type 0} (rs : List BitByteRange) (v : Visitor S)
    → ((r : BitByteRange) (s : S) → (v r s).1 ≡ false)
    → (s : S) → (visit_all rs v s).1 ≡ false
visit_all-completes [] v h s = refl
visit_all-completes (r ∷ rs) v h s = rw (h r s) (visit_all-completes rs v h (v r s).0)

-- If the visitor never stops, then the call returns false, at any
-- arguments and in either direction.
pub break_bit_range-completes :
    {S : Type 0} (sa sb ea eb : ℕ) (forwards : Bool) (v : Visitor S)
    → ((r : BitByteRange) (s : S) → (v r s).1 ≡ false)
    → (s : S) → (break_bit_range sa sb ea eb forwards v s).1 ≡ false
break_bit_range-completes sa sb ea eb true v h s =
    rw (visits_forwards sa sb ea eb v s) (visit_all-completes (pieces sa sb ea eb) v h s)
break_bit_range-completes sa sb ea eb false v h s =
    rw (visits_backwards sa sb ea eb v s) (visit_all-completes (reverse (pieces sa sb ea eb)) v h s)
