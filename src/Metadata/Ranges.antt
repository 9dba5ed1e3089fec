-- ===== src/Metadata/Ranges.antt =====
-- `break_bit_range` of src/util/metadata/side_metadata/ranges.rs: a range of bits is visited as whole
-- bytes and as bits within a byte. An address is a number; the visitor is a function on its state,
-- and returns whether the iteration stops.
pub mod Cover
use mmtk_core.Base.{
  ℕ, ◌+◌, ◌*◌, ◌<◌, ◌==◌, ltb, Bool, true, false, ◌&&◌, List, [], ◌∷◌, if◌then◌else◌,
}

pub data BitByteRange : Type 0 where
  bytes : (start end : ℕ) → BitByteRange
  bits_in_byte : (addr bit_start bit_end : ℕ) → BitByteRange

abbrev pub Visitor : Type 0 → Type 0
Visitor S = BitByteRange → S → S × Bool

module _ {S : Type 0} where
  -- `a || b` over functions that change the visitor's state.
  unfoldable pub or_visit : (S → S × Bool) → (S → S × Bool) → S → S × Bool
  or_visit a b s = let (s', stop) = a s in if stop then (s', true) else b s'

  unfoldable pub visit_start : ℕ → ℕ → Visitor S → S → S × Bool
  visit_start start_addr start_bit v s =
      if start_bit == 0 then (s, false) else v (bits_in_byte start_addr start_bit 8) s

  unfoldable pub visit_middle : ℕ → ℕ → ℕ → Visitor S → S → S × Bool
  visit_middle start_addr start_bit end_addr v s =
      let start = if start_bit == 0 then start_addr else start_addr + 1 in
      if ltb start end_addr then v (bytes start end_addr) s else (s, false)

  unfoldable pub visit_end : ℕ → ℕ → Visitor S → S → S × Bool
  visit_end end_addr end_bit v s =
      if end_bit == 0 then (s, false) else v (bits_in_byte end_addr 0 end_bit) s

  -- The state of the visitor after the call, and what the call returns.
  unfoldable pub break_bit_range :
      (start_addr start_bit end_addr end_bit : ℕ) → Bool → Visitor S → S → S × Bool
  unfolding or_visit visit_start visit_middle visit_end
  break_bit_range start_addr start_bit end_addr end_bit forwards v s =
      let first = visit_start start_addr start_bit v in
      let middle = visit_middle start_addr start_bit end_addr v in
      let last = visit_end end_addr end_bit v in
      if start_addr == end_addr && start_bit == end_bit
      then (s, false)
      else if start_bit == 0 && end_bit == 0
      then v (bytes start_addr end_addr) s
      else if start_addr == end_addr
      then v (bits_in_byte start_addr start_bit end_bit) s
      else if start_addr + 1 == end_addr && end_bit == 0
      then v (bits_in_byte start_addr start_bit 8) s
      else if forwards
      then or_visit first (or_visit middle last) s
      else or_visit last (or_visit middle first) s
