-- ===== src/Tests/Objects.antt =====
-- Two workers trace one object, src/util/object_forwarding.rs, and a range of bits is broken up,
-- src/util/metadata/side_metadata/ranges.rs.
use mmtk_core.Base.{
  ℕ, ◌+◌, ◌*◌, ◌≤◌, ◌≡◌, refl, Bool, true, false, update, arith, List, [], ◌∷◌, ◌++◌,
}
use mmtk_core.Forwarding.{
  attempt, loaded, won, copied, spinning, returned, Pc, load, exchange, not_first, System, step,
  Reach, start, later, Metadata, Move, in_high, get_forwarding_status, set_forwarding_status,
  with_forwarded, IsPacked,
}
use mmtk_core.Forwarding.Moves.{is_owner}
use mmtk_core.Metadata.Spec.{meta_byte_mask}
use mmtk_core.Forwarding.Safety.{one_forwarder}
use mmtk_core.Metadata.Ranges.{BitByteRange, bits_in_byte, bytes, Visitor, break_bit_range}
use mmtk_core.Metadata.Ranges.Cover.{Tiles, visit_all, directed, break_bit_range-Tiles}

abbrev set_pc : ℕ → Pc → System → System
set_pc i p s = record s { pc = update s.pc i p }

abbrev with_metadata : Metadata → System → System
with_metadata m s = record s { metadata = m }

-- The forwarding bits are bits 56 and 57 of the word; other bits are set beside them.
abbrev header : Metadata
header = record { word = record { low = 0; middle = 99; high = 0x50 }; byte = 0; copies = 0 }

abbrev s0 : System
s0 = record { metadata = header; pc = λ _. attempt }

-- Worker 0 has won; worker 1 spins.
abbrev s1 : System
s1 = set_pc 0 (loaded 0) s0

abbrev s2 : System
s2 = set_pc 0 won (with_metadata (set_forwarding_status (in_high 0) header 2) s1)

abbrev s3 : System
s3 = set_pc 1 (loaded 2) s2

abbrev s4 : System
s4 = set_pc 1 (spinning 2) s3

abbrev copied_header : Metadata
copied_header = record (s4.metadata) { copies = 1 }

abbrev s5 : System
s5 = set_pc 0 (copied 64) (with_metadata copied_header s4)

abbrev s6 : System
s6 =
    set_pc 0 (returned 64)
      (with_metadata (record copied_header { word = with_forwarded (in_high 0) 64 }) s5)

abbrev s7 : System
s7 = set_pc 1 (spinning 3) s6

abbrev s8 : System
s8 = set_pc 1 (returned 64) s7

header-IsPacked : IsPacked (in_high 0) header
header-IsPacked = record { low = omega arith; high = omega arith; byte = omega arith }

load_zero : Move 8 (in_high 0) header attempt header (loaded 0)
unfolding get_forwarding_status meta_byte_mask
load_zero = load

load_two : Move 8 (in_high 0) s2.metadata attempt s2.metadata (loaded 2)
unfolding get_forwarding_status set_forwarding_status meta_byte_mask
load_two = load

untouched : get_forwarding_status (in_high 0) header ≡ 0
unfolding get_forwarding_status meta_byte_mask
untouched = refl

reach4 : Reach 8 (in_high 0) 2 s4
reach4 =
    later
      (later
        (later
          (later (start header header-IsPacked untouched refl) (step 0 (omega arith) load_zero))
          (step 0 (omega arith) (exchange refl untouched)))
        (step 1 (omega arith) load_two))
      (step 1 (omega arith) (not_first (omega arith)))

one_forwarder_example :
    ((i j : ℕ) → is_owner (s4.pc i) ≡ true → is_owner (s4.pc j) ≡ true → i ≡ j)
    × (s4.metadata.copies ≤ 1)
one_forwarder_example = one_forwarder (omega arith) reach4

break_bit_range-Tiles_example :
    (rs : List BitByteRange) × Tiles (2 * 8 + 3) (5 * 8 + 1) rs
    × ((S : Type 0) (forwards : Bool) (v : Visitor S) (s : S)
        → break_bit_range 2 3 5 1 forwards v s ≡ visit_all (directed forwards rs) v s)
break_bit_range-Tiles_example =
    break_bit_range-Tiles 2 3 5 1 (omega arith) (omega arith) (omega arith)

abbrev record_range : Visitor (List BitByteRange)
record_range r s = (s ++ r ∷ [], false)

-- From bit 3 of byte 2 to bit 1 of byte 5, backwards.
three_ranges :
    (break_bit_range 2 3 5 1 false record_range []).0
    ≡ bits_in_byte 5 0 1 ∷ bytes 3 5 ∷ bits_in_byte 2 3 8 ∷ []
unfolding break_bit_range
three_ranges = refl
