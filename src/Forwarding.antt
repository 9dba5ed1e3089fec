-- ===== src/Forwarding.antt =====
-- Forwarding of one object by several GC workers, src/util/object_forwarding.rs, called as
-- `trace_object` of src/policy/copyspace.rs calls it: `attempt_to_forward`, then either
-- `forward_object` or `spin_and_get_forwarded_object`. Each access to the metadata of the object is
-- one step. An object reference is a multiple of eight below 2 ^ 56, since `FORWARDING_POINTER_MASK`
-- keeps no other bits, and is given by its bits 3 to 55. The forwarding bits are at an even offset in
-- their byte.
pub mod View
pub mod Packed
pub mod Moves
pub mod Safety
use mmtk_core.Base.{ℕ, ◌+◌, ◌*◌, ◌<◌, ◌≡◌, ◌≢◌, Bool, true, false, update}
use Prim.Native.Nat.{bit_or}
use mmtk_core.Metadata.Bytes.{shl8, get_bits, put_bits}

abbrev pub forwarding_not_triggered_yet : ℕ
forwarding_not_triggered_yet = 0

abbrev pub being_forwarded : ℕ
being_forwarded = 2

abbrev pub forwarded : ℕ
forwarded = 3

-- A word of 64 bits: its bits 0 to 2, the bits of `FORWARDING_POINTER_MASK`, 3 to 55, and 56 to 63.
pub record Word : Type 0 where
  pub low : ℕ
  pub middle : ℕ
  pub high : ℕ

-- Where the forwarding bits are: in the lowest or the highest bits of the word of the pointer, in
-- which case one store sets both, or at a place in a byte of their own, in the header or on the side.
pub data Layout : Type 0 where
  in_low : Layout
  in_high : (place : ℕ) → Layout
  apart : (place : ℕ) → Layout

-- The words of one object's forwarding metadata, with other bits in them, and how often the object
-- has been copied.
pub record Metadata : Type 0 where
  pub word : Word
  pub byte : ℕ
  pub copies : ℕ

unfoldable pub combined : Layout → Bool
combined in_low = true
combined (in_high place) = true
combined (apart place) = false

-- `get_forwarding_status`: the two bits of the byte.
unfoldable pub get_forwarding_status : Layout → Metadata → ℕ
get_forwarding_status in_low m = get_bits 1 0 m.word.low
get_forwarding_status (in_high place) m = get_bits 1 (place * 2) m.word.high
get_forwarding_status (apart place) m = get_bits 1 (place * 2) m.byte

-- A store to the bits leaves the rest of their byte.
unfoldable pub set_forwarding_status : Layout → Metadata → ℕ → Metadata
set_forwarding_status in_low m status = record m {
  word = record (m.word) { low = put_bits 1 0 m.word.low status };
}
set_forwarding_status (in_high place) m status = record m {
  word = record (m.word) { high = put_bits 1 (place * 2) m.word.high status };
}
set_forwarding_status (apart place) m status = record m {
  byte = put_bits 1 (place * 2) m.byte status;
}

-- The word of a reference.
unfoldable pub of_reference : ℕ → Word
of_reference reference = record { low = 0; middle = reference; high = 0 }

-- The pointer with the shifted status, `new_object | (FORWARDED << shift)`.
unfoldable pub with_forwarded : Layout → ℕ → Word
unfolding of_reference
with_forwarded in_low new = record (of_reference new) {
  low = bit_or (of_reference new).low (shl8 forwarded 0);
}
with_forwarded (in_high place) new = record (of_reference new) {
  high = bit_or (of_reference new).high (shl8 forwarded (place * 2));
}
with_forwarded (apart place) new = of_reference new

-- `write_forwarding_pointer`, under the mask.
unfoldable pub write_pointer : Metadata → ℕ → Metadata
write_pointer m new = record m { word = record (m.word) { middle = new } }

-- `read_forwarding_pointer`, under the mask.
unfoldable pub read_pointer : Metadata → ℕ
read_pointer m = m.word.middle

-- Where a worker stands, with the local variables that are live there.
pub data Pc : Type 0 where
  attempt : Pc  -- head of the loop of `attempt_to_forward`
  loaded : (old_value : ℕ) → Pc  -- before its compare-exchange
  won : Pc  -- the compare-exchange succeeded: `forward_object` begins
  copied : (new_object : ℕ) → Pc  -- the object is copied, its forwarding state is not yet set
  pointer_written : (new_object : ℕ) → Pc  -- before the bits are set by their own store
  spinning : (forwarding_bits : ℕ) → Pc  -- `spin_and_get_forwarded_object`
  returned : (object : ℕ) → Pc

-- One step of a worker that traces the object at `object`. The compare-exchange compares the whole byte
-- of the bits, so it may also fail when they are as expected. The address of the copy is the VM's
-- choice.
pub data Move (object : ℕ) (l : Layout) (m : Metadata) : Pc → Metadata → Pc → Type 0 where
  load : Move object l m attempt m (loaded (get_forwarding_status l m))
  not_first :
      {old : ℕ} → old ≢ forwarding_not_triggered_yet → Move object l m (loaded old) m (spinning old)
  exchange :
      {old : ℕ}
      → old ≡ forwarding_not_triggered_yet
      → get_forwarding_status l m ≡ old
      → Move object l m (loaded old) (set_forwarding_status l m being_forwarded) won
  exchange_fails :
      {old : ℕ} → old ≡ forwarding_not_triggered_yet → Move object l m (loaded old) m attempt
  copy :
      (new_object : ℕ)
      → Move object l m won (record m { copies = m.copies + 1 }) (copied new_object)
  store_both :
      {new : ℕ}
      → combined l ≡ true
      → Move object l m (copied new) (record m { word = with_forwarded l new }) (returned new)
  write_forwarding_pointer :
      {new : ℕ}
      → combined l ≡ false
      → Move object l m (copied new) (write_pointer m new) (pointer_written new)
  store_bits :
      {new : ℕ}
      → Move object l m (pointer_written new) (set_forwarding_status l m forwarded) (returned new)
  spin :
      {b : ℕ}
      → b ≡ being_forwarded
      → Move object l m (spinning b) m (spinning (get_forwarding_status l m))
  read_forwarding_pointer :
      {b : ℕ} → b ≡ forwarded → Move object l m (spinning b) m (returned (read_pointer m))
  not_forwarded :
      {b : ℕ}
      → b ≢ being_forwarded
      → b ≢ forwarded
      → Move object l m (spinning b) m (returned object)

pub record System : Type 0 where
  pub metadata : Metadata
  pub pc : ℕ → Pc

-- The bytes that the bits may be in, and the place of the bits.
pub record IsPacked (l : Layout) (m : Metadata) : Type 0 where
  pub low : m.word.low < 256
  pub high : m.word.high < 256
  pub byte : m.byte < 256

abbrev pub IsPlaced : Layout → Type 0
IsPlaced in_low = Unit {0}
IsPlaced (in_high place) = place < 4
IsPlaced (apart place) = place < 4

-- Besides the workers, others may change the other bits at any time.
pub data Step (object : ℕ) (l : Layout) (n : ℕ) (s : System) : System → Type 0 where
  step :
      (i : ℕ) {m : Metadata} {p : Pc}
      → i < n
      → Move object l s.metadata (s.pc i) m p
      → Step object l n s (record { metadata = m; pc = update s.pc i p })
  other_bits :
      (m : Metadata)
      → IsPacked l m
      → get_forwarding_status l m ≡ get_forwarding_status l s.metadata
      → read_pointer m ≡ read_pointer s.metadata
      → m.copies ≡ s.metadata.copies
      → Step object l n s (record s { metadata = m })

-- At the start no worker has met the object, and it has not been copied; the pointer's bits and all
-- others are arbitrary.
pub data Reach (object : ℕ) (l : Layout) (n : ℕ) : System → Type 0 where
  start :
      (m : Metadata)
      → IsPacked l m
      → get_forwarding_status l m ≡ forwarding_not_triggered_yet
      → m.copies ≡ 0
      → Reach object l n (record { metadata = m; pc = λ _. attempt })
  later : {s t : System} → Reach object l n s → Step object l n s t → Reach object l n t
