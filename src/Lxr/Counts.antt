-- ===== src/Lxr/Counts.antt =====
-- Reference counts, `RefCountHelper` of src/util/rc.rs. Each table is a side metadata spec over its own
-- memory of bytes, as the layout of the specs keeps the tables apart; an object is its address. The
-- width of a count depends on the features, and is a parameter.
pub mod Changes
pub mod Sticky
use mmtk_core.Base.{ℕ, ◌+◌, ◌-◌, ◌^◌, ◌==◌, if◌then◌else◌, Bool, ◌||◌, not, Option, none, some}
use mmtk_core.Metadata.Spec.{SideMetadataSpec}
use mmtk_core.Metadata.Access.{Memory, Exchanged, load, store, fetch_update_atomic}

abbrev pub log_min_object_size : ℕ
log_min_object_size = 3

abbrev pub log_strong_ref_count_bits : ℕ
log_strong_ref_count_bits = 2

pub record RefCountHelper : Type 0 where
  pub log_ref_count_bits : ℕ
  pub rc_offset : ℕ
  pub strong_rc_offset : ℕ

abbrev pub rc_table : RefCountHelper → SideMetadataSpec
rc_table rc = record {
  offset = rc.rc_offset;
  log_num_of_bits = rc.log_ref_count_bits;
  log_bytes_in_region = log_min_object_size;
}

abbrev pub strong_rc_table : RefCountHelper → SideMetadataSpec
strong_rc_table rc = record {
  offset = rc.strong_rc_offset;
  log_num_of_bits = log_strong_ref_count_bits;
  log_bytes_in_region = log_min_object_size;
}

unfoldable pub max_ref_count : RefCountHelper → ℕ
max_ref_count rc = 2 ^ (2 ^ rc.log_ref_count_bits) - 1

abbrev pub max_strong_ref_count : ℕ
max_strong_ref_count = 15

unfoldable pub count : RefCountHelper → Memory → ℕ → ℕ
count rc mem o = load (rc_table rc) mem o

unfoldable pub fetch_update : RefCountHelper → Memory → ℕ → (ℕ → Option ℕ) → Exchanged × Memory
fetch_update rc mem o f = fetch_update_atomic (rc_table rc) mem o f

unfoldable pub stick : RefCountHelper → Memory → ℕ → Exchanged × Memory
unfolding fetch_update
stick rc mem o =
    fetch_update rc mem o (λ x. if x == max_ref_count rc then none else some (max_ref_count rc))

unfoldable pub inc : RefCountHelper → Memory → ℕ → Exchanged × Memory
unfolding fetch_update
inc rc mem o = fetch_update rc mem o (λ x. if x == max_ref_count rc then none else some (x + 1))

unfoldable pub dec : RefCountHelper → Memory → ℕ → Exchanged × Memory
unfolding fetch_update
dec rc mem o =
    fetch_update rc mem o (λ x. if x == 0 || x == max_ref_count rc then none else some (x - 1))

unfoldable pub set : RefCountHelper → Memory → ℕ → ℕ → Memory
set rc mem o n = store (rc_table rc) mem o n

unfoldable pub is_stuck : RefCountHelper → Memory → ℕ → Bool
is_stuck rc mem o = count rc mem o == max_ref_count rc

unfoldable pub is_dead : RefCountHelper → Memory → ℕ → Bool
is_dead rc mem o = load (rc_table rc) mem o == 0

unfoldable pub is_dead_or_stuck : RefCountHelper → Memory → ℕ → Bool
is_dead_or_stuck rc mem o = let v = load (rc_table rc) mem o in v == 0 || v == max_ref_count rc

unfoldable pub strong_rc_inc : RefCountHelper → Memory → ℕ → Exchanged × Memory
strong_rc_inc rc mem o =
    fetch_update_atomic (strong_rc_table rc) mem o
      (λ x. if x == max_strong_ref_count then none else some (x + 1))

unfoldable pub strong_rc_dec : RefCountHelper → Memory → ℕ → Exchanged × Memory
strong_rc_dec rc mem o =
    fetch_update_atomic (strong_rc_table rc) mem o (λ x. if x == 0 then none else some (x - 1))
