-- ===== src/Tests/Runtime.antt =====
-- Reference counts, finalizers and the map of chunks: src/util.
use mmtk_core.Base.{
  ℕ, ◌+◌, ◌-◌, ◌≤◌, ◌<◌, ◌≡◌, ◌≢◌, refl, ◌⊎◌, inl, ◌==◌, if◌then◌else◌, not, ◌%◌, true, false, some,
  List, [], ◌∷◌, ◌++◌, length, take, drop, ltb, arith,
}
use mmtk_core.Metadata.Spec.{meta_byte_mask}
use mmtk_core.Metadata.Access.{Memory, load}
use mmtk_core.Lxr.Counts.{RefCountHelper, max_ref_count, count, is_dead}
use mmtk_core.Lxr.Counts.Changes.{
  Change, inc_of, dec_of, stick_of, apply_all, references, IsBalanced,
}
use mmtk_core.Lxr.Counts.Sticky.{is_dead-references}
use mmtk_core.Finalization.{Tracing, FinalizableProcessor, new, scan}
use mmtk_core.Finalization.Partition.{ids, ids_with, scan_start, scan-partition}
use mmtk_core.Finalization.Counted.{
  Call, adds, scans, forwards, takes_ready, takes_for, Life, run, IsKept, run-IsKept,
}
use mmtk_core.Heap.Mmapper.{
  unmapped, mapped, protected, new as new_map, Os, OsCall, ByteMapMmapper, bytes_to_mmap_chunks_up,
  for_chunks, transition_to_protected, protected_from, call_then, ok, err, ensure_mapped, protect,
  pages_to_bytes, is_mapped_address, address_to_mmap_chunks_down, address_to_mmap_chunks_up,
  pages_to_mmap_chunks_up, mmap_chunk_bytes, mmap_num_chunks,
}
use mmtk_core.Heap.Mmapper.Ensured.{is_protected, ensure_mapped_lem, protect_lem}
use mmtk_core.Heap.Mmapper.System.{AreGuarded}
use mmtk_core.Heap.Mmapper.Guarded.{
  Method, marks, ensures, quarantines, protects, run_methods, run_methods-AreGuarded,
}

-- Counts of two bits.
abbrev two_bits : RefCountHelper
two_bits = record { log_ref_count_bits = 1; rc_offset = 1000; strong_rc_offset = 9000 }

abbrev no_counts : Memory
no_counts a = 0

abbrev changes : List Change
changes = inc_of 0x40 ∷ inc_of 0x48 ∷ dec_of 0x40 ∷ inc_of 0x48 ∷ stick_of 0x48 ∷ []

changes-IsBalanced : IsBalanced two_bits 0x40 0 changes
changes-IsBalanced = ground arith

not_counted : count two_bits no_counts 0x40 ≡ 0
unfolding count load meta_byte_mask
not_counted = refl

is_dead-references_example :
    let mem' = apply_all two_bits no_counts changes in
    let refs' = references two_bits 0x40 0 changes in
    ((count two_bits mem' 0x40 ≡ refs') ⊎ (count two_bits mem' 0x40 ≡ max_ref_count two_bits))
    × (is_dead two_bits mem' 0x40 ≡ true → refs' ≡ 0)
is_dead-references_example =
    is_dead-references two_bits no_counts changes 0x40 0 (omega arith) (λ a. omega arith)
      (omega arith) changes-IsBalanced (inl not_counted)

-- The objects below 10 are live, and the closure counts what is kept alive.
abbrev below_ten : Tracing
below_ten = record {
  Edges = ℕ;
  Finalizable = ℕ;
  get_reference = λ f. f;
  is_live = λ e o. ltb o 10;
  keep_alive = λ e f. (e + 1, f);
  flush = λ e. 0;
  id = λ f. f;
  keeps_id = λ e f. refl;
}

abbrev processor : FinalizableProcessor below_ten
processor = record { candidates = 3 ∷ 12 ∷ 4 ∷ []; nursery_index = 1; ready_for_finalize = 15 ∷ [] }

scan-partition_example :
    let start = scan_start below_ten processor true in
    let all : List ℕ = 3 ∷ 12 ∷ 4 ∷ 15 ∷ [] in
    (r : FinalizableProcessor below_ten × ℕ) × (scan below_ten processor 0 true ≡ some r)
    × (ids below_ten r.0.candidates
        ≡ ids below_ten (take start all) ++ ids_with below_ten 0 true (drop start all))
    × (ids below_ten r.0.ready_for_finalize ≡ ids_with below_ten 0 false (drop start all))
    × (r.0.nursery_index ≡ length r.0.candidates)
scan-partition_example = scan-partition below_ten processor 0 true (omega arith)

abbrev calls : List (Call below_ten)
calls = adds 3 ∷ adds 12 ∷ scans 0 true ∷ adds 4 ∷ takes_ready ∷ takes_for 4 ∷ forwards 0 ∷ []

run-IsKept_example :
    (l : Life below_ten) × (run below_ten
        (record { processor = new below_ten; added = []; handed_out = [] })
        calls
      ≡ some l)
    × IsKept below_ten l
run-IsKept_example = run-IsKept below_ten calls

-- A system that refuses the fourth call.
abbrev refuses : Os
refuses cs c = not (length cs == 3)

abbrev one_mapped : ByteMapMmapper
one_mapped = record { states = λ chunk. if chunk == 2 then mapped else unmapped; calls = [] }

-- A page before the third chunk, and one in it.
ensure_mapped_lem_example :
    let r = ensure_mapped refuses one_mapped 0x7ff000 2 in
    (r.0 ≢ err)
    × (r.0 ≡ ok
        → (a : ℕ) → 0x7ff000 ≤ a
        → a < 0x7ff000 + pages_to_bytes 2
        → is_mapped_address r.1 a ≡ true)
    × ((chunk : ℕ)
        → (chunk < address_to_mmap_chunks_down 0x7ff000)
          ⊎ (address_to_mmap_chunks_up (0x7ff000 + pages_to_bytes 2) ≤ chunk)
        → r.1.states chunk ≡ one_mapped.states chunk)
    × (((calls : List OsCall) (c : OsCall) → refuses calls c ≡ true)
        → address_to_mmap_chunks_up (0x7ff000 + pages_to_bytes 2) ≤ mmap_num_chunks
        → r.0 ≡ ok)
ensure_mapped_lem_example = ensure_mapped_lem refuses one_mapped 0x7ff000 2

all_mapped : ByteMapMmapper
all_mapped = record { states = λ chunk. mapped; calls = [] }

protect_lem_example :
    let r = protect refuses all_mapped 0x7ff000 2 in
    (r.0 ≢ err)
    × (r.0 ≡ ok
        → 0x7ff000 % mmap_chunk_bytes ≡ 0
        → (a : ℕ) → 0x7ff000 ≤ a
        → a < 0x7ff000 + pages_to_bytes 2
        → is_protected (r.1.states (address_to_mmap_chunks_down a)) ≡ true)
    × (address_to_mmap_chunks_down 0x7ff000 + pages_to_mmap_chunks_up 2
          < address_to_mmap_chunks_up (0x7ff000 + pages_to_bytes 2)
        → let last = address_to_mmap_chunks_down (0x7ff000 + pages_to_bytes 2 - 1) in
          r.1.states last ≡ all_mapped.states last)
protect_lem_example = protect_lem refuses all_mapped 0x7ff000 2

-- The second of the two chunks stays as it is.
protects_one :
    ((protect refuses all_mapped 0x7ff000 2).1.states 1 ≡ protected)
    × ((protect refuses all_mapped 0x7ff000 2).1.states 2 ≡ mapped)
unfolding protect all_mapped address_to_mmap_chunks_down address_to_mmap_chunks_up
    pages_to_mmap_chunks_up bytes_to_mmap_chunks_up pages_to_bytes for_chunks mmap_num_chunks
    transition_to_protected protected_from call_then
protects_one = (refl, refl)

abbrev methods : List Method
methods =
    quarantines 0 1024 ∷ ensures 0x1000 2 ∷ protects 0 1 ∷ ensures 0 1 ∷ marks 0x800000 4096 ∷ []

run_methods-AreGuarded_example : AreGuarded refuses (run_methods refuses new_map methods).calls
run_methods-AreGuarded_example = run_methods-AreGuarded refuses methods
