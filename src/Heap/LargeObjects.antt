-- ===== src/Heap/LargeObjects.antt =====
-- Collections of the large object space, src/policy/largeobjectspace.rs, without reference counting:
-- `prepare`, `trace_object` and `release` over the treadmill and two bits for each object. The bits that
-- log an object, the queue of objects to scan and the pages that are released are left out.
pub mod Collected
use mmtk_core.Base.{
  ℕ, ◌-◌, ◌/◌, ◌%◌, ◌==◌, Bool, true, false, not, ◌&&◌, ◌||◌, Option, none, some, List, [], ◌∷◌,
  ◌++◌, if◌then◌else◌, update,
}
use mmtk_core.Heap.Treadmill.{TreadMill, take_nursery, collect, copy, flip}

-- `bits` has `MARK_BIT` and `NURSERY_BIT` of each object.
pub record LargeObjectSpace : Type 0 where
  pub treadmill : TreadMill
  pub bits : ℕ → ℕ
  pub mark_state : ℕ
  pub in_nursery_gc : Bool
  pub needs_log_bit : Bool

unfoldable pub prepare : (full_heap : Bool) → LargeObjectSpace → LargeObjectSpace
prepare full_heap s = record s {
  mark_state = if full_heap then 1 - s.mark_state else s.mark_state;
  treadmill = flip full_heap s.treadmill;
  in_nursery_gc = not full_heap;
}

unfoldable pub is_in_nursery : LargeObjectSpace → ℕ → Bool
is_in_nursery s object = s.bits object / 2 % 2 == 1

-- The bits under the mask, `LOS_BIT_MASK` or `MARK_BIT`, are compared with the mark state.
unfoldable pub test_and_mark : LargeObjectSpace → ℕ → Bool × LargeObjectSpace
test_and_mark s object =
    let masked = s.bits object % (if s.in_nursery_gc then 4 else 2) in
    if masked == s.mark_state
    then (false, s)
    else (true, record s { bits = update s.bits object s.mark_state })

unfoldable pub trace_object : LargeObjectSpace → ℕ → LargeObjectSpace
unfolding is_in_nursery test_and_mark
trace_object s object =
    let nursery_object = is_in_nursery s object in
    let (marked, s') = test_and_mark s object in
    if not s.in_nursery_gc || nursery_object
    then (if marked then record s' { treadmill = copy object nursery_object s'.treadmill } else s')
    else s

-- The objects that are traced, one after another; an object may come up again.
unfoldable pub trace_all : LargeObjectSpace → List ℕ → LargeObjectSpace
trace_all s [] = s
trace_all s (x ∷ xs) = trace_all (trace_object s x) xs

abbrev pub is_empty_list : List ℕ → Bool
is_empty_list [] = true
is_empty_list (x ∷ xs) = false

-- The objects that are released. `none` is `unreachable!()`, which a dead object meets where the plan
-- needs a log bit.
unfoldable pub sweep_large_pages :
    (sweep_nursery : Bool) → LargeObjectSpace → Option (List ℕ × LargeObjectSpace)
sweep_large_pages sweep_nursery s =
    let (dead, t) = if sweep_nursery then take_nursery s.treadmill else collect s.treadmill in
    if s.needs_log_bit && not (is_empty_list dead)
    then none
    else some (dead, record s { treadmill = t })

unfoldable pub release : (full_heap : Bool) → LargeObjectSpace → Option (List ℕ × LargeObjectSpace)
unfolding sweep_large_pages
release full_heap s = elim (sweep_large_pages true s) [
  | none ↦ none
  | some (young, s') ↦
      if full_heap
      then elim (sweep_large_pages false s') [
        | none ↦ none
        | some (old, s'') ↦ some (young ++ old, s'')
      ]
      else some (young, s')
]

-- A collection of the whole heap that traces some objects.
unfoldable pub collect_full : List ℕ → LargeObjectSpace → Option (List ℕ × LargeObjectSpace)
collect_full traced s = release true (trace_all (prepare true s) traced)
