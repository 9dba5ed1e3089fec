-- ===== src/Tests/Treadmill.antt =====
-- Large objects, src/util/treadmill.rs and src/policy/largeobjectspace.rs.
use mmtk_core.Base.{
  ℕ, ◌+◌, ◌≤◌, ◌≡◌, refl, true, false, none, some, List, [], ◌∷◌, ◌==◌, if◌then◌else◌, arith,
}
use mmtk_core.Heap.Treadmill.{
  TreadMill, new, add_to_treadmill, copy, flip, contains, insert, remove, take_nursery, collect,
  enumerate_objects,
}
use mmtk_core.Heap.LargeObjects.{
  LargeObjectSpace, prepare, is_in_nursery, test_and_mark, trace_object, trace_all,
  sweep_large_pages, release, collect_full,
}
use mmtk_core.Heap.LargeObjects.Collected.{IsReady, collect_full-partition}
use mmtk_core.Heap.Treadmill.Counts.{occurs, total}
use mmtk_core.Heap.Treadmill.Collection.{
  IsDisjoint, Reach, start, later, adds, copies, flips, Reach-IsDisjoint,
}

abbrev one_copied : TreadMill
one_copied = copy 5 true (flip true (add_to_treadmill 6 true (add_to_treadmill 5 true new)))

five_new : total 5 new ≡ 0
unfolding new occurs
five_new = refl

six_new : total 6 (add_to_treadmill 5 true new) ≡ 0
unfolding new occurs add_to_treadmill insert
six_new = refl

five_there :
    contains 5 (flip true (add_to_treadmill 6 true (add_to_treadmill 5 true new))).collect_nursery
    ≡ true
unfolding new add_to_treadmill insert flip
five_there = refl

Reach-one_copied : Reach one_copied
Reach-one_copied =
    later (later (later (later start (adds 5 true five_new)) (adds 6 true six_new)) (flips true))
      (copies 5 true five_there)

Reach-IsDisjoint_example : IsDisjoint one_copied
Reach-IsDisjoint_example = Reach-IsDisjoint Reach-one_copied

-- Two old objects and a new one.
abbrev three_objects : LargeObjectSpace
three_objects = record {
  treadmill = record {
    from_space = [];
    to_space = 3 ∷ 4 ∷ [];
    collect_nursery = [];
    alloc_nursery = 6 ∷ [];
  };
  bits = λ y. if y == 6 then 2 else 0;
  mark_state = 0;
  in_nursery_gc = false;
  needs_log_bit = false;
}

abbrev traced : List ℕ
traced = 4 ∷ 6 ∷ 4 ∷ []

three_objects-IsReady : IsReady three_objects
unfolding occurs
three_objects-IsReady = record {
  disjoint = λ y. ground arith;
  no_from_space = refl;
  no_collect_nursery = refl;
  state = omega arith;
  new = λ y lt. ground arith;
  old = λ y lt. ground arith;
}

live-traced : (y : ℕ) → contains y traced ≡ true → 1 ≤ total y three_objects.treadmill
unfolding occurs contains
live-traced y c = ground arith

collect_full-partition_example :
    (r : List ℕ × LargeObjectSpace) × (collect_full traced three_objects ≡ some r)
    × ((y : ℕ)
        → (occurs y r.0 + (if contains y traced then 1 else 0) ≡ total y three_objects.treadmill)
          × (occurs y (enumerate_objects r.1.treadmill) ≡ (if contains y traced then 1 else 0)))
    × IsReady r.1
collect_full-partition_example =
    collect_full-partition traced three_objects three_objects-IsReady refl live-traced

-- With a log bit, the dead object 3 is a panic.
collect_full_logged : collect_full traced (record three_objects { needs_log_bit = true }) ≡ none
unfolding collect_full prepare is_in_nursery test_and_mark trace_object trace_all sweep_large_pages
    release flip copy contains insert remove take_nursery collect
collect_full_logged = refl
