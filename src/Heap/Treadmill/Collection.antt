-- ===== src/Heap/Treadmill/Collection.antt =====
-- Any sequence of the operations of `TreadMill`, src/util/treadmill.rs.
use mmtk_core.Base.{ℕ, ◌+◌, ◌≤◌, ◌≡◌, ◌==◌, Bool, true, false, List, if◌then◌else◌, arith}
use mmtk_core.Heap.Treadmill.{
  contains, TreadMill, new, add_to_treadmill, take_nursery, collect, copy, flip,
}
use mmtk_core.Heap.Treadmill.Counts.{occurs, total, contains-yes, occurs-insert, occurs-remove}

-- The set that `copy` takes the object from, and that its assertion looks into.
abbrev pub source : Bool → TreadMill → List ℕ
source true t = t.collect_nursery
source false t = t.from_space

abbrev pub IsDisjoint : TreadMill → Type 0
IsDisjoint t = (y : ℕ) → total y t ≤ 1

-- Copying moves one object to `to_space` and leaves every other where it is.
copy-counts :
    (x : ℕ) (n : Bool) (t : TreadMill)
    → IsDisjoint t
    → contains x (source n t) ≡ true
    → (y : ℕ)
    → (occurs y (copy x n t).to_space ≡ occurs y t.to_space + (if y == x then 1 else 0))
      × (occurs y (copy x n t).from_space
            + occurs y (copy x n t).collect_nursery
            + (if y == x then 1 else 0)
          ≡ occurs y t.from_space + occurs y t.collect_nursery)
      × ((copy x n t).alloc_nursery ≡ t.alloc_nursery)
unfolding copy
copy-counts x true t d h y = ground (
  arith,
  d x,
  contains-yes x t.collect_nursery h,
  occurs-insert y x t.to_space,
  occurs-remove y x t.collect_nursery,
)
copy-counts x false t d h y = ground (
  arith,
  d x,
  contains-yes x t.from_space h,
  occurs-insert y x t.to_space,
  occurs-remove y x t.from_space,
)

-- The calls, with what the callers have to see to: an object that is added is in no set, since it has
-- just been allocated, and one that is copied is in its source, which `copy` asserts in debug builds.
pub data Step (t : TreadMill) : TreadMill → Type 0 where
  adds : (x : ℕ) (nursery : Bool) → total x t ≡ 0 → Step t (add_to_treadmill x nursery t)
  copies : (x : ℕ) (n : Bool) → contains x (source n t) ≡ true → Step t (copy x n t)
  collects : Step t (collect t).1
  collects_nursery : Step t (take_nursery t).1
  flips : (full_heap : Bool) → Step t (flip full_heap t)

pub data Reach : TreadMill → Type 0 where
  start : Reach new
  later : {t u : TreadMill} → Reach t → Step t u → Reach u

adds-total :
    (x : ℕ) (nursery : Bool) (t : TreadMill)
    → total x t ≡ 0
    → (y : ℕ) → total y (add_to_treadmill x nursery t) ≡ total y t + (if y == x then 1 else 0)
unfolding add_to_treadmill
adds-total x true t h y = ground (arith, occurs-insert y x t.alloc_nursery)
adds-total x false t h y = ground (arith, occurs-insert y x t.to_space)

Step-IsDisjoint : {t u : TreadMill} → Step t u → IsDisjoint t → IsDisjoint u
unfolding collect take_nursery flip occurs
Step-IsDisjoint {t} (adds x n h) d = λ y. ground (arith, d y, adds-total x n t h y)
Step-IsDisjoint {t} (copies x n h) d =
    λ y. let (a, b, c) = copy-counts x n t d h y in rw c (omega (arith, a, b, d y))
Step-IsDisjoint {t} collects d = λ y. omega (arith, d y)
Step-IsDisjoint {t} collects_nursery d = λ y. omega (arith, d y)
Step-IsDisjoint {t} (flips true) d = λ y. omega (arith, d y)
Step-IsDisjoint {t} (flips false) d = λ y. omega (arith, d y)

-- Where an object is added only while it is in no set, and copied only while it is in the set that the
-- call names, `collect_nursery` or `from_space`: however objects are added, copied and collected and
-- the spaces flipped, no object is ever in two of the four sets.
pub Reach-IsDisjoint : {t : TreadMill} → Reach t → IsDisjoint t
unfolding new occurs
Reach-IsDisjoint start = λ y. omega arith
Reach-IsDisjoint (later r s) = Step-IsDisjoint s (Reach-IsDisjoint r)
