-- ===== src/Heap/Treadmill.antt =====
-- `TreadMill` of src/util/treadmill.rs: the objects of the large object space, in four sets. A
-- `HashSet` is the list of its members in the order of its iteration; where an insertion puts a new
-- member is left to the list's head.
pub mod Counts
pub mod Collection
use mmtk_core.Base.{ℕ, ◌==◌, Bool, true, false, List, [], ◌∷◌, ◌++◌, if◌then◌else◌}

unfoldable pub contains : ℕ → List ℕ → Bool
contains x [] = false
contains x (y ∷ ys) = let rest = contains x ys in if x == y then true else rest

unfoldable pub insert : ℕ → List ℕ → List ℕ
unfolding contains
insert x s = if contains x s then s else x ∷ s

unfoldable pub remove : ℕ → List ℕ → List ℕ
remove x [] = []
remove x (y ∷ ys) = let rest = remove x ys in if x == y then rest else y ∷ rest

pub record TreadMill : Type 0 where
  pub from_space : List ℕ
  pub to_space : List ℕ
  pub collect_nursery : List ℕ
  pub alloc_nursery : List ℕ

unfoldable pub new : TreadMill
new = record { from_space = []; to_space = []; collect_nursery = []; alloc_nursery = [] }

unfoldable pub add_to_treadmill : ℕ → Bool → TreadMill → TreadMill
unfolding insert
add_to_treadmill object nursery t =
    if nursery
    then record t { alloc_nursery = insert object t.alloc_nursery }
    else record t { to_space = insert object t.to_space }

-- `collect_nursery()`: the set's members, and it is cleared.
unfoldable pub take_nursery : TreadMill → List ℕ × TreadMill
take_nursery t = (t.collect_nursery, record t { collect_nursery = [] })

unfoldable pub collect : TreadMill → List ℕ × TreadMill
collect t = (t.from_space, record t { from_space = [] })

unfoldable pub copy : ℕ → Bool → TreadMill → TreadMill
unfolding insert remove
copy object is_in_nursery t =
    if is_in_nursery
    then record t {
      collect_nursery = remove object t.collect_nursery;
      to_space = insert object t.to_space;
    }
    else record t { from_space = remove object t.from_space; to_space = insert object t.to_space }

unfoldable pub flip : Bool → TreadMill → TreadMill
flip full_heap t =
    let nursery = record t {
      alloc_nursery = t.collect_nursery;
      collect_nursery = t.alloc_nursery;
    } in
    if full_heap
    then record nursery { from_space = t.to_space; to_space = t.from_space }
    else nursery

-- The objects that `enumerate_objects` visits, in order.
unfoldable pub enumerate_objects : TreadMill → List ℕ
enumerate_objects t = t.alloc_nursery ++ t.to_space
