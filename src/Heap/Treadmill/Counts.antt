-- ===== src/Heap/Treadmill/Counts.antt =====
-- How often an object stands in the sets of src/util/treadmill.rs.
use mmtk_core.Base.{
  ℕ, ◌+◌, ◌≤◌, ◌≡◌, refl, ◌==◌, true, false, List, [], ◌∷◌, ◌++◌, if◌then◌else◌, arith,
}
use mmtk_core.Heap.Treadmill.{contains, insert, remove, TreadMill}

unfoldable pub occurs : ℕ → List ℕ → ℕ
occurs x [] = 0
occurs x (y ∷ ys) = occurs x ys + (if x == y then 1 else 0)

-- In all four sets together.
abbrev pub total : ℕ → TreadMill → ℕ
total x t =
    occurs x t.from_space
    + occurs x t.to_space
    + occurs x t.collect_nursery
    + occurs x t.alloc_nursery

pub contains-yes : (x : ℕ) (s : List ℕ) → contains x s ≡ true → 1 ≤ occurs x s
unfolding contains occurs
contains-yes x [] h = cc
contains-yes x (y ∷ ys) h = ground (arith, contains-yes x ys)

pub contains-no : (x : ℕ) (s : List ℕ) → contains x s ≡ false → occurs x s ≡ 0
unfolding contains occurs
contains-no x [] h = refl
contains-no x (y ∷ ys) h = ground (arith, contains-no x ys)

pub occurs-insert :
    (y x : ℕ) (s : List ℕ)
    → occurs x s ≡ 0
    → occurs y (insert x s) ≡ occurs y s + (if y == x then 1 else 0)
unfolding insert occurs
occurs-insert y x s h = ground (arith, contains-yes x s)

pub occurs-remove :
    (y x : ℕ) (s : List ℕ) → occurs y (remove x s) ≡ (if y == x then 0 else occurs y s)
unfolding remove occurs
occurs-remove y x [] = ground arith
occurs-remove y x (z ∷ zs) = ground (arith, occurs-remove y x zs)

pub occurs-append : (y : ℕ) (s t : List ℕ) → occurs y (s ++ t) ≡ occurs y s + occurs y t
unfolding occurs
occurs-append y [] t = omega arith
occurs-append y (z ∷ zs) t = ground (arith, occurs-append y zs t)
