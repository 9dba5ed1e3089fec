-- ===== src/Tests/FreeLists.antt =====
-- A free list of seven units in grains of two, with one head, for src/util/freelist.rs.
use mmtk_core.Base.{ℕ, ◌/◌, ◌<◌, ◌≡◌, ◌⊎◌, some, [], ◌∷◌, arith}
use mmtk_core.FreeList.{IntArrayFreeList, failure, get_size, alloc_first_fit}
use mmtk_core.FreeList.Ring.{All}
use mmtk_core.FreeList.Alloc.{IsAllocated, alloc_first_fit_lem}
use mmtk_core.FreeList.Initialize.{new}
use mmtk_core.FreeList.Initialize.Blocks.{IsHeap}
use mmtk_core.FreeList.Initialize.New.{grain_starts, offset_start, new-IsHeap}

seven : IsHeap (new 7 2 1) 0 (0 ∷ 2 ∷ 4 ∷ 6 ∷ [])
seven = new-IsHeap 7 2 1 (omega arith) (omega arith) (omega arith) (omega arith)

new-IsHeap_example : IsHeap (new 7 2 1) 0 (grain_starts (7 / 2) 2 (offset_start 7 2))
new-IsHeap_example = new-IsHeap 7 2 1 (omega arith) (omega arith) (omega arith) (omega arith)

alloc_first_fit_lem_example :
    (All (λ v. get_size (new 7 2 1) v < 1) (0 ∷ 2 ∷ 4 ∷ 6 ∷ [])
      × (alloc_first_fit 5 (new 7 2 1) 1 ≡ some (failure, new 7 2 1)))
    ⊎ ((u : ℕ) × (f' : IntArrayFreeList) × (alloc_first_fit 5 (new 7 2 1) 1 ≡ some (u, f'))
        × IsAllocated (new 7 2 1) 1 (0 ∷ 2 ∷ 4 ∷ 6 ∷ []) u f')
alloc_first_fit_lem_example =
    alloc_first_fit_lem 5 1 (new 7 2 1) (0 ∷ 2 ∷ 4 ∷ 6 ∷ []) (omega arith) (omega arith) seven.ring
      seven.blocks
