-- ===== src/Heap/Mmapper/System.antt =====
-- What the operating system is asked for, and what the calls that succeed leave.
use mmtk_core.Base.{ℕ, ◌≡◌, ◌==◌, if◌then◌else◌, List, [], ◌∷◌}
use mmtk_core.Heap.Mmapper.{
  OsCall, dzmmap_noreplace, dzmmap, munprotect, mmap_noreserve, mprotect, Os,
}

-- How the calls that succeeded have left a chunk.
pub data Memory : Type 0 where
  free : Memory
  reserved : Memory
  accessible : Memory
  inaccessible : Memory

abbrev pub after_call : OsCall → ℕ → Memory → Memory
after_call (dzmmap_noreplace k) chunk s = if k == chunk then accessible else s
after_call (dzmmap k) chunk s = if k == chunk then accessible else s
after_call (munprotect k) chunk s = if k == chunk then accessible else s
after_call (mmap_noreserve k) chunk s = if k == chunk then reserved else s
after_call (mprotect k) chunk s = if k == chunk then inaccessible else s

abbrev pub memory_of : Os → List OsCall → ℕ → Memory
memory_of os [] chunk = free
memory_of os (c ∷ cs) chunk =
    if os cs c then after_call c chunk (memory_of os cs chunk) else memory_of os cs chunk

-- What a call may find: the two calls that map memory without regard to what is there, or that
-- reserve it, do so only where nothing, or only a reservation, is.
abbrev pub MayCall : Os → List OsCall → OsCall → Type 0
MayCall os cs (dzmmap_noreplace k) = memory_of os cs k ≡ free
MayCall os cs (dzmmap k) = memory_of os cs k ≡ reserved
MayCall os cs (munprotect k) = memory_of os cs k ≡ inaccessible
MayCall os cs (mmap_noreserve k) = memory_of os cs k ≡ free
MayCall os cs (mprotect k) = Unit {0}

abbrev pub AreGuarded : Os → List OsCall → Type 0
AreGuarded os [] = Unit {0}
AreGuarded os (c ∷ cs) = MayCall os cs c × AreGuarded os cs
