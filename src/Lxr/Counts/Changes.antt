-- ===== src/Lxr/Counts/Changes.antt =====
-- Sequences of changes of counts, and the references that they stand for.
use mmtk_core.Base.{ℕ, ◌+◌, ◌-◌, ◌^◌, ◌<◌, ◌≡◌, ◌==◌, if◌then◌else◌, Bool, true, List, [], ◌∷◌}
use mmtk_core.Metadata.Spec.{region}
use mmtk_core.Metadata.Access.{Memory}
use mmtk_core.Lxr.Counts.{RefCountHelper, rc_table, inc, dec, stick}

-- What is done to the counts, object by object.
pub data Change : Type 0 where
  inc_of : (o : ℕ) → Change
  dec_of : (o : ℕ) → Change
  stick_of : (o : ℕ) → Change

unfoldable pub apply : RefCountHelper → Memory → Change → Memory
apply rc mem (inc_of o) = (inc rc mem o).1
apply rc mem (dec_of o) = (dec rc mem o).1
apply rc mem (stick_of o) = (stick rc mem o).1

unfoldable pub apply_all : RefCountHelper → Memory → List Change → Memory
apply_all rc mem [] = mem
apply_all rc mem (c ∷ cs) = apply_all rc (apply rc mem c) cs

abbrev pub same_object : RefCountHelper → ℕ → ℕ → Bool
same_object rc p o = region (rc_table rc) p == region (rc_table rc) o

-- The references to an object: one more or one less for each change of its count.
abbrev pub references : RefCountHelper → (o refs : ℕ) → List Change → ℕ
references rc o refs [] = refs
references rc o refs (inc_of p ∷ cs) =
    references rc o (if same_object rc p o then refs + 1 else refs) cs
references rc o refs (dec_of p ∷ cs) =
    references rc o (if same_object rc p o then refs - 1 else refs) cs
references rc o refs (stick_of p ∷ cs) = references rc o refs cs

-- The objects are addresses of the machine, and no reference is taken away that is not there.
abbrev pub IsBalanced : RefCountHelper → (o refs : ℕ) → List Change → Type 0
IsBalanced rc o refs [] = Unit {0}
IsBalanced rc o refs (inc_of p ∷ cs) =
    (p < 2 ^ 64) × IsBalanced rc o (if same_object rc p o then refs + 1 else refs) cs
IsBalanced rc o refs (dec_of p ∷ cs) =
    (p < 2 ^ 64)
    × (same_object rc p o ≡ true → 0 < refs)
    × IsBalanced rc o (if same_object rc p o then refs - 1 else refs) cs
IsBalanced rc o refs (stick_of p ∷ cs) = (p < 2 ^ 64) × IsBalanced rc o refs cs
