-- ===== src/MarkSweep/BlockList/Walk.antt =====
-- The iterator of src/policy/marksweepspace/native_ms/block_list.rs.
use mmtk_core.Base.{
  ℕ, zero, suc, ◌≤◌, ◌≡◌, refl, sym, Option, none, some, List, [], ◌∷◌, arith, length, ap,
}
use mathlib.Core.Path.{subst}
use mmtk_core.MarkSweep.BlockList.{Links, BlockList, iter}
use mmtk_core.MarkSweep.BlockList.Segment.{head_or, Linked, Holds}

iter-Linked :
    (fuel : ℕ) (h : Links) (p : Option ℕ) (xs : List ℕ)
    → Linked h p none xs
    → length xs ≤ fuel
    → iter fuel (head_or none xs) h ≡ xs
unfolding iter
iter-Linked zero h p [] k e = refl
iter-Linked (suc fuel) h p [] k e = refl
iter-Linked zero h p (x ∷ xs) k e = ground arith
iter-Linked (suc fuel) h p (x ∷ xs) k e =
    rw k.1 (ap (λ ys. x ∷ ys) (iter-Linked fuel h (some x) xs k.2 (omega arith)))

-- The iterator of a list that holds a sequence of blocks gives these blocks in this order and ends,
-- in as many rounds as there are blocks.
pub iter-Holds :
    (fuel : ℕ) (h : Links) (l : BlockList) (xs : List ℕ)
    → Holds h l xs
    → length xs ≤ fuel
    → iter fuel l.first h ≡ xs
iter-Holds fuel h l xs k e =
    subst (λ c. iter fuel c h ≡ xs) (sym k.first) (iter-Linked fuel h none xs k.linked e)
