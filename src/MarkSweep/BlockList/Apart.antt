-- ===== src/MarkSweep/BlockList/Apart.antt =====
-- The last block of a sequence, for src/policy/marksweepspace/native_ms/block_list.rs.
use mmtk_core.Base.{NotIn, Apart, ℕ, ◌≡◌, refl, Option, some, List, [], ◌∷◌, ◌++◌}
use mmtk_core.MarkSweep.BlockList.Segment.{last_or}

-- The last of `a ∷ ps`.
abbrev pub final : ℕ → List ℕ → ℕ
final a [] = a
final a (b ∷ bs) = final b bs

pub last_or-final : (a : ℕ) (ps : List ℕ) → last_or (some a) ps ≡ some (final a ps)
last_or-final a [] = refl
last_or-final a (b ∷ bs) = last_or-final b bs

pub Apart-final : (a : ℕ) (ps bs : List ℕ) → Apart (a ∷ ps) bs → NotIn (final a ps) bs
Apart-final a [] bs d = d.0
Apart-final a (b ∷ ps) bs d = Apart-final b ps bs d.1

pub last_or-append :
    (e : Option ℕ) (ps bs : List ℕ) → last_or e (ps ++ bs) ≡ last_or (last_or e ps) bs
last_or-append e [] bs = refl
last_or-append e (a ∷ ps) bs = last_or-append (some a) ps bs
