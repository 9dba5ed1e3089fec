-- ===== src/Base/Disjoint.antt =====
-- Lists of numbers without repetition, and lists without a common member.
use Prim.Native.Nat.{ℕ}
use mathlib.Core.Path.{sym}
use mathlib.Core.Logic.{◌≢◌}
use mathlib.Core.List.{List, [], ◌∷◌, ◌++◌}

abbrev pub NotIn : ℕ → List ℕ → Type 0
NotIn b [] = Unit {0}
NotIn b (x ∷ xs) = (b ≢ x) × NotIn b xs

abbrev pub Distinct : List ℕ → Type 0
Distinct [] = Unit {0}
Distinct (x ∷ xs) = NotIn x xs × Distinct xs

abbrev pub Apart : List ℕ → List ℕ → Type 0
Apart [] bs = Unit {0}
Apart (a ∷ ps) bs = NotIn a bs × Apart ps bs

pub NotIn-append : (x : ℕ) (ps bs : List ℕ) → NotIn x ps → NotIn x bs → NotIn x (ps ++ bs)
NotIn-append x [] bs d e = e
NotIn-append x (a ∷ ps) bs d e = (d.0, NotIn-append x ps bs d.1 e)

pub NotIn-split : (x : ℕ) (ps bs : List ℕ) → NotIn x (ps ++ bs) → NotIn x ps × NotIn x bs
NotIn-split x [] bs d = (tt, d)
NotIn-split x (a ∷ ps) bs d = let rest = NotIn-split x ps bs d.1 in ((d.0, rest.0), rest.1)

pub Distinct-append :
    (ps bs : List ℕ) → Distinct ps → Distinct bs → Apart ps bs → Distinct (ps ++ bs)
Distinct-append [] bs d e f = e
Distinct-append (a ∷ ps) bs d e f = (NotIn-append a ps bs d.0 f.0, Distinct-append ps bs d.1 e f.1)

pub Distinct-split :
    (ps bs : List ℕ) → Distinct (ps ++ bs) → Distinct ps × Distinct bs × Apart ps bs
Distinct-split [] bs d = (tt, d, tt)
Distinct-split (a ∷ ps) bs d =
    let rest = Distinct-split ps bs d.1 in
    let here = NotIn-split a ps bs d.0 in ((here.0, rest.0), rest.1, (here.1, rest.2))

pub Apart-head : (ps : List ℕ) (b : ℕ) (bs : List ℕ) → Apart ps (b ∷ bs) → NotIn b ps
Apart-head [] b bs d = tt
Apart-head (a ∷ ps) b bs d = (λ q. d.0.0 (sym q), Apart-head ps b bs d.1)

pub Apart-tail : (ps : List ℕ) (b : ℕ) (bs : List ℕ) → Apart ps (b ∷ bs) → Apart ps bs
Apart-tail [] b bs d = tt
Apart-tail (a ∷ ps) b bs d = (d.0.1, Apart-tail ps b bs d.1)
