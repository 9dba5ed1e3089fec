-- ===== src/MarkSweep/BlockList/Middle.antt =====
-- `remove`, and the joining of two runs, on the sequence of blocks that a list holds,
-- src/policy/marksweepspace/native_ms/block_list.rs.
use mmtk_core.Base.{
  Distinct, Apart, Distinct-append, Distinct-split, Apart-head, Apart-tail, append_nil, ℕ, ◌≡◌,
  refl, sym, ◌∙◌, Option, none, some, List, [], ◌∷◌, ◌++◌,
}
use mathlib.Core.Path.{subst}
use mmtk_core.MarkSweep.BlockList.{Links, BlockList, set_next, set_prev, remove}
use mmtk_core.MarkSweep.BlockList.Segment.{
  last_or, Linked, Holds, Linked-Same, Same-set_next, Same-set_prev, Linked-set_head,
  Linked-set_last, Linked-append, Linked-left, Linked-right,
}
use mmtk_core.MarkSweep.BlockList.Apart.{final, last_or-final, Apart-final, last_or-append}

-- Two runs are joined after their ends have been given to each other.
pub Linked-join :
    (h : Links) (m n : Option ℕ) (a : ℕ) (ps : List ℕ) (b : ℕ) (bs : List ℕ)
    → Distinct (a ∷ ps)
    → Distinct (b ∷ bs)
    → Apart (a ∷ ps) (b ∷ bs)
    → Linked h none m (a ∷ ps)
    → Linked h n none (b ∷ bs)
    → Linked
        (set_prev b (some (final a ps)) (set_next (final a ps) (some b) h))
        none
        none
        ((a ∷ ps) ++ (b ∷ bs))
Linked-join h m n a ps b bs da db apart la lb =
    let p : ℕ = final a ps in
    let h1 : Links = set_next p (some b) h in
    let h2 : Links = set_prev b (some p) h1 in
    let left1 : Linked h1 none (some b) (a ∷ ps) =
      Linked-set_last h none m (some b) a p ps da (last_or-final a ps) la in
    let left2 : Linked h2 none (some b) (a ∷ ps) =
      Linked-Same h1 h2 none (some b) (a ∷ ps)
        (Same-set_prev h1 b (some p) (a ∷ ps) (Apart-head (a ∷ ps) b bs apart)) left1 in
    let right1 : Linked h1 n none (b ∷ bs) =
      Linked-Same h h1 n none (b ∷ bs)
        (Same-set_next h p (some b) (b ∷ bs) (Apart-final a ps (b ∷ bs) apart)) lb in
    let right2 : Linked h2 (some p) none (b ∷ bs) =
      Linked-set_head h1 n (some p) none b bs db.0 right1 in
    Linked-append h2 none none (a ∷ ps) (b ∷ bs) left2
      (subst (λ o. Linked h2 o none (b ∷ bs)) (sym (last_or-final a ps)) right2)

abbrev Removed : ℕ → ℕ → List ℕ → Links → BlockList → Type 0
Removed self x xs h l = Holds (remove self x h l).0 (remove self x h l).1 xs

remove-first :
    (self x : ℕ) (bs : List ℕ) (h : Links) (l : BlockList)
    → Holds h l (x ∷ bs)
    → Removed self x bs h l
unfolding remove
remove-first self x [] h l k =
    rw (k.linked.0, k.linked.1) (record { first = refl; last = refl; linked = tt; distinct = tt })
remove-first self x (b ∷ bs) h l k =
    rw (k.linked.0, k.linked.1)
      (record {
        first = refl;
        last = k.last;
        linked = Linked-set_head h (some x) none none b bs k.distinct.1.0 k.linked.2;
        distinct = k.distinct.1;
      })

remove-last :
    (self x a : ℕ) (ps : List ℕ) (h : Links) (l : BlockList)
    → Holds h l ((a ∷ ps) ++ (x ∷ []))
    → Removed self x (a ∷ ps) h l
unfolding remove
remove-last self x a ps h l k =
    let d : Distinct (a ∷ ps) × Distinct (x ∷ []) × Apart (a ∷ ps) (x ∷ []) =
      Distinct-split (a ∷ ps) (x ∷ []) k.distinct in
    let right : Linked h (last_or (some a) ps) none (x ∷ []) =
      Linked-right h none none (a ∷ ps) (x ∷ []) k.linked in
    let before : h.prev x ≡ some (final a ps) = right.0 ∙ last_or-final a ps in
    rw (before, right.1)
      (record {
        first = k.first;
        last = sym (last_or-final a ps);
        linked =
            Linked-set_last h none (some x) none a (final a ps) ps d.0 (last_or-final a ps)
              (Linked-left h none none (a ∷ ps) (x ∷ []) k.linked);
        distinct = d.0;
      })

remove-between :
    (self x a : ℕ) (ps : List ℕ) (b : ℕ) (bs : List ℕ) (h : Links) (l : BlockList)
    → Holds h l ((a ∷ ps) ++ (x ∷ b ∷ bs))
    → Removed self x ((a ∷ ps) ++ (b ∷ bs)) h l
unfolding remove
remove-between self x a ps b bs h l k =
    let d : Distinct (a ∷ ps) × Distinct (x ∷ b ∷ bs) × Apart (a ∷ ps) (x ∷ b ∷ bs) =
      Distinct-split (a ∷ ps) (x ∷ b ∷ bs) k.distinct in
    let apart : Apart (a ∷ ps) (b ∷ bs) = Apart-tail (a ∷ ps) x (b ∷ bs) d.2 in
    let right : Linked h (last_or (some a) ps) none (x ∷ b ∷ bs) =
      Linked-right h none none (a ∷ ps) (x ∷ b ∷ bs) k.linked in
    let before : h.prev x ≡ some (final a ps) = right.0 ∙ last_or-final a ps in
    rw (before, right.1)
      (record {
        first = k.first;
        last =
            k.last
            ∙ last_or-append (some a) ps (x ∷ b ∷ bs)
            ∙ sym (last_or-append (some a) ps (b ∷ bs));
        linked =
            Linked-join h (some x) (some x) a ps b bs d.0 d.1.1 apart
              (Linked-left h none none (a ∷ ps) (x ∷ b ∷ bs) k.linked) right.2;
        distinct = Distinct-append (a ∷ ps) (b ∷ bs) d.0 d.1.1 apart;
      })

-- A list that holds a block, wherever it stands, holds the other blocks in the same order after the
-- block is removed.
pub remove-Holds :
    (self x : ℕ) (ps bs : List ℕ) (h : Links) (l : BlockList)
    → Holds h l (ps ++ x ∷ bs)
    → Holds (remove self x h l).0 (remove self x h l).1 (ps ++ bs)
remove-Holds self x [] bs h l k = remove-first self x bs h l k
remove-Holds self x (a ∷ ps) [] h l k =
    subst (λ qs. Removed self x (a ∷ qs) h l) (sym (append_nil ps)) (remove-last self x a ps h l k)
remove-Holds self x (a ∷ ps) (b ∷ bs) h l k = remove-between self x a ps b bs h l k
