-- ===== src/MarkSweep/BlockList/Ends.antt =====
-- `push` and `pop` on the sequence of blocks that a list holds,
-- src/policy/marksweepspace/native_ms/block_list.rs.
use mmtk_core.Base.{NotIn, ℕ, ◌≡◌, refl, none, some, List, [], ◌∷◌, update_self}
use mmtk_core.MarkSweep.BlockList.{Links, BlockList, set_next, set_prev, push, pop}
use mmtk_core.MarkSweep.BlockList.Segment.{
  Linked, Holds, Linked-Same, Same-set_next, Same-set_prev, Linked-set_head,
}

push-nil :
    (self block : ℕ) (h : Links) (l : BlockList)
    → Holds h l []
    → Holds (push self block h l).0 (push self block h l).1 (block ∷ [])
unfolding push
push-nil self block h l k = rw k.first (record {
  first = refl;
  last = refl;
  linked = (update_self h.prev block none, update_self h.next block none, tt);
  distinct = (tt, tt);
})

push-cons :
    (self block x : ℕ) (xs : List ℕ) (h : Links) (l : BlockList)
    → Holds h l (x ∷ xs)
    → NotIn block (x ∷ xs)
    → Holds (push self block h l).0 (push self block h l).1 (block ∷ x ∷ xs)
unfolding push
push-cons self block x xs h l k d =
    let h1 : Links = set_next block (some x) h in
    let h2 : Links = set_prev x (some block) h1 in
    let linked1 : Linked h1 none none (x ∷ xs) =
      Linked-Same h h1 none none (x ∷ xs) (Same-set_next h block (some x) (x ∷ xs) d) k.linked in
    let linked2 : Linked h2 (some block) none (x ∷ xs) =
      Linked-set_head h1 none (some block) none x xs k.distinct.0 linked1 in
    rw k.first (record {
      first = refl;
      last = k.last;
      linked = (
        update_self h2.prev block none,
        update_self h.next block (some x),
        Linked-Same h2 (set_prev block none h2) (some block) none (x ∷ xs)
            (Same-set_prev h2 block none (x ∷ xs) d) linked2,
      );
      distinct = (d, k.distinct);
    })

-- A list that holds a sequence of blocks holds one more, in front of them, after a block that is not
-- among them is pushed.
pub push-Holds :
    (self block : ℕ) (xs : List ℕ) (h : Links) (l : BlockList)
    → Holds h l xs
    → NotIn block xs
    → Holds (push self block h l).0 (push self block h l).1 (block ∷ xs)
push-Holds self block [] h l k d = push-nil self block h l k
push-Holds self block (x ∷ xs) h l k d = push-cons self block x xs h l k d

pop-cons :
    (self x : ℕ) (xs : List ℕ) (h : Links) (l : BlockList)
    → Holds h l (x ∷ xs)
    → ((pop self h l).0 ≡ some x) × Holds (pop self h l).1 (pop self h l).2 xs
unfolding pop
pop-cons self x [] h l k =
    rw (k.first, k.linked.1)
      (refl, record { first = refl; last = refl; linked = tt; distinct = tt })
pop-cons self x (y ∷ ys) h l k =
    let h1 : Links = set_prev y none h in
    let h2 : Links = set_next x none h1 in
    let linked1 : Linked h1 none none (y ∷ ys) =
      Linked-set_head h (some x) none none y ys k.distinct.1.0 k.linked.2 in
    let linked2 : Linked h2 none none (y ∷ ys) =
      Linked-Same h1 h2 none none (y ∷ ys) (Same-set_next h1 x none (y ∷ ys) k.distinct.0)
        linked1 in
    rw (k.first, k.linked.1)
      (
        refl,
        record {
          first = refl;
          last = k.last;
          linked =
              Linked-Same h2 (set_prev x none h2) none none (y ∷ ys)
                (Same-set_prev h2 x none (y ∷ ys) k.distinct.0) linked2;
          distinct = k.distinct.1;
        },
      )

-- What `pop` does to a list of the given blocks.
abbrev pub Pops : ℕ → List ℕ → Links → BlockList → Type 0
Pops self [] h l = pop self h l ≡ (none, h, l)
Pops self (x ∷ xs) h l = ((pop self h l).0 ≡ some x) × Holds (pop self h l).1 (pop self h l).2 xs

-- A list that holds a sequence of blocks gives its first block and holds the rest afterwards; a list
-- that holds none gives none, and nothing changes.
pub pop-Holds :
    (self : ℕ) (xs : List ℕ) (h : Links) (l : BlockList) → Holds h l xs → Pops self xs h l
unfolding pop
pop-Holds self [] h l k = rw k.first refl
pop-Holds self (x ∷ xs) h l k = pop-cons self x xs h l k
