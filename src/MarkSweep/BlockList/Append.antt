-- ===== src/MarkSweep/BlockList/Append.antt =====
-- `append` on the sequences of blocks that two lists hold,
-- src/policy/marksweepspace/native_ms/block_list.rs.
use mmtk_core.Base.{
  Apart, Distinct-append, append_nil, ℕ, zero, suc, ◌≤◌, ◌≡◌, refl, sym, ◌∙◌, Option, none, some,
  List, [], ◌∷◌, ◌++◌, update_self, arith, length,
}
use mathlib.Core.Path.{subst}
use mmtk_core.MarkSweep.BlockList.{
  Links, BlockList, set_next, set_prev, store_block_list, append, join, store_along, reset,
  is_empty,
}
use mmtk_core.MarkSweep.BlockList.Segment.{head_or, last_or, Linked, Linked-right, Holds}
use mmtk_core.MarkSweep.BlockList.Apart.{final, last_or-final, last_or-append}
use mmtk_core.MarkSweep.BlockList.Middle.{Linked-join}

-- Each block's metadata has the list's address.
abbrev pub Owned : ℕ → Links → List ℕ → Type 0
Owned self h [] = Unit {0}
Owned self h (x ∷ xs) = (h.block_list x ≡ some self) × Owned self h xs

Linked-store_along :
    (self fuel : ℕ) (c : Option ℕ) (h : Links) (p n : Option ℕ) (xs : List ℕ)
    → Linked h p n xs
    → Linked (store_along self fuel c h) p n xs
unfolding store_along
Linked-store_along self zero c h p n xs k = k
Linked-store_along self (suc fuel) none h p n xs k = k
Linked-store_along self (suc fuel) (some b) h p n xs k =
    Linked-store_along self fuel (h.next b) (store_block_list self b h) p n xs k

store_along_keep :
    (self fuel : ℕ) (c : Option ℕ) (h : Links) (b : ℕ)
    → h.block_list b ≡ some self
    → (store_along self fuel c h).block_list b ≡ some self
unfolding store_along
store_along_keep self zero c h b e = e
store_along_keep self (suc fuel) none h b e = e
store_along_keep self (suc fuel) (some x) h b e =
    store_along_keep self fuel (h.next x) (store_block_list self x h) b (ground arith)

store_along-Owned :
    (self fuel : ℕ) (h : Links) (p : Option ℕ) (ys : List ℕ)
    → Linked h p none ys
    → length ys ≤ fuel
    → Owned self (store_along self fuel (head_or none ys) h) ys
unfolding store_along
store_along-Owned self fuel h p [] k e = tt
store_along-Owned self zero h p (y ∷ ys) k e = ground arith
store_along-Owned self (suc fuel) h p (y ∷ ys) k e =
    let h1 : Links = store_block_list self y h in
    subst (λ c. Owned self (store_along self fuel c h1) (y ∷ ys)) (sym k.1)
      (
        store_along_keep self fuel (head_or none ys) h1 y (update_self h.block_list y (some self)),
        store_along-Owned self fuel h1 (some y) ys k.2 (omega arith),
      )

-- What an append of `ys` to `xs` returns.
pub record Appended (self : ℕ) (xs ys : List ℕ) (r : Links × BlockList × BlockList) : Type 0 where
  pub holds : Holds r.0 r.1 (xs ++ ys)
  pub emptied : Holds r.0 r.2 []
  pub owned : Owned self r.0 ys

-- For two lists that hold sequences without a common block, and fuel for the blocks of the other one:
-- after the append this list holds both sequences, one after the other, each block of the other
-- list has this list's address, and the other list is empty.
pub append_lem :
    (self fuel : ℕ) (xs ys : List ℕ) (h : Links) (l other : BlockList)
    → Holds h l xs
    → Holds h other ys
    → Apart xs ys
    → length ys ≤ fuel
    → Appended self xs ys (append self fuel h l other)
unfolding append is_empty reset join
append_lem self fuel [] [] h l other k m d e =
    rw (k.first, m.first)
      (record {
        holds = record { first = refl; last = k.last; linked = tt; distinct = tt };
        emptied = record { first = refl; last = m.last; linked = tt; distinct = tt };
        owned = tt;
      })
append_lem self fuel (x ∷ xs) [] h l other k m d e =
    rw (k.first, m.first)
      (record {
        holds =
            subst (λ qs. Holds h (record l { first = some x }) (x ∷ qs)) (sym (append_nil xs))
              (record { first = refl; last = k.last; linked = k.linked; distinct = k.distinct });
        emptied = record { first = refl; last = m.last; linked = tt; distinct = tt };
        owned = tt;
      })
append_lem self fuel [] (y ∷ ys) h l other k m d e =
    rw (k.first, m.first)
      (record {
        holds = record {
          first = refl;
          last = m.last;
          linked = Linked-store_along self fuel (some y) h none none (y ∷ ys) m.linked;
          distinct = m.distinct;
        };
        emptied = record { first = refl; last = refl; linked = tt; distinct = tt };
        owned = store_along-Owned self fuel h none (y ∷ ys) m.linked e;
      })
append_lem self fuel (x ∷ xs) (y ∷ ys) h l other k m d e =
    let h2 : Links = set_prev y (some (final x xs)) (set_next (final x xs) (some y) h) in
    let linked2 : Linked h2 none none ((x ∷ xs) ++ (y ∷ ys)) =
      Linked-join h none none x xs y ys k.distinct m.distinct d k.linked m.linked in
    let right : Linked h2 (last_or (some x) xs) none (y ∷ ys) =
      Linked-right h2 none none (x ∷ xs) (y ∷ ys) linked2 in
    rw (k.first, k.last ∙ last_or-final x xs, m.first)
      (record {
        holds = record {
          first = refl;
          last = m.last ∙ sym (last_or-append (some x) xs (y ∷ ys));
          linked =
              Linked-store_along self fuel (some y) h2 none none ((x ∷ xs) ++ (y ∷ ys)) linked2;
          distinct = Distinct-append (x ∷ xs) (y ∷ ys) k.distinct m.distinct d;
        };
        emptied = record { first = refl; last = refl; linked = tt; distinct = tt };
        owned = store_along-Owned self fuel h2 (last_or (some x) xs) (y ∷ ys) right e;
      })
