-- ===== src/MarkSweep/BlockList/Segment.antt =====
-- Runs of linked blocks, src/policy/marksweepspace/native_ms/block_list.rs.
use mmtk_core.Base.{
  NotIn, Distinct, ℕ, ◌≡◌, ◌≢◌, refl, sym, ◌∙◌, Option, none, some, List, [], ◌∷◌, ◌++◌, update,
  update_ne, update_self, arith,
}
use mathlib.Core.Path.{subst}
use mmtk_core.MarkSweep.BlockList.{Links, BlockList, set_next, set_prev}

abbrev pub head_or : Option ℕ → List ℕ → Option ℕ
head_or e [] = e
head_or e (x ∷ xs) = some x

abbrev pub last_or : Option ℕ → List ℕ → Option ℕ
last_or e [] = e
last_or e (x ∷ xs) = last_or (some x) xs

-- The blocks are linked in both directions, from `p` before the first to `n` after the last.
abbrev pub Linked : Links → Option ℕ → Option ℕ → List ℕ → Type 0
Linked h p n [] = Unit {0}
Linked h p n (x ∷ xs) = (h.prev x ≡ p) × (h.next x ≡ head_or n xs) × Linked h (some x) n xs

-- Two stores have the same links at each block of a list.
abbrev pub Same : Links → Links → List ℕ → Type 0
Same h h' [] = Unit {0}
Same h h' (x ∷ xs) = (h'.prev x ≡ h.prev x) × (h'.next x ≡ h.next x) × Same h h' xs

-- `l` holds the blocks `xs`, in this order.
pub record Holds (h : Links) (l : BlockList) (xs : List ℕ) : Type 0 where
  pub first : l.first ≡ head_or none xs
  pub last : l.last ≡ last_or none xs
  pub linked : Linked h none none xs
  pub distinct : Distinct xs

pub Linked-Same :
    (h h' : Links) (p n : Option ℕ) (xs : List ℕ)
    → Same h h' xs
    → Linked h p n xs
    → Linked h' p n xs
Linked-Same h h' p n [] s k = tt
Linked-Same h h' p n (x ∷ xs) s k = (s.0 ∙ k.0, s.1 ∙ k.1, Linked-Same h h' (some x) n xs s.2 k.2)

pub Same-set_next :
    (h : Links) (b : ℕ) (o : Option ℕ) (xs : List ℕ) → NotIn b xs → Same h (set_next b o h) xs
Same-set_next h b o [] d = tt
Same-set_next h b o (x ∷ xs) d = (refl, update_ne h.next b x o d.0, Same-set_next h b o xs d.1)

pub Same-set_prev :
    (h : Links) (b : ℕ) (o : Option ℕ) (xs : List ℕ) → NotIn b xs → Same h (set_prev b o h) xs
Same-set_prev h b o [] d = tt
Same-set_prev h b o (x ∷ xs) d = (update_ne h.prev b x o d.0, refl, Same-set_prev h b o xs d.1)

pub Same-trans : (h h' h'' : Links) (xs : List ℕ) → Same h h' xs → Same h' h'' xs → Same h h'' xs
Same-trans h h' h'' [] s t = tt
Same-trans h h' h'' (x ∷ xs) s t = (t.0 ∙ s.0, t.1 ∙ s.1, Same-trans h h' h'' xs s.2 t.2)

-- The first block is given another predecessor.
pub Linked-set_head :
    (h : Links) (p q n : Option ℕ) (x : ℕ) (xs : List ℕ)
    → NotIn x xs
    → Linked h p n (x ∷ xs)
    → Linked (set_prev x q h) q n (x ∷ xs)
Linked-set_head h p q n x xs d k = (
  update_self h.prev x q,
  k.1,
  Linked-Same h (set_prev x q h) (some x) n xs (Same-set_prev h x q xs d) k.2,
)

some_eq : (x b : ℕ) → some x ≡ some b → x ≡ b
some_eq x b e = ground arith

pub NotIn-last : (x b y : ℕ) (ys : List ℕ) → NotIn x (y ∷ ys) → last_or (some y) ys ≡ some b → x ≢ b
NotIn-last x b y [] d e = λ q. d.0 (q ∙ sym (some_eq y b e))
NotIn-last x b y (z ∷ zs) d e = NotIn-last x b z zs d.1 e

-- The last block is given another successor.
pub Linked-set_last :
    (h : Links) (p n m : Option ℕ) (x b : ℕ) (xs : List ℕ)
    → Distinct (x ∷ xs)
    → last_or p (x ∷ xs) ≡ some b
    → Linked h p n (x ∷ xs)
    → Linked (set_next b m h) p m (x ∷ xs)
Linked-set_last h p n m x b [] d e k =
    (k.0, subst (λ y. update h.next b m y ≡ m) (sym (some_eq x b e)) (update_self h.next b m), tt)
Linked-set_last h p n m x b (y ∷ ys) d e k = (
  k.0,
  update_ne h.next b x m (λ q. NotIn-last x b y ys d.0 e (sym q)) ∙ k.1,
  Linked-set_last h (some x) n m y b ys d.1 e k.2,
)

pub Linked-append :
    (h : Links) (p n : Option ℕ) (xs ys : List ℕ)
    → Linked h p (head_or n ys) xs
    → Linked h (last_or p xs) n ys
    → Linked h p n (xs ++ ys)
Linked-append h p n [] ys a b = b
Linked-append h p n (x ∷ []) ys a b = (a.0, a.1, b)
Linked-append h p n (x ∷ y ∷ xs) ys a b = (a.0, a.1, Linked-append h (some x) n (y ∷ xs) ys a.2 b)

pub Linked-left :
    (h : Links) (p n : Option ℕ) (xs ys : List ℕ)
    → Linked h p n (xs ++ ys)
    → Linked h p (head_or n ys) xs
Linked-left h p n [] ys a = tt
Linked-left h p n (x ∷ []) ys a = (a.0, a.1, tt)
Linked-left h p n (x ∷ y ∷ xs) ys a = (a.0, a.1, Linked-left h (some x) n (y ∷ xs) ys a.2)

pub Linked-right :
    (h : Links) (p n : Option ℕ) (xs ys : List ℕ)
    → Linked h p n (xs ++ ys)
    → Linked h (last_or p xs) n ys
Linked-right h p n [] ys a = a
Linked-right h p n (x ∷ xs) ys a = Linked-right h (some x) n xs ys a.2
