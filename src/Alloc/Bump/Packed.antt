-- ===== src/Alloc/Bump/Packed.antt =====
-- Objects that are put into one buffer one after another, src/util/alloc/bumpallocator.rs.
use mmtk_core.Base.{
  ℕ, ◌+◌, ◌%◌, ◌^◌, ◌≤◌, ◌<◌, ◌≡◌, sym, inl, inr, refl, ltb, true, false, List, [], ◌∷◌, arith,
  Bool-cases,
}
use mathlib.Core.Path.{subst}
use mmtk_core.Alloc.Align.{VmBinding, align_allocation_inner, align_allocation_no_fill}
use mmtk_core.Alloc.Bump.{BumpPointer, done, alloc_slow, acquire_again, alloc}

pub record Request : Type 0 where
  pub size : ℕ
  pub align : ℕ
  pub offset : ℕ

-- The addresses and sizes of the objects that `alloc` puts into the buffer, until a request takes the
-- slow path.
unfoldable pub alloc_all : VmBinding → BumpPointer → List Request → List (ℕ × ℕ)
alloc_all vm p [] = []
alloc_all vm p (q ∷ qs) = elim (alloc vm p q.size q.align q.offset) [
  | done result filled p' ↦ (result, q.size) ∷ alloc_all vm p' qs
  | alloc_slow p' ↦ []
  | acquire_again p' ↦ []
]

-- The objects lie between the bounds, each after the end of the one before.
abbrev pub IsPacked : (low high : ℕ) → List (ℕ × ℕ) → Type 0
IsPacked low high [] = low ≤ high
IsPacked low high ((address, size) ∷ objects) =
    (low ≤ address) × IsPacked (address + size) high objects

le-align :
    (vm : VmBinding) (region align offset : ℕ)
    → region ≤ align_allocation_no_fill vm region align offset
unfolding align_allocation_no_fill align_allocation_inner
le-align vm region align offset = ground arith

abbrev pub next_object : VmBinding → BumpPointer → Request → ℕ
next_object vm p q = align_allocation_no_fill vm p.cursor q.align q.offset

abbrev pub next_end : VmBinding → BumpPointer → Request → ℕ
next_end vm p q = (next_object vm p q + q.size) % 2 ^ 64

module _ (vm : VmBinding) (p : BumpPointer) (q : Request) (qs : List Request) where
  step_full : ltb p.limit (next_end vm p q) ≡ true → alloc_all vm p (q ∷ qs) ≡ []
  unfolding alloc_all alloc
  step_full e = rw (alloc_all, e) refl

  step_free :
      ltb p.limit (next_end vm p q) ≡ false
      → alloc_all vm p (q ∷ qs)
        ≡ (next_object vm p q, q.size) ∷ alloc_all vm (record p { cursor = next_end vm p q }) qs
  unfolding alloc_all alloc
  step_free e = rw (alloc_all, e) refl

-- No object would end behind the last address, whichever requests before it are served.
abbrev pub AreBounded : VmBinding → BumpPointer → List Request → Type 0
AreBounded vm p [] = Unit {0}
AreBounded vm p (q ∷ qs) =
    (next_object vm p q + q.size < 2 ^ 64)
    × AreBounded vm (record p { cursor = next_end vm p q }) qs

-- For requests whose objects would not end behind the last address, each put after the one before, and
-- whatever their sizes and alignments are: the objects that a buffer gives lie one after another
-- between its cursor and its limit, so that no two of them overlap.
pub alloc_all-IsPacked :
    (vm : VmBinding) (p : BumpPointer) (qs : List Request)
    → p.cursor ≤ p.limit
    → AreBounded vm p qs
    → IsPacked p.cursor p.limit (alloc_all vm p qs)
unfolding alloc_all
alloc_all-IsPacked vm p [] le b = le
alloc_all-IsPacked vm p (q ∷ qs) le b =
    let exact : next_end vm p q ≡ next_object vm p q + q.size = omega (arith, b.0) in
    elim (Bool-cases (ltb p.limit (next_end vm p q))) [
      | inl full ↦ subst (IsPacked p.cursor p.limit) (sym (step_full vm p q qs full)) le
      | inr free ↦ subst (IsPacked p.cursor p.limit) (sym (step_free vm p q qs free)) (
        le-align vm p.cursor q.align q.offset,
        subst
            (λ low. IsPacked low p.limit (alloc_all vm (record p { cursor = next_end vm p q }) qs))
            exact
            (alloc_all-IsPacked vm (record p { cursor = next_end vm p q }) qs (below free) b.1),
      )
    ]
  where
    below : {a b : ℕ} → ltb a b ≡ false → b ≤ a
    below e = ground arith
