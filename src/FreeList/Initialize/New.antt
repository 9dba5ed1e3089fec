-- ===== src/FreeList/Initialize/New.antt =====
-- The free list that `IntArrayFreeList::new` makes, src/util/int_array_freelist.rs.
use mmtk_core.Base.{
  ℕ, zero, suc, ◌+◌, ◌-◌, ◌*◌, ◌/◌, ◌%◌, ◌^◌, ◌≤◌, ◌<◌, ◌≡◌, ◌≢◌, refl, ◌∙◌, ap, ltb, lt→ltb,
  if◌then◌else◌, false, List, [], ◌∷◌, arith, dec_lt,
}
use mathlib.Core.Path.{subst}
use native.Mathlib.Nat.{div-add-mod'}
use mmtk_core.FreeList.{
  IntArrayFreeList, max_units, low_bits, get_next, get_prev, get_lo_entry, get_hi_entry,
  set_lo_entry, set_hi_entry,
}
use mmtk_core.FreeList.Entries.{
  InTable, IsHeaded, hi-set_hi, lo-set_lo, hi-set_lo, lo-set_hi, hi-set_hi_ne, lo-set_lo_ne,
  head-InTable,
}
use mmtk_core.FreeList.Sizes.{IsBlock}
use mmtk_core.FreeList.Sized.{place-InTable}
use mmtk_core.FreeList.Initialize.{
  set_sentinel, set_head_sentinels, add_block, add_grains, initialize_heap, new,
}
use mmtk_core.FreeList.Initialize.Blocks.{IsHeap, add_block-IsHeap}

-- The starts of `k` grains before those of `us`.
abbrev pub grain_starts : ℕ → ℕ → List ℕ → List ℕ
grain_starts zero grain us = us
grain_starts (suc k) grain us = grain_starts k grain (k * grain ∷ us)

-- The start of what is left over after the grains, if anything is.
abbrev pub offset_start : ℕ → ℕ → List ℕ
offset_start units grain = if ltb 0 (units % grain) then (units - units % grain) ∷ [] else []

-- The entries of the first head link to it.
record IsEmpty (f : IntArrayFreeList) : Type 0 where
  headed : IsHeaded f
  first : f.head ≡ 0xffffffff
  forth : low_bits (get_hi_entry f f.head) ≡ 0x3fffffff
  back : low_bits (get_lo_entry f f.head) ≡ 0x3fffffff

IsHeaded-set_sentinel : (f : IntArrayFreeList) (x : ℕ) → IsHeaded f → IsHeaded (set_sentinel f x)
unfolding set_sentinel set_hi_entry set_lo_entry
IsHeaded-set_sentinel f x h = record { few = h.few; sentinel = h.sentinel; word = h.word }

set_sentinel-IsEmpty :
    (f : IntArrayFreeList) (x : ℕ)
    → InTable f.heads x
    → x ≢ f.head
    → IsEmpty f
    → IsEmpty (set_sentinel f x)
unfolding set_sentinel set_hi_entry set_lo_entry
set_sentinel-IsEmpty f x n d e = record {
  headed = IsHeaded-set_sentinel f x e.headed;
  first = e.first;
  forth =
      ap low_bits (
        hi-set_hi_ne (set_lo_entry f x (low_bits x)) x f.head (low_bits x) n
          (head-InTable f e.headed) d
        ∙ hi-set_lo f x f.head (low_bits x))
      ∙ e.forth;
  back =
      ap low_bits (
        lo-set_hi (set_lo_entry f x (low_bits x)) x f.head (low_bits x)
        ∙ lo-set_lo_ne f x f.head (low_bits x) n (head-InTable f e.headed) d)
      ∙ e.back;
}

first_sentinel :
    (f : IntArrayFreeList) → IsHeaded f → f.head ≡ 0xffffffff → IsEmpty (set_sentinel f 0xffffffff)
unfolding set_sentinel set_hi_entry set_lo_entry get_hi_entry get_lo_entry
first_sentinel f h e = record {
  headed = IsHeaded-set_sentinel f 0xffffffff h;
  first = e;
  forth = rw e (
      ap low_bits (
        hi-set_hi (set_lo_entry f 0xffffffff (low_bits 0xffffffff)) 0xffffffff f.head
          (low_bits 0xffffffff)));
  back = rw e (
      ap low_bits (
        lo-set_hi (set_lo_entry f 0xffffffff (low_bits 0xffffffff)) 0xffffffff 0xffffffff
          (low_bits 0xffffffff)
        ∙ lo-set_lo f 0xffffffff 0xffffffff (low_bits 0xffffffff)));
}

heads-set_head_sentinels : (n : ℕ) (f : IntArrayFreeList) → (set_head_sentinels n f).heads ≡ f.heads
unfolding set_head_sentinels set_sentinel set_hi_entry set_lo_entry
heads-set_head_sentinels zero f = refl
heads-set_head_sentinels (suc n) f = heads-set_head_sentinels n f

set_head_sentinels-IsEmpty :
    (n : ℕ) (f : IntArrayFreeList)
    → n < f.heads
    → IsHeaded f
    → f.head ≡ 0xffffffff
    → IsEmpty (set_head_sentinels (suc n) f)
unfolding set_head_sentinels
set_head_sentinels-IsEmpty zero f lt h e = first_sentinel f h e
set_head_sentinels-IsEmpty (suc n) f lt h e =
    let g = set_head_sentinels (suc n) f in
    let done = set_head_sentinels-IsEmpty n f (omega arith) h e in
    let same : g.heads ≡ f.heads = heads-set_head_sentinels (suc n) f in
    set_sentinel-IsEmpty g (2 ^ 32 - suc (suc n))
      (done.headed.few, omega (arith, h.few), omega (arith, h.few, same))
      (λ q. omega (arith, h.few, done.first, q)) done

empty-IsHeap : (f : IntArrayFreeList) (c : ℕ) → IsEmpty f → IsHeap f c []
unfolding get_next get_prev
empty-IsHeap f c e = record {
  ring = record {
    headed = e.headed;
    units = tt;
    distinct = tt;
    linked = (rw (e.forth) refl, rw (e.back) refl);
  };
  blocks = tt;
  above = tt;
}

-- A heap keeps its list whatever the bound is called.
at_bound : (f : IntArrayFreeList) (c d : ℕ) (us : List ℕ) → c ≡ d → IsHeap f c us → IsHeap f d us
at_bound f c d us e p = subst (λ (k : ℕ). IsHeap f k us) e p

add_grains-IsHeap :
    (k grain : ℕ) (f : IntArrayFreeList) (us : List ℕ)
    → 1 ≤ grain
    → k * grain ≤ max_units + 1
    → IsHeap f (k * grain) us
    → IsHeap (add_grains k f grain) 0 (grain_starts k grain us)
unfolding add_grains
add_grains-IsHeap zero grain f us one le p = at_bound f (0 * grain) 0 us (omega arith) p
add_grains-IsHeap (suc k) grain f us one le p =
    let block : IsBlock (k * grain) grain = record {
      some_units = one;
      inside = omega (arith, le);
    } in
    add_grains-IsHeap k grain (add_block f (k * grain) grain) (k * grain ∷ us) one
      (omega (arith, le))
      (add_block-IsHeap f (k * grain) grain block us
        (at_bound f (suc k * grain) (k * grain + grain) us (omega arith) p))

initialize_heap-IsHeap :
    (f : IntArrayFreeList) (units grain : ℕ)
    → IsHeaded f
    → f.head ≡ 0xffffffff
    → 1 ≤ f.heads
    → 1 ≤ grain
    → units ≤ max_units
    → IsHeap
        (initialize_heap f units grain)
        0
        (grain_starts (units / grain) grain (offset_start units grain))
unfolding initialize_heap
initialize_heap-IsHeap f units grain h e some_heads one le =
    let g = set_head_sentinels f.heads f in
    let f₁ = set_sentinel g units in
    let heads : IsEmpty g = all_heads f h e some_heads in
    let same : g.heads ≡ f.heads = heads-set_head_sentinels f.heads f in
    let empty : IsEmpty f₁ =
      set_sentinel-IsEmpty g units (place-InTable g units heads.headed (omega (arith, le)))
        (λ q. omega (arith, heads.first, q, le)) heads in
    let total = div-add-mod' units grain in
    elim (dec_lt 0 (units % grain)) [
      | yes some ↦
          let start : units - units % grain ≡ units / grain * grain = omega (arith, total) in
          let block : IsBlock (units - units % grain) (units % grain) = record {
            some_units = omega arith;
            inside = omega (arith, total, le);
          } in
          rw (lt→ltb 0 (units % grain) some) (
            add_grains-IsHeap (units / grain) grain _ _ one (omega (arith, total, le)) (
              at_bound _ _ _ _ start (
                add_block-IsHeap f₁ (units - units % grain) (units % grain) block []
                  (empty-IsHeap f₁ _ empty))))
      | no none ↦ rw (not_positive (units % grain) none) (
          add_grains-IsHeap (units / grain) grain f₁ [] one (omega (arith, total, le))
            (empty-IsHeap f₁ _ empty))
    ]
  where
    suc_plus : (k : ℕ) → suc k ≡ k + 1
    suc_plus k = omega arith

    all_heads :
        (f : IntArrayFreeList)
        → IsHeaded f
        → f.head ≡ 0xffffffff
        → 1 ≤ f.heads
        → IsEmpty (set_head_sentinels f.heads f)
    all_heads f h e some =
        let n : f.heads - 1 + 1 ≡ f.heads = omega arith in
        subst (λ (k : ℕ). IsEmpty (set_head_sentinels k f)) n
          (subst (λ (k : ℕ). IsEmpty (set_head_sentinels k f)) (suc_plus (f.heads - 1))
            (set_head_sentinels-IsEmpty (f.heads - 1) f (omega arith) h e))

    not_positive : (k : ℕ) → ¬ (0 < k) → ltb 0 k ≡ false
    not_positive k h = ground arith

-- For at most `MAX_UNITS` units, between 1 and 128 heads and grains of at least one unit: in a new
-- list the free units are the starts of the grains, in ascending order, then that of the units that
-- are left over, if any are; each is the start of a block with no free unit inside it, so that the
-- list can be allocated from.
pub new-IsHeap :
    (units grain heads : ℕ)
    → units ≤ max_units
    → 1 ≤ grain
    → 1 ≤ heads
    → heads ≤ 128
    → IsHeap
        (new units grain heads)
        0
        (grain_starts (units / grain) grain (offset_start units grain))
unfolding new
new-IsHeap units grain heads le one some few =
    initialize_heap-IsHeap (record { head = 2 ^ 32 - 1; heads = heads; table = λ i. 0 }) units grain
      (record { few = few; sentinel = omega arith; word = omega arith }) refl some one le
