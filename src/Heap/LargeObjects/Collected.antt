-- ===== src/Heap/LargeObjects/Collected.antt =====
-- What a collection of the whole large object space does to each object.
use mmtk_core.Base.{
  ℕ, ◌+◌, ◌-◌, ◌/◌, ◌%◌, ◌≤◌, ◌≡◌, refl, ap, ◌∙◌, ◌==◌, Bool, true, false, some, List, [], ◌∷◌,
  ◌++◌, if◌then◌else◌, arith, Bool-cases, inl, inr, update,
}
use mmtk_core.Heap.Treadmill.{contains, copy, flip, take_nursery, collect, enumerate_objects}
use mmtk_core.Heap.Treadmill.Counts.{
  occurs, total, contains-yes, contains-no, occurs-insert, occurs-remove, occurs-append,
}
use mmtk_core.Heap.Treadmill.Collection.{IsDisjoint}
use mmtk_core.Heap.LargeObjects.{
  LargeObjectSpace, prepare, is_in_nursery, test_and_mark, trace_object, trace_all,
  sweep_large_pages, release, collect_full,
}

-- Between collections: the sets to collect are empty, no object is in two sets, and the bits of an
-- object tell the set that it is in, as its allocation and the last collection leave them.
pub record IsReady (s : LargeObjectSpace) : Type 0 where
  pub disjoint : IsDisjoint s.treadmill
  pub no_from_space : s.treadmill.from_space ≡ []
  pub no_collect_nursery : s.treadmill.collect_nursery ≡ []
  pub state : s.mark_state ≤ 1
  pub new : (y : ℕ) → 1 ≤ occurs y s.treadmill.alloc_nursery → s.bits y ≡ s.mark_state + 2
  pub old : (y : ℕ) → 1 ≤ occurs y s.treadmill.to_space → s.bits y ≡ s.mark_state

-- While a collection of the whole heap traces.
record IsTracing (s : LargeObjectSpace) : Type 0 where
  disjoint : IsDisjoint s.treadmill
  no_alloc_nursery : s.treadmill.alloc_nursery ≡ []
  state : s.mark_state ≤ 1
  full : s.in_nursery_gc ≡ false
  new : (y : ℕ) → 1 ≤ occurs y s.treadmill.collect_nursery → s.bits y ≡ 3 - s.mark_state
  old : (y : ℕ) → 1 ≤ occurs y s.treadmill.from_space → s.bits y ≡ 1 - s.mark_state
  done : (y : ℕ) → 1 ≤ occurs y s.treadmill.to_space → s.bits y ≡ s.mark_state

-- The object is copied and marked.
abbrev copied : LargeObjectSpace → ℕ → Bool → LargeObjectSpace
copied s x nursery = record s {
  bits = update s.bits x s.mark_state;
  treadmill = copy x nursery s.treadmill;
}

trace_new :
    (s : LargeObjectSpace) (x : ℕ)
    → s.mark_state ≤ 1
    → s.in_nursery_gc ≡ false
    → s.bits x ≡ 3 - s.mark_state
    → trace_object s x ≡ copied s x true
unfolding trace_object is_in_nursery test_and_mark
trace_new s x st full b =
    let nursery : ((3 - s.mark_state) / 2 % 2 == 1) ≡ true = ground (arith, st) in
    let unmarked : ((3 - s.mark_state) % 2 == s.mark_state) ≡ false = ground (arith, st) in
    rw (full, b) (rw (nursery, unmarked) refl)

trace_old :
    (s : LargeObjectSpace) (x : ℕ)
    → s.mark_state ≤ 1
    → s.in_nursery_gc ≡ false
    → s.bits x ≡ 1 - s.mark_state
    → trace_object s x ≡ copied s x false
unfolding trace_object is_in_nursery test_and_mark
trace_old s x st full b =
    let nursery : ((1 - s.mark_state) / 2 % 2 == 1) ≡ false = ground (arith, st) in
    let unmarked : ((1 - s.mark_state) % 2 == s.mark_state) ≡ false = ground (arith, st) in
    rw (full, b) (rw (nursery, unmarked) refl)

trace_done :
    (s : LargeObjectSpace) (x : ℕ)
    → s.mark_state ≤ 1
    → s.in_nursery_gc ≡ false
    → s.bits x ≡ s.mark_state
    → trace_object s x ≡ s
unfolding trace_object is_in_nursery test_and_mark
trace_done s x st full b =
    let marked : (s.mark_state % 2 == s.mark_state) ≡ true = ground (arith, st) in
    rw (full, b) (rw marked refl)

-- What tracing one object keeps and does.
abbrev HasTraced : LargeObjectSpace → ℕ → LargeObjectSpace → Type 0
HasTraced s x s' =
    IsTracing s'
    × (s'.needs_log_bit ≡ s.needs_log_bit)
    × ((y : ℕ)
        → (total y s'.treadmill ≡ total y s.treadmill)
          × (occurs y s'.treadmill.to_space
              ≡ (if y == x then 1 else occurs y s.treadmill.to_space)))

copied_new :
    (s : LargeObjectSpace) (x : ℕ)
    → IsTracing s
    → 1 ≤ occurs x s.treadmill.collect_nursery
    → HasTraced s x (copied s x true)
unfolding copy
copied_new s x h here =
    let fresh : occurs x s.treadmill.to_space ≡ 0 = omega (arith, h.disjoint x) in
    let inserted = λ (y : ℕ). occurs-insert y x s.treadmill.to_space fresh in
    let removed = λ (y : ℕ). occurs-remove y x s.treadmill.collect_nursery in
    (
      record {
        disjoint = λ y. ground (arith, h.disjoint y, h.disjoint x, inserted y, removed y, here);
        no_alloc_nursery = h.no_alloc_nursery;
        state = h.state;
        full = h.full;
        new = λ y. ground (arith, h.new y, removed y);
        old = λ y. ground (arith, h.old y, h.disjoint x, here);
        done = λ y. ground (arith, h.done y, inserted y);
      },
      refl,
      λ y. ground (arith, h.disjoint x, h.disjoint y, inserted y, removed y, here),
    )

copied_old :
    (s : LargeObjectSpace) (x : ℕ)
    → IsTracing s
    → 1 ≤ occurs x s.treadmill.from_space
    → HasTraced s x (copied s x false)
unfolding copy
copied_old s x h here =
    let fresh : occurs x s.treadmill.to_space ≡ 0 = omega (arith, h.disjoint x) in
    let inserted = λ (y : ℕ). occurs-insert y x s.treadmill.to_space fresh in
    let removed = λ (y : ℕ). occurs-remove y x s.treadmill.from_space in
    (
      record {
        disjoint = λ y. ground (arith, h.disjoint y, h.disjoint x, inserted y, removed y, here);
        no_alloc_nursery = h.no_alloc_nursery;
        state = h.state;
        full = h.full;
        new = λ y. ground (arith, h.new y, h.disjoint x, here);
        old = λ y. ground (arith, h.old y, removed y);
        done = λ y. ground (arith, h.done y, inserted y);
      },
      refl,
      λ y. ground (arith, h.disjoint x, h.disjoint y, inserted y, removed y, here),
    )

trace_object-HasTraced :
    (s : LargeObjectSpace) (x : ℕ)
    → IsTracing s
    → 1 ≤ total x s.treadmill
    → HasTraced s x (trace_object s x)
unfolding occurs
trace_object-HasTraced s x h here = elim (Bool-cases (contains x s.treadmill.collect_nursery)) [
  | inl c ↦
      let at = contains-yes x s.treadmill.collect_nursery c in
      rw (trace_new s x h.state h.full (h.new x at)) (copied_new s x h at)
  | inr no_new ↦ elim (Bool-cases (contains x s.treadmill.from_space)) [
    | inl c ↦
        let at = contains-yes x s.treadmill.from_space c in
        rw (trace_old s x h.state h.full (h.old x at)) (copied_old s x h at)
    | inr no_old ↦
        let empty : occurs x s.treadmill.alloc_nursery ≡ 0 = ap (occurs x) h.no_alloc_nursery in
        let at : 1 ≤ occurs x s.treadmill.to_space = omega (
          arith,
          empty,
          here,
          contains-no x s.treadmill.collect_nursery no_new,
          contains-no x s.treadmill.from_space no_old,
        ) in
        rw (trace_done s x h.state h.full (h.done x at))
          (h, refl, λ y. ground (arith, at, h.disjoint x))
  ]
]

trace_all-traced :
    (traced : List ℕ) (s : LargeObjectSpace)
    → IsTracing s
    → ((y : ℕ) → contains y traced ≡ true → 1 ≤ total y s.treadmill)
    → let s' = trace_all s traced in
      IsTracing s'
      × (s'.needs_log_bit ≡ s.needs_log_bit)
      × ((y : ℕ)
          → (total y s'.treadmill ≡ total y s.treadmill)
            × (occurs y s'.treadmill.to_space
                ≡ (if contains y traced then 1 else occurs y s.treadmill.to_space)))
unfolding trace_all contains
trace_all-traced [] s h live = (h, refl, λ y. (refl, refl))
trace_all-traced (x ∷ xs) s h live =
    let (h', log, at) = trace_object-HasTraced s x h (live x (ground arith)) in
    let (h'', log', at') =
      trace_all-traced xs (trace_object s x) h'
        (λ y c. omega (arith, live y (ground (arith, c)), (at y).0)) in
    (h'', log' ∙ log, λ y. ((at' y).0 ∙ (at y).0, ground (arith, at y, at' y)))

prepare-IsTracing : (s : LargeObjectSpace) → IsReady s → IsTracing (prepare true s)
unfolding prepare flip occurs
prepare-IsTracing s h = record {
  disjoint = λ y. omega (arith, h.disjoint y);
  no_alloc_nursery = h.no_collect_nursery;
  state = omega arith;
  full = refl;
  new = λ y lt. omega (arith, h.new y lt, h.state);
  old = λ y lt. omega (arith, h.old y lt, h.state);
  done = λ y lt. absurd (omega (arith, lt, ap (occurs y) h.no_from_space));
}

total-flip :
    (y : ℕ) (s : LargeObjectSpace) → total y (prepare true s).treadmill ≡ total y s.treadmill
unfolding prepare flip
total-flip y s = omega arith

release-none_logged :
    (s : LargeObjectSpace)
    → s.needs_log_bit ≡ false
    → release true s
      ≡ some (
        s.treadmill.collect_nursery ++ s.treadmill.from_space,
        record s { treadmill = record (s.treadmill) { collect_nursery = []; from_space = [] } },
      )
unfolding release sweep_large_pages take_nursery collect
release-none_logged s log = rw log refl

occurs-released :
    (y n : ℕ) (s : LargeObjectSpace)
    → IsTracing s
    → occurs y s.treadmill.to_space ≡ n
    → occurs y (s.treadmill.collect_nursery ++ s.treadmill.from_space) + n ≡ total y s.treadmill
unfolding occurs
occurs-released y n s h e =
    let none_new : occurs y s.treadmill.alloc_nursery ≡ 0 = ap (occurs y) h.no_alloc_nursery in
    omega (arith, e, none_new, occurs-append y s.treadmill.collect_nursery s.treadmill.from_space)

occurs-enumerated :
    (y n : ℕ) (s : LargeObjectSpace)
    → IsTracing s
    → occurs y s.treadmill.to_space ≡ n
    → occurs y (s.treadmill.alloc_nursery ++ s.treadmill.to_space) ≡ n
unfolding occurs
occurs-enumerated y n s h e =
    let none_new : occurs y s.treadmill.alloc_nursery ≡ 0 = ap (occurs y) h.no_alloc_nursery in
    omega (arith, e, none_new, occurs-append y s.treadmill.alloc_nursery s.treadmill.to_space)

-- For a plan without a log bit, and a space that is ready for a collection: a collection of the whole
-- heap does not panic, whichever objects of the space it traces, and however often. It releases every
-- object that is not traced exactly once and no traced one; afterwards exactly the traced objects are
-- enumerated, each once, and the space is ready for the next collection.
pub collect_full-partition :
    (traced : List ℕ) (s : LargeObjectSpace)
    → IsReady s
    → s.needs_log_bit ≡ false
    → ((y : ℕ) → contains y traced ≡ true → 1 ≤ total y s.treadmill)
    → (r : List ℕ × LargeObjectSpace) × (collect_full traced s ≡ some r)
      × ((y : ℕ)
          → (occurs y r.0 + (if contains y traced then 1 else 0) ≡ total y s.treadmill)
            × (occurs y (enumerate_objects r.1.treadmill) ≡ (if contains y traced then 1 else 0)))
      × IsReady r.1
unfolding collect_full enumerate_objects prepare flip occurs
collect_full-partition traced s h log live =
    let p = prepare true s in
    let same = λ (y : ℕ). total-flip y s in
    let (h', kept, at) =
      trace_all-traced traced p (prepare-IsTracing s h) (λ y c. omega (arith, same y, live y c)) in
    let q = trace_all p traced in
    let marked : (y : ℕ) → occurs y q.treadmill.to_space ≡ (if contains y traced then 1 else 0) =
      λ y.
        (at y).1 ∙ ap (λ n. if contains y traced then 1 else n) (ap (occurs y) h.no_from_space) in
    (
      _,
      release-none_logged q (kept ∙ log),
      λ y. (
        occurs-released y (if contains y traced then 1 else 0) q h' (marked y) ∙ (at y).0 ∙ same y,
        occurs-enumerated y (if contains y traced then 1 else 0) q h' (marked y),
      ),
      record {
        disjoint = λ y. omega (arith, h'.disjoint y);
        no_from_space = refl;
        no_collect_nursery = refl;
        state = h'.state;
        new = λ y lt. absurd (omega (arith, lt, ap (occurs y) h'.no_alloc_nursery));
        old = λ y lt. h'.done y lt;
      },
    )
