-- ===== src/Finalization/Counted.antt =====
-- Finalizers over the life of a processor.
use mmtk_core.Base.{
  ℕ, ◌+◌, ◌≤◌, ◌≡◌, refl, sym, ap, ◌∙◌, ◌==◌, if◌then◌else◌, Bool, true, false, Option, none, some,
  List, [], ◌∷◌, ◌++◌, length, take, drop, take-append-drop, length-append, length-map, arith,
}
use mathlib.Core.List.{map-append}
use mmtk_core.Finalization.{
  Tracing, FinalizableProcessor, new, add, forward_all, forward_candidate, forward_finalizable,
  scan, pop, get_ready_object, get_all_finalizers, drain_filter, get_finalizers_for,
}
use mmtk_core.Finalization.Partition.{ids, ids_with, ids-forward_all, scan_start, scan-partition}

-- How often a number stands in a list.
abbrev pub count : ℕ → List ℕ → ℕ
count k [] = 0
count k (x ∷ xs) = (if x == k then 1 else 0) + count k xs

count-append : (k : ℕ) (xs ys : List ℕ) → count k (xs ++ ys) ≡ count k xs + count k ys
count-append k [] ys = omega arith
count-append k (x ∷ xs) ys = omega (arith, count-append k xs ys)

module _ (t : Tracing) where
  open t use {Edges, Finalizable, get_reference, keep_alive, flush, id}

  -- The calls of a processor, each with the state of the closure that it runs in.
  pub data Call : Type 0 where
    adds : (f : Finalizable) → Call
    scans : (e : Edges) (nursery : Bool) → Call
    forwards : (e : Edges) → Call
    takes_ready : Call
    takes_all : Call
    takes_for : (object : ℕ) → Call

  -- A processor, and the finalizers that it was given and has handed out.
  pub record Life : Type 0 where
    pub processor : FinalizableProcessor t
    pub added : List Finalizable
    pub handed_out : List Finalizable

  abbrev hand_out : Life → List Finalizable × FinalizableProcessor t → Life
  hand_out l (fs, p) = record l { processor = p; handed_out = fs ++ l.handed_out }

  abbrev as_list : Option Finalizable → List Finalizable
  as_list none = []
  as_list (some f) = f ∷ []

  unfoldable pub call : Life → Call → Option Life
  call l (adds f) = some (record l { processor = add t l.processor f; added = f ∷ l.added })
  call l (scans e nursery) = elim (scan t l.processor e nursery) [
    | none ↦ none
    | some (p, _) ↦ some (record l { processor = p })
  ]
  call l (forwards e) =
      let (p, e') = forward_candidate t l.processor e in
      some (record l { processor = (forward_finalizable t p e').0 })
  call l takes_ready =
      let (last, p) = get_ready_object t l.processor in some (hand_out l (as_list last, p))
  call l takes_all = some (hand_out l (get_all_finalizers t l.processor))
  call l (takes_for object) = some (hand_out l (get_finalizers_for t l.processor object))

  unfoldable pub run : Life → List Call → Option Life
  run l [] = some l
  run l (c ∷ cs) = elim (call l c) [ none ↦ none | some l' ↦ run l' cs ]

  pub record IsKept (l : Life) : Type 0 where
    pub index : l.processor.nursery_index ≤ length l.processor.candidates
    pub counted :
        (k : ℕ)
        → count k (ids t l.handed_out)
            + (count k (ids t l.processor.candidates)
                + count k (ids t l.processor.ready_for_finalize))
          ≡ count k (ids t l.added)

  count-ids-append :
      (k : ℕ) (xs ys : List Finalizable)
      → count k (ids t (xs ++ ys)) ≡ count k (ids t xs) + count k (ids t ys)
  count-ids-append k xs ys =
      ap (count k) (map-append id xs ys) ∙ count-append k (ids t xs) (ids t ys)

  count-ids_with :
      (k : ℕ) (e : Edges) (fs : List Finalizable)
      → count k (ids_with t e true fs) + count k (ids_with t e false fs) ≡ count k (ids t fs)
  count-ids_with k e [] = omega arith
  count-ids_with k e (f ∷ fs) =
      ground (arith, count-ids_with k e fs, count-ids_with k (keep_alive e f).0 fs)

  count-pop :
      (k : ℕ) (fs : List Finalizable)
      → count k (ids t (as_list (pop t fs).0)) + count k (ids t (pop t fs).1) ≡ count k (ids t fs)
  unfolding pop
  count-pop k [] = omega arith
  count-pop k (f ∷ []) = omega arith
  count-pop k (f ∷ g ∷ fs) = omega (arith, count-pop k (g ∷ fs))

  -- The element goes to one of two lists.
  put_somewhere :
      (k : ℕ) (found : Bool) (f : Finalizable) (kept ret : List Finalizable)
      → count k (ids t (if found then ret ++ f ∷ [] else ret))
          + count k (ids t (if found then kept else kept ++ f ∷ []))
        ≡ count k (ids t ret) + count k (ids t kept) + count k (ids t (f ∷ []))
  put_somewhere k true f kept ret = omega (arith, count-ids-append k ret (f ∷ []))
  put_somewhere k false f kept ret = omega (arith, count-ids-append k kept (f ∷ []))

  count-drain_filter :
      (k object : ℕ) (rest kept ret : List Finalizable)
      → let r = drain_filter t object rest kept ret in
        count k (ids t r.0) + count k (ids t r.1)
        ≡ count k (ids t ret) + count k (ids t kept) + count k (ids t rest)
  unfolding drain_filter
  count-drain_filter k object [] kept ret = omega arith
  count-drain_filter k object (f ∷ rest) kept ret =
      let found = get_reference f == object in
      let kept' = if found then kept else kept ++ f ∷ [] in
      let ret' = if found then ret ++ f ∷ [] else ret in
      omega (arith, count-drain_filter k object rest kept' ret', put_somewhere k found f kept ret)

  same_length : (fs gs : List Finalizable) → ids t fs ≡ ids t gs → length fs ≡ length gs
  same_length fs gs h = sym (length-map fs id) ∙ ap length h ∙ length-map gs id

  -- A call does not panic, and keeps the count.
  Kept : Option Life → Type 0
  Kept o = (l : Life) × (o ≡ some l) × IsKept l

  call-Kept : (l : Life) (c : Call) → IsKept l → Kept (call l c)
  unfolding Kept call add forward_candidate forward_finalizable get_ready_object get_all_finalizers
      get_finalizers_for new
  call-Kept l (adds f) h = (
    _,
    refl,
    record {
      index = omega (arith, h.index, length-append l.processor.candidates (f ∷ []));
      counted = λ k. omega (arith, h.counted k, count-ids-append k l.processor.candidates (f ∷ []));
    },
  )
  call-Kept l (scans e nursery) h =
      let (r, eq, kept, ready, index) = scan-partition t l.processor e nursery h.index in
      let start = scan_start t l.processor nursery in
      let all = l.processor.candidates ++ l.processor.ready_for_finalize in
      (
        record l { processor = r.0 },
        rw (eq, call) refl,
        record {
          index = omega (arith, index);
          counted = λ k. omega (
            arith,
            h.counted k,
            ap (count k) kept,
            ap (count k) ready,
            count-append k (ids t (take start all)) (ids_with t e true (drop start all)),
            count-ids_with k e (drop start all),
            count-ids-append k (take start all) (drop start all),
            ap (λ fs. count k (ids t fs)) (take-append-drop start all),
            count-ids-append k l.processor.candidates l.processor.ready_for_finalize,
          );
        },
      )
  call-Kept l (forwards e) h =
      let kept = ids-forward_all t e l.processor.candidates in
      let e' = flush (forward_all t e l.processor.candidates).0 in
      let ready = ids-forward_all t e' l.processor.ready_for_finalize in
      (
        _,
        refl,
        record {
          index = omega (
            arith,
            h.index,
            same_length (forward_all t e l.processor.candidates).1 l.processor.candidates kept,
          );
          counted = λ k. omega (arith, h.counted k, ap (count k) kept, ap (count k) ready);
        },
      )
  call-Kept l takes_ready h = (
    _,
    refl,
    record {
      index = h.index;
      counted = λ k. omega (
        arith,
        h.counted k,
        count-pop k l.processor.ready_for_finalize,
        count-ids-append k (as_list (pop t l.processor.ready_for_finalize).0) l.handed_out,
      );
    },
  )
  call-Kept l takes_all h = (
    _,
    refl,
    record {
      index = omega arith;
      counted = λ k. omega (
        arith,
        h.counted k,
        count-ids-append k l.processor.candidates l.processor.ready_for_finalize,
        count-ids-append k (l.processor.candidates ++ l.processor.ready_for_finalize) l.handed_out,
      );
    },
  )
  call-Kept l (takes_for object) h = (
    _,
    refl,
    record {
      index = omega arith;
      counted = λ k. omega (
        arith,
        h.counted k,
        count-drain_filter k object l.processor.candidates [] [],
        count-drain_filter k object l.processor.ready_for_finalize [] [],
        count-ids-append k (drain_filter t object l.processor.candidates [] []).0
            (drain_filter t object l.processor.ready_for_finalize [] []).0,
        count-ids-append k
            ((drain_filter t object l.processor.candidates [] []).0
              ++ (drain_filter t object l.processor.ready_for_finalize [] []).0)
            l.handed_out,
      );
    },
  )

  run-Kept : (l : Life) (cs : List Call) → IsKept l → Kept (run l cs)
  unfolding run Kept
  run-Kept l [] h = (l, refl, h)
  run-Kept l (c ∷ cs) h = let (l', eq, h') = call-Kept l c h in rw (eq, run) (run-Kept l' cs h')

  new-IsKept : IsKept (record { processor = new t; added = []; handed_out = [] })
  unfolding new
  new-IsKept = record { index = omega arith; counted = λ k. omega arith }

  -- From a new processor, whatever calls are made, in any order, with any closures: none panics; the
  -- index is never behind the candidates; and each registration stands as often as it was added
  -- among those handed out, the candidates and those ready to be finalized, taken together.
  pub run-IsKept :
      (cs : List Call)
      → (l : Life) × (run (record { processor = new t; added = []; handed_out = [] }) cs ≡ some l)
        × IsKept l
  unfolding Kept
  run-IsKept cs = run-Kept _ cs new-IsKept
