-- ===== src/Finalization/Partition.antt =====
-- What a scan does with each finalizer.
use mmtk_core.Base.{
  ℕ, ◌≤◌, ◌≡◌, refl, sym, ◌∙◌, leb, inl, inr, if◌then◌else◌, Bool, true, false, some, List, [], ◌∷◌,
  ◌++◌, map, length, take, drop, Bool-cases, append_nil, append_assoc, length-append, arith,
}
use mathlib.Core.List.{map-append}
use mmtk_core.Finalization.{
  Tracing, FinalizableProcessor, forward_all, forward_finalizable, scan_one, scan_all, scan,
}

module _ (t : Tracing) where
  open t use {Edges, Finalizable, get_reference, is_live, keep_alive, flush, id, keeps_id}

  -- Those of a list whose objects are live, or are not, each when it is reached: the live ones before
  -- it have been kept alive, with all that they refer to.
  abbrev pub ids_with : Edges → Bool → List Finalizable → List ℕ
  ids_with e live [] = []
  ids_with e live (f ∷ fs) =
      let traced = ids_with (keep_alive e f).0 live fs in
      let rest = ids_with e live fs in
      if is_live e (get_reference f)
      then (if live then id f ∷ traced else traced)
      else (if live then rest else id f ∷ rest)

  abbrev pub ids : List Finalizable → List ℕ
  ids fs = map id fs

  pub ids-forward_all : (e : Edges) (fs : List Finalizable) → ids (forward_all t e fs).1 ≡ ids fs
  unfolding forward_all
  ids-forward_all e [] = refl
  ids-forward_all e (f ∷ fs) = rw (keeps_id e f, ids-forward_all (keep_alive e f).0 fs)

  scan_one-candidates :
      (p : FinalizableProcessor t) (e : Edges) (f : Finalizable)
      → ids (scan_one t p e f).0.candidates ≡ ids p.candidates ++ ids_with e true (f ∷ [])
  unfolding scan_one
  scan_one-candidates p e f = elim (Bool-cases (is_live e (get_reference f))) [
    | inl live ↦ rw live (map-append id p.candidates _ ∙ rw (keeps_id e f))
    | inr dead ↦ rw dead (sym (append_nil _))
  ]

  scan_one-ready :
      (p : FinalizableProcessor t) (e : Edges) (f : Finalizable)
      → ids (scan_one t p e f).0.ready_for_finalize
        ≡ ids p.ready_for_finalize ++ ids_with e false (f ∷ [])
  unfolding scan_one
  scan_one-ready p e f = elim (Bool-cases (is_live e (get_reference f))) [
    | inl live ↦ rw live (sym (append_nil _))
    | inr dead ↦ rw dead (map-append id p.ready_for_finalize _)
  ]

  ids_with-cons :
      (p : FinalizableProcessor t) (e : Edges) (live : Bool) (f : Finalizable)
      (fs : List Finalizable)
      → ids_with e live (f ∷ fs) ≡ ids_with e live (f ∷ []) ++ ids_with (scan_one t p e f).1 live fs
  unfolding scan_one
  ids_with-cons p e live f fs = ground arith

  scan_all-ids :
      (p : FinalizableProcessor t) (e : Edges) (fs : List Finalizable)
      → let p' = (scan_all t p e fs).0 in
        (ids p'.candidates ≡ ids p.candidates ++ ids_with e true fs)
        × (ids p'.ready_for_finalize ≡ ids p.ready_for_finalize ++ ids_with e false fs)
  unfolding scan_all
  scan_all-ids p e [] = (sym (append_nil _), sym (append_nil _))
  scan_all-ids p e (f ∷ fs) =
      let (p', e') = scan_one t p e f in
      let ih = scan_all-ids p' e' fs in
      (
        ih.0
            ∙ rw (scan_one-candidates p e f, ids_with-cons p e true f fs)
                (append_assoc (ids p.candidates) (ids_with e true (f ∷ [])) (ids_with e' true fs)),
        ih.1
            ∙ rw (scan_one-ready p e f, ids_with-cons p e false f fs)
                (append_assoc (ids p.ready_for_finalize) (ids_with e false (f ∷ []))
                  (ids_with e' false fs)),
      )

  -- The finalizers that a scan looks at, and the earlier ones.
  abbrev pub scan_start : FinalizableProcessor t → Bool → ℕ
  scan_start p nursery = if nursery then p.nursery_index else 0

  -- For an index that is not behind the candidates: `scan` does not panic. Of the candidates and
  -- those that were ready, in this order, the ones before the index, in a nursery collection, stay
  -- candidates; behind them come, in order, those of the rest whose objects are live when they are
  -- reached, after the live ones before them have been kept alive; those of the rest whose objects are
  -- not live then are ready, in order; and the index is the number of candidates.
  pub scan-partition :
      (p : FinalizableProcessor t) (e : Edges) (nursery : Bool)
      → p.nursery_index ≤ length p.candidates
      → let start = scan_start p nursery in
        let all = p.candidates ++ p.ready_for_finalize in
        (r : FinalizableProcessor t × Edges) × (scan t p e nursery ≡ some r)
        × (ids r.0.candidates ≡ ids (take start all) ++ ids_with e true (drop start all))
        × (ids r.0.ready_for_finalize ≡ ids_with e false (drop start all))
        × (r.0.nursery_index ≡ length r.0.candidates)
  unfolding scan forward_finalizable
  scan-partition p e nursery h =
      let start = scan_start p nursery in
      let all = p.candidates ++ p.ready_for_finalize in
      let p' : FinalizableProcessor t = record p {
        candidates = take start all;
        ready_for_finalize = [];
      } in
      let scanned = scan_all-ids p' e (drop start all) in
      let (q, e') = scan_all t p' e (drop start all) in
      let forwarded = forward_all t e' q.ready_for_finalize in
      let last : FinalizableProcessor t = record q {
        ready_for_finalize = forwarded.1;
        nursery_index = length q.candidates;
      } in
      let test : leb start (length all) ≡ true =
        ground (arith, length-append p.candidates p.ready_for_finalize) in
      (
        (last, flush forwarded.0),
        rw test refl,
        scanned.0,
        ids-forward_all e' q.ready_for_finalize ∙ scanned.1,
        refl,
      )
