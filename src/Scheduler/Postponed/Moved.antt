-- ===== src/Scheduler/Postponed/Moved.antt =====
-- Where postponed packets go, src/scheduler/scheduler.rs.
use mmtk_core.Base.{
  append_nil, append_assoc, ℕ, zero, suc, ◌≤◌, ◌≡◌, ◌≢◌, refl, sym, ap, ◌∙◌, Bool, not, List, [],
  ◌∷◌, ◌++◌, if◌then◌else◌, arith, length, Bool-cases, inl, inr,
}
use mmtk_core.Scheduler.Injector.{Injector, Steal}
use mmtk_core.Scheduler.Bucket.Work.{push_all, bulk_add, swap_queue}
use mmtk_core.Scheduler.Parked.{GcWorkScheduler}
use mmtk_core.Scheduler.Postponed.{
  drain, sort_on, sort_packets, pause_concurrent_marking_work_packets_during_gc,
  process_lazy_decrement_packets, stw_rc_decs_stage, place_packets,
}

-- The packets that pass a test, in order.
abbrev pub select : {W : Type 0} → (W → Bool) → List W → List W
select p [] = []
select p (w ∷ ws) = let rest = select p ws in if p w then w ∷ rest else rest

module _ {W Q L D : Type 0} (I : Injector W Q L D) where
  -- No other thread steals at the same time, so no attempt has to be repeated.
  abbrev pub IsUncontended : Type 0
  IsUncontended = (q : Q) → (I.steal q).0 ≢ Steal.retry

  items-push_all : (ws : List W) (q : Q) → I.items (push_all I ws q) ≡ I.items q ++ ws
  unfolding push_all
  items-push_all [] q = sym (append_nil (I.items q))
  items-push_all (w ∷ ws) q =
      items-push_all ws (I.push w q)
      ∙ ap (λ l. l ++ ws) (I.items-push w q)
      ∙ append_assoc (I.items q) (w ∷ []) ws

  length-nil : (ws : List W) → length ws ≤ 0 → ws ≡ []
  length-nil [] h = refl
  length-nil (w ∷ ws) h = ground arith

  drain_step :
      (fuel : ℕ) (q d : Q) (r : Steal W)
      → ((q d : Q)
          → length (I.items q) ≤ fuel
          → I.items (drain I fuel q d) ≡ I.items d ++ I.items q)
      → IsUncontended
      → (I.steal q).0 ≡ r
      → length (I.items q) ≤ suc fuel
      → I.items (drain I (suc fuel) q d) ≡ I.items d ++ I.items q
  unfolding drain
  drain_step fuel q d Steal.empty ih u e h =
      rw (e, (I.steal-empty q e).0) (sym (append_nil (I.items d)))
  drain_step fuel q d (Steal.success x) ih u e h =
      let k : I.items q ≡ x ∷ I.items (I.steal q).1 = I.steal-success q x e in
      let len = ap length k in
      rw (e, k)
        (ih (I.steal q).1 (I.push x d) (omega (arith, len, h))
          ∙ ap (λ l. l ++ I.items (I.steal q).1) (I.items-push x d)
          ∙ append_assoc (I.items d) (x ∷ []) (I.items (I.steal q).1))
  drain_step fuel q d Steal.retry ih u e h = absurd (u q e)

  -- Draining moves all packets, in order, if the fuel is at least their number.
  drain-items :
      (fuel : ℕ) (q d : Q)
      → IsUncontended
      → length (I.items q) ≤ fuel
      → I.items (drain I fuel q d) ≡ I.items d ++ I.items q
  unfolding drain
  drain-items zero q d u h = rw (length-nil (I.items q) h) (sym (append_nil (I.items d)))
  drain-items (suc fuel) q d u h =
      drain_step fuel q d (I.steal q).0 (λ q d h. drain-items fuel q d u h) u refl h

  -- What one step of sorting does.
  pub record Sorted (is_cm : W → Bool) (ws ns cs : List W) (r : Q × List W × List W) : Type 0 where
    pub emptied : I.items r.0 ≡ []
    pub no_postpone : r.1 ≡ ns ++ select (λ w. not (is_cm w)) ws
    pub cm_packets : r.2 ≡ cs ++ select is_cm ws

  sort_done :
      (is_cm : W → Bool) (q : Q) (ws ns cs : List W)
      → ws ≡ []
      → I.items q ≡ []
      → Sorted is_cm ws ns cs (q, ns, cs)
  sort_done is_cm q ws ns cs e f =
      rw e (record {
        emptied = f;
        no_postpone = sym (append_nil ns);
        cm_packets = sym (append_nil cs);
      })

  sort_more :
      (is_cm : W → Bool) (w : W) (ws ns cs : List W) (r : Q × List W × List W)
      → Sorted is_cm ws
          (if is_cm w then ns else ns ++ w ∷ [])
          (if is_cm w then cs ++ w ∷ [] else cs)
          r
      → Sorted is_cm (w ∷ ws) ns cs r
  sort_more is_cm w ws ns cs r h = elim (Bool-cases (is_cm w)) [
    | inl e ↦
        let k = rw e at h in
        record {
          emptied = k.emptied;
          no_postpone = rw e k.no_postpone;
          cm_packets = rw e (k.cm_packets ∙ append_assoc cs (w ∷ []) (select is_cm ws));
        }
    | inr e ↦
        let k = rw e at h in
        record {
          emptied = k.emptied;
          no_postpone =
              rw e (k.no_postpone ∙ append_assoc ns (w ∷ []) (select (λ w. not (is_cm w)) ws));
          cm_packets = rw e k.cm_packets;
        }
  ]

  sort_step :
      (is_cm : W → Bool) (fuel : ℕ) (q : Q) (ns cs : List W) (r : Steal W)
      → ((q : Q) (ns cs : List W)
          → length (I.items q) ≤ fuel
          → Sorted is_cm (I.items q) ns cs (sort_packets I is_cm fuel q ns cs))
      → IsUncontended
      → (I.steal q).0 ≡ r
      → length (I.items q) ≤ suc fuel
      → Sorted is_cm
          (I.items q)
          ns
          cs
          (sort_on I is_cm r (I.steal q).1 ns cs (sort_packets I is_cm fuel (I.steal q).1))
  unfolding sort_on
  sort_step is_cm fuel q ns cs Steal.empty ih u e h =
      let k = I.steal-empty q e in
      sort_done is_cm (I.steal q).1 (I.items q) ns cs k.0 (ap I.items k.1 ∙ k.0)
  sort_step is_cm fuel q ns cs (Steal.success w) ih u e h =
      let k : I.items q ≡ w ∷ I.items (I.steal q).1 = I.steal-success q w e in
      let len = ap length k in
      rw k (
        sort_more is_cm w (I.items (I.steal q).1) ns cs _
          (ih (I.steal q).1 _ _ (omega (arith, len, h))))
  sort_step is_cm fuel q ns cs Steal.retry ih u e h = absurd (u q e)

  -- Sorting empties the queue and keeps the order, if the fuel is at least the number of packets.
  sort_packets-Sorted :
      (is_cm : W → Bool) (fuel : ℕ) (q : Q) (ns cs : List W)
      → IsUncontended
      → length (I.items q) ≤ fuel
      → Sorted is_cm (I.items q) ns cs (sort_packets I is_cm fuel q ns cs)
  unfolding sort_packets
  sort_packets-Sorted is_cm zero q ns cs u h =
      let e = length-nil (I.items q) h in sort_done is_cm q (I.items q) ns cs e e
  sort_packets-Sorted is_cm (suc fuel) q ns cs u h = elim (Bool-cases (I.is_empty q)) [
    | inl e ↦ let k = (I.is_empty_iff q).0 e in rw e (sort_done is_cm q (I.items q) ns cs k k)
    | inr e ↦ rw e (
        sort_step is_cm fuel q ns cs (I.steal q).0
          (λ q ns cs h. sort_packets-Sorted is_cm fuel q ns cs u h) u refl h)
  ]

module _ {W Q L D E : Type 0} (I : Injector W Q L D) where
  -- If no other thread steals and the fuel is at least the number of packets in `Unconstrained`: its
  -- normal queue is empty afterwards, and its packets stand in order behind the postponed ones.
  pub pause_concurrent_marking_work_packets_during_gc_lem :
      (fuel : ℕ) (s : GcWorkScheduler W Q L D E)
      → IsUncontended I
      → length (I.items (s.work_buckets 0).queue) ≤ fuel
      → (I.items ((pause_concurrent_marking_work_packets_during_gc I fuel s).work_buckets 0).queue
          ≡ [])
        × (I.items
              (pause_concurrent_marking_work_packets_during_gc I fuel s).postponed_concurrent_work
            ≡ I.items s.postponed_concurrent_work ++ I.items (s.work_buckets 0).queue)
  unfolding pause_concurrent_marking_work_packets_during_gc swap_queue
  pause_concurrent_marking_work_packets_during_gc_lem fuel s u h =
      elim (Bool-cases (I.is_empty (s.work_buckets 0).queue)) [
        | inl e ↦
            simp (e, (I.is_empty_iff (s.work_buckets 0).queue).0 e)
              (I.items-new, sym (append_nil (I.items s.postponed_concurrent_work)))
        | inr e ↦ simp e (
          I.items-new,
          drain-items I fuel (s.work_buckets 0).queue s.postponed_concurrent_work u h,
        )
      ]

  place_packets_lem :
      (queue : Q) (ns cs : List W) (s : GcWorkScheduler W Q L D E)
      → I.items queue ≡ []
      → (I.items (place_packets I queue ns cs s).0.postponed_concurrent_work_prioritized ≡ cs)
        × (I.items ((place_packets I queue ns cs s).0.work_buckets stw_rc_decs_stage).queue
            ≡ I.items (s.work_buckets stw_rc_decs_stage).queue ++ ns)
  unfolding place_packets bulk_add
  place_packets_lem queue [] cs s e = (
    items-push_all I cs queue ∙ ap (λ l. l ++ cs) e,
    sym (append_nil (I.items (s.work_buckets stw_rc_decs_stage).queue)),
  )
  place_packets_lem queue (w ∷ ws) cs s e = (
    items-push_all I cs queue ∙ ap (λ l. l ++ cs) e,
    items-push_all I (w ∷ ws) (s.work_buckets stw_rc_decs_stage).queue,
  )

  -- If no other thread steals and the fuel is at least the number of prioritized postponed packets:
  -- those of concurrent marking stay postponed, the others are appended to the queue of the stage
  -- `STWRCDecsAndSweep`, both in their order.
  pub process_lazy_decrement_packets_lem :
      (is_cm : W → Bool) (fuel : ℕ) (s : GcWorkScheduler W Q L D E)
      → IsUncontended I
      → length (I.items s.postponed_concurrent_work_prioritized) ≤ fuel
      → (I.items
            (process_lazy_decrement_packets I is_cm fuel s).0.postponed_concurrent_work_prioritized
          ≡ select is_cm (I.items s.postponed_concurrent_work_prioritized))
        × (I.items
              ((process_lazy_decrement_packets I is_cm fuel s).0.work_buckets
                stw_rc_decs_stage).queue
            ≡ I.items (s.work_buckets stw_rc_decs_stage).queue
              ++ select (λ w. not (is_cm w)) (I.items s.postponed_concurrent_work_prioritized))
  unfolding process_lazy_decrement_packets
  process_lazy_decrement_packets_lem is_cm fuel s u h =
      let r = sort_packets I is_cm fuel s.postponed_concurrent_work_prioritized [] [] in
      let k = sort_packets-Sorted I is_cm fuel s.postponed_concurrent_work_prioritized [] [] u h in
      let p = place_packets_lem r.0 r.1 r.2 s k.emptied in
      (
        p.0 ∙ k.cm_packets,
        p.1 ∙ ap (λ l. I.items (s.work_buckets stw_rc_decs_stage).queue ++ l) k.no_postpone,
      )
