-- ===== src/Scheduler/Parked/Finished.antt =====
-- The end of a collection on the path of the last parked worker, src/scheduler/scheduler.rs.
use mmtk_core.Base.{ℕ, ◌≡◌, refl, Bool-cases, inl, inr, true, false, Option, none, some, arith, ◌∙◌}
use mmtk_core.Scheduler.Injector.{Injector}
use mmtk_core.Scheduler.Bucket.{WorkBucket, Notify}
use mmtk_core.Scheduler.Bucket.Work.{set_in_concurrent}
use mmtk_core.Scheduler.Core.{deactivate_all}
use mmtk_core.Scheduler.Parked.{
  ok, Runtime, Outcome, Pause, full, dump_gc_stats, gc_pause_end, unwrap_pause, GcWorkScheduler,
  on_gc_finished, schedule_concurrent_packets, install_queue, set_in_gc_pause,
}
use mmtk_core.Scheduler.Parked.Shape.{IsShaped, kept-IsShaped, deactivate_all-KeepsShape}
use mmtk_core.Scheduler.Parked.Total.{
  IsSound, install_queue-IsSound, install_queue-time, install_prioritized-total,
}

module _ {E : Type 0} (R : Runtime E) where
  -- The plan, if it is LXR, has a current pause.
  abbrev pub HasPause : E → Type 0
  HasPause e = R.is_lxr e ≡ true → (p : Pause) × (R.current_pause e ≡ some p)

  -- A call returns while there is a pause, and leaves one.
  abbrev pub KeepsPause : (E → Outcome E) → Type 0
  KeepsPause f = (e : E) → HasPause e → (e' : E) × (f e ≡ ok e') × HasPause e'

  abbrev pub Returns : (E → Outcome E) → Type 0
  Returns f = (e : E) → (e' : E) × (f e ≡ ok e')

  -- The calls into the plan, the trigger, the statistics and the VM do not panic by themselves, and up
  -- to the end of the pause they leave it alone.
  pub record AreCallsSafe : Type 0 where
    pub unloads : KeepsPause R.do_class_unloading
    pub adds : (p : Pause) → KeepsPause (R.add_pause_time p)
    pub ends : KeepsPause R.on_gc_end
    pub ends_plan : KeepsPause R.end_of_gc
    pub aggregates : KeepsPause R.aggregate_live_bytes
    pub ends_pause : (p : Pause) → Returns (R.end_lxr_pause p)
    pub resets : Returns R.reset_collection_trigger
    pub leaves : Returns R.set_not_in_gc
    pub resumes : Returns R.resume_mutators

  dump_gc_stats-KeepsPause : AreCallsSafe → KeepsPause (dump_gc_stats R)
  unfolding dump_gc_stats unwrap_pause
  dump_gc_stats-KeepsPause safe e h = elim (Bool-cases (R.is_lxr e)) [
    | inl on ↦ let (p, q) = h on in rw (on, q) (safe.adds p e h)
    | inr off ↦ rw off (safe.adds full e h)
  ]

  gc_pause_end-Returns : AreCallsSafe → (e : E) → HasPause e → (e' : E) × (gc_pause_end R e ≡ ok e')
  unfolding gc_pause_end unwrap_pause
  gc_pause_end-Returns safe e h = elim (Bool-cases (R.is_lxr e)) [
    | inl on ↦ let (p, q) = h on in rw (on, q) (safe.ends_pause p e)
    | inr off ↦ rw off (e, refl)
  ]

module _ {W Q L D E : Type 0} (I : Injector W Q L D) (R : Runtime E) (schedule_collection : W) where
  abbrev pub Sched : Type 0
  Sched = GcWorkScheduler W Q L D E

  abbrev pub Sound : Sched → Type 0
  Sound = IsSound I R schedule_collection

  schedule_concurrent-total :
      (q p : Q) (s : Sched)
      → Sound s
      → (r : Sched × Option Notify) × (schedule_concurrent_packets I R schedule_collection (q, p) s
          ≡ ok r)
        × Sound r.0
        × (r.0.gc_start_time ≡ s.gc_start_time)
  unfolding schedule_concurrent_packets
  schedule_concurrent-total q p s h =
      let s0 : Sched = record s {
        move_concurrent_marking_to_stw = false;
        pause_concurrent_marking = false;
      } in
      let sound0 : Sound s0 = record { shaped = h.shaped; in_range = h.in_range } in
      let s1 = install_queue I R schedule_collection q s0 in
      let sound1 = install_queue-IsSound I R schedule_collection q s0 sound0 in
      let (t, e, sound, time) = install_prioritized-total I R schedule_collection p s1 sound1 in
      rw e (_, refl, sound, time ∙ install_queue-time I R schedule_collection q s0)

  pause-IsSound : (s : Sched) → Sound s → Sound (set_in_gc_pause I R schedule_collection false s)
  unfolding set_in_gc_pause set_in_concurrent
  pause-IsSound s h = record {
    shaped = kept-IsShaped _ _ (record { conditions = λ j. refl; queue_zero = refl }) h.shaped;
    in_range = h.in_range;
  }

  pause-time :
      (s : Sched)
      → (set_in_gc_pause I R schedule_collection false s).gc_start_time ≡ s.gc_start_time
  unfolding set_in_gc_pause
  pause-time s = refl

  closed-IsShaped : (bs : ℕ → WorkBucket W Q) → IsShaped bs → IsShaped (deactivate_all I bs).0
  closed-IsShaped bs h = kept-IsShaped bs _ (deactivate_all-KeepsShape I bs) h

  deactivate_all-progress : (bs : ℕ → WorkBucket W Q) → (deactivate_all I bs).1 ≡ 0
  unfolding deactivate_all
  deactivate_all-progress bs = refl

  -- The end of a collection that has a start time.
  pub on_gc_finished-total :
      (s : Sched) (t : ℕ)
      → AreCallsSafe R
      → HasPause R s.runtime
      → Sound s
      → s.gc_start_time ≡ some t
      → (r : Sched × Option Notify) × (on_gc_finished I R schedule_collection s ≡ ok r)
        × Sound r.0
        × (r.0.gc_start_time ≡ none)
  unfolding on_gc_finished
  on_gc_finished-total s t safe pause h e =
      let (e1, q1, h1) = safe.unloads s.runtime pause in
      let (e2, q2, h2) = dump_gc_stats-KeepsPause R safe e1 h1 in
      let (e3, q3, h3) = safe.ends e2 h2 in
      let (e4, q4, h4) = safe.ends_plan e3 h3 in
      let (e5, q5, h5) = safe.aggregates e4 h4 in
      let (e6, q6) = gc_pause_end-Returns R safe e5 h5 in
      let (e7, q7) = safe.resets e6 in
      let (e8, q8) = safe.leaves e7 in
      let (e9, q9) = safe.resumes e8 in
      let closed : Sched = record s {
        work_buckets = (deactivate_all I s.work_buckets).0;
        postponed_concurrent_work = I.new;
        postponed_concurrent_work_prioritized = I.new;
        bucket_update_progress = (deactivate_all I s.work_buckets).1;
        gc_start_time = none;
        runtime = e9;
      } in
      let sound : Sound closed = record {
        shaped = closed-IsShaped s.work_buckets h.shaped;
        in_range = rw (deactivate_all-progress s.work_buckets) (omega arith);
      } in
      let (r, q, sound', time) =
        schedule_concurrent-total s.postponed_concurrent_work
          s.postponed_concurrent_work_prioritized
          (set_in_gc_pause I R schedule_collection false closed) (pause-IsSound closed sound) in
      rw (q1, q2, q3, q4, e, q5, q6, q7, q8, q9) (r, q, sound', time ∙ pause-time closed)
