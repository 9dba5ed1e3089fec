-- ===== src/Scheduler/Core/Opened.antt =====
-- What one round of the loop of `update_buckets` does, src/scheduler/scheduler.rs.
use mmtk_core.Base.{
  ℕ, ◌≡◌, ◌≢◌, refl, Bool, true, false, not, ◌||◌, Option, none, some, arith, ◌∙◌, update_self,
  update_ne,
}
use mmtk_core.Scheduler.Injector.{Injector}
use mmtk_core.Scheduler.Bucket.{WorkBucket}
use mmtk_core.Scheduler.Bucket.Work.{is_empty, is_drained, maybe_schedule_sentinel, activate}
use mmtk_core.Scheduler.Bucket.Work
use mmtk_core.Scheduler.Core.{find_packets, is_unconstrained, can_open, opened, open_stage, Opening}
use mmtk_core.Scheduler.Core.Drained.{Found, find_packets-Found}

module _ {W Q L D : Type 0} (I : Injector W Q L D) where
  -- The test that makes a round skip its stage.
  abbrev pub is_blocked : ℕ → (ℕ → WorkBucket W Q) → Bool
  is_blocked i bs =
      is_unconstrained i
      || (bs i).disable
      || (bs i).active
      || not (Work.update (can_open I bs (bs i).can_open) (bs i)).1

  -- The round opens its bucket.
  pub record Opens (i : ℕ) (s : Opening I) (r : Opening I × Bool) : Type 0 where
    pub was_closed : (s.buckets i).active ≡ false
    pub was_enabled : (s.buckets i).disable ≡ false
    pub condition : can_open I s.buckets (s.buckets i).can_open ≡ some true
    pub result : r ≡ opened I i (find_packets I s.new_packets (activate (s.buckets i))) s

  pub open_stage-skip :
      (i : ℕ) (s : Opening I) → is_blocked i s.buckets ≡ true → open_stage I i s ≡ (s, false)
  unfolding open_stage
  open_stage-skip i s h = rw h

  update-some :
      (o : Option Bool) (b : WorkBucket W Q)
      → (Work.update o b).1 ≡ true
      → (o ≡ some true) × (b.active ≡ false) × ((Work.update o b).0 ≡ activate b)
  unfolding Work.update
  update-some none b h = cc
  update-some (some true) b h = ground arith
  update-some (some false) b h = ground arith

  pub open_stage-Opens :
      (i : ℕ) (s : Opening I) → is_blocked i s.buckets ≡ false → Opens i s (open_stage I i s)
  unfolding open_stage
  open_stage-Opens i s h =
      let u =
        update-some (can_open I s.buckets (s.buckets i).can_open) (s.buckets i) (ground arith) in
      record {
        was_closed = u.1;
        was_enabled = ground arith;
        condition = u.0;
        result = rw (h, u.2) refl;
      }

  -- What an opening round leaves at its own stage.
  pub record Opened (i : ℕ) (s : Opening I) (r : Opening I × Bool) : Type 0 where
    pub found : Found I (activate (s.buckets i)) (r.0.buckets i) r.1
    pub others : (j : ℕ) → i ≢ j → r.0.buckets j ≡ s.buckets j
    pub updated : r.0.buckets_updated ≡ true
    pub packets : r.0.new_packets ≡ r.1
    pub progress : r.1 ≡ true → r.0.new_progress ≡ i

  opened-Opened :
      (i : ℕ) (s : Opening I) (c : WorkBucket W Q) (b : Bool)
      → Found I (activate (s.buckets i)) c b
      → Opened i s (opened I i (c, b) s)
  unfolding opened
  opened-Opened i s c b f = record {
    found = rw (update_self s.buckets i c) f;
    others = λ j ne. update_ne s.buckets i j c ne;
    updated = refl;
    packets = refl;
    progress = λ e. rw e;
  }

  activate-active : (b : WorkBucket W Q) → (activate b).active ≡ true
  unfolding activate
  activate-active b = refl

  activate-disable : (b : WorkBucket W Q) → (activate b).disable ≡ b.disable
  unfolding activate
  activate-disable b = refl

  found_when :
      (n : Bool) (b : WorkBucket W Q)
      → n ≡ false
      → b.active ≡ true
      → b.disable ≡ false
      → Found I b (find_packets I n b).0 (find_packets I n b).1
  found_when true b e a d = cc
  found_when false b e a d = find_packets-Found I b a d

  pub open_stage-Opened :
      (i : ℕ) (s : Opening I)
      → s.new_packets ≡ false
      → is_blocked i s.buckets ≡ false
      → Opened i s (open_stage I i s)
  open_stage-Opened i s n h =
      let o = open_stage-Opens i s h in
      let b = activate (s.buckets i) in
      let n' = s.new_packets in
      let f =
        found_when n' b n (activate-active (s.buckets i))
          (activate-disable (s.buckets i) ∙ o.was_enabled) in
      rw o.result (opened-Opened i s (find_packets I n' b).0 (find_packets I n' b).1 f)
