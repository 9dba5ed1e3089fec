-- ===== src/Scheduler/Bucket/Polling.antt =====
-- `poll` of src/scheduler/work_bucket.rs: where the packets go.
use mmtk_core.Base.{
  append_assoc, ◌≡◌, ◌≢◌, refl, sym, ◌∙◌, ap, true, false, Option, none, some, List, [], ◌∷◌, ◌++◌,
  Bool-cases, inl, inr, ◌||◌, not,
}
use mathlib.Core.Path.{subst}
use mmtk_core.Scheduler.Injector.{Injector, Steal}
use mmtk_core.Scheduler.Bucket.{WorkBucket}
use mmtk_core.Scheduler.Bucket.Work.{poll, poll_queues, poll_both, is_empty}

module _ {W : Type 0} where
  -- What one attempt to steal does to the packets of a queue and of the local queue.
  abbrev StolenFrom : List W → List W → Steal W → List W → List W → Type 0
  StolenFrom qs ls (Steal.success w) qs' ls' =
      (moved : List W) × (qs ≡ w ∷ (moved ++ qs')) × (ls' ≡ ls ++ moved)
  StolenFrom qs ls Steal.empty qs' ls' = (qs ≡ []) × (qs' ≡ []) × (ls' ≡ ls)
  StolenFrom qs ls Steal.retry qs' ls' = (qs' ≡ qs) × (ls' ≡ ls)

  -- A packet that is polled leaves its place together with the packets that move to the local queue,
  -- which stood behind it in one piece; without a packet nothing moves.
  abbrev pub PolledFrom : List W → List W → Steal W → List W → List W → Type 0
  PolledFrom qs ls (Steal.success w) qs' ls' =
      (before : List W) × (moved : List W) × (after : List W) × (qs
        ≡ before ++ (w ∷ (moved ++ after)))
      × (qs' ≡ before ++ after)
      × (ls' ≡ ls ++ moved)
  PolledFrom qs ls Steal.empty qs' ls' = (qs' ≡ qs) × (ls' ≡ ls)
  PolledFrom qs ls Steal.retry qs' ls' = (qs' ≡ qs) × (ls' ≡ ls)

  after_empty :
      (r : Steal W) (qs ls ps ps' ls1 ls' : List W)
      → ls1 ≡ ls
      → StolenFrom ps ls1 r ps' ls'
      → PolledFrom ps ls r ps' ls'
  after_empty (Steal.success w) qs ls ps ps' ls1 ls' e k =
      ([], k.0, ps', k.1, refl, k.2 ∙ ap (λ l. l ++ k.0) e)
  after_empty Steal.empty qs ls ps ps' ls1 ls' e k = (k.1 ∙ sym k.0, k.2 ∙ e)
  after_empty Steal.retry qs ls ps ps' ls1 ls' e k = (k.0, k.1 ∙ e)

module _ {W Q L D : Type 0} (I : Injector W Q L D) where
  abbrev prioritized_packets : Option Q → List W
  prioritized_packets none = []
  prioritized_packets (some q) = I.items q

  -- The packets of a bucket, those of the prioritized queue first.
  abbrev pub packets : WorkBucket W Q → List W
  packets b = prioritized_packets b.prioritized_queue ++ I.items b.queue

  abbrev pub Polled : WorkBucket W Q → L → Steal W × WorkBucket W Q × L → Type 0
  Polled b l (r, b', l') =
      PolledFrom (packets b) (I.local_items l) r (packets b') (I.local_items l')

  batch-StolenFrom :
      (q : Q) (l : L) (r : Steal W)
      → (I.steal_batch_and_pop q l).result ≡ r
      → StolenFrom
          (I.items q)
          (I.local_items l)
          r
          (I.items (I.steal_batch_and_pop q l).source)
          (I.local_items (I.steal_batch_and_pop q l).dest)
  batch-StolenFrom q l (Steal.success w) e = I.batch-success q l w e
  batch-StolenFrom q l Steal.empty e = I.batch-empty q l e
  batch-StolenFrom q l Steal.retry e = I.batch-retry q l e

  -- The second attempt, after the first one has found a contended queue.
  after_retry :
      (r : Steal W) (qs qs' ls ps ps' ls1 ls' : List W)
      → qs' ≡ qs
      → ls1 ≡ ls
      → StolenFrom ps ls1 r ps' ls'
      → PolledFrom (qs ++ ps) ls (I.or_else Steal.retry r) (qs' ++ ps') ls'
  after_retry (Steal.success w) qs qs' ls ps ps' ls1 ls' e f k =
      rw (I.or_else-retry w)
        (qs, k.0, ps', ap (λ l. qs ++ l) k.1, ap (λ l. l ++ ps') e, k.2 ∙ ap (λ l. l ++ k.0) f)
  after_retry Steal.empty qs qs' ls ps ps' ls1 ls' e f k =
      rw I.or_else-retry_empty (ap (λ l. l ++ ps') e ∙ ap (λ l. qs ++ l) (k.1 ∙ sym k.0), k.2 ∙ f)
  after_retry Steal.retry qs qs' ls ps ps' ls1 ls' e f k =
      rw I.or_else-retry_retry (ap (λ l. l ++ ps') e ∙ ap (λ l. qs ++ l) k.0, k.1 ∙ f)

  both-Polled :
      (r : Steal W) (source : Q) (dest : L) (q : Q) (b : WorkBucket W Q) (l : L)
      → b.prioritized_queue ≡ some q
      → StolenFrom (I.items q) (I.local_items l) r (I.items source) (I.local_items dest)
      → Polled b l (poll_both I (record { result = r; source = source; dest = dest }) b)
  unfolding poll_both
  both-Polled (Steal.success w) source dest q b l p k = (
    [],
    k.0,
    I.items source ++ I.items b.queue,
    ap (λ o. prioritized_packets o ++ I.items b.queue) p
        ∙ ap (λ xs. xs ++ I.items b.queue) k.1
        ∙ ap (λ xs. w ∷ xs) (append_assoc k.0 (I.items source) (I.items b.queue)),
    refl,
    k.2,
  )
  both-Polled Steal.empty source dest q b l p k =
      let s = I.steal_batch_and_pop b.queue dest in
      let h =
        after_empty s.result [] (I.local_items l) (I.items b.queue) (I.items s.source)
          (I.local_items dest) (I.local_items s.dest) k.2
          (batch-StolenFrom b.queue dest s.result refl) in
      let ls = I.local_items l in
      let ls' = I.local_items s.dest in
      let answered : PolledFrom (I.items b.queue) ls (I.or_else Steal.empty s.result)
          (I.items s.source) ls' =
        subst (λ r. PolledFrom (I.items b.queue) ls r (I.items s.source) ls')
          (sym (I.or_else-empty s.result)) h in
      subst
        (λ xs.
          PolledFrom (packets b) ls (I.or_else Steal.empty s.result) (xs ++ I.items s.source) ls')
        (sym k.1)
        (subst
          (λ xs.
            PolledFrom (xs ++ I.items b.queue) ls (I.or_else Steal.empty s.result)
              (I.items s.source) ls')
          (sym (ap prioritized_packets p ∙ k.0)) answered)
  both-Polled Steal.retry source dest q b l p k =
      let s = I.steal_batch_and_pop b.queue dest in
      let h =
        after_retry s.result (I.items q) (I.items source) (I.local_items l) (I.items b.queue)
          (I.items s.source) (I.local_items dest) (I.local_items s.dest) k.0 k.1
          (batch-StolenFrom b.queue dest s.result refl) in
      subst
        (λ o.
          PolledFrom (prioritized_packets o ++ I.items b.queue) (I.local_items l)
            (I.or_else Steal.retry s.result) (I.items source ++ I.items s.source)
            (I.local_items s.dest))
        (sym p) h

  queues-Polled :
      (o : Option Q) (b : WorkBucket W Q) (l : L)
      → b.prioritized_queue ≡ o
      → Polled b l (poll_queues I o b l)
  unfolding poll_queues
  queues-Polled none b l p =
      let s = I.steal_batch_and_pop b.queue l in
      let h =
        after_empty s.result [] (I.local_items l) (I.items b.queue) (I.items s.source)
          (I.local_items l) (I.local_items s.dest) refl
          (batch-StolenFrom b.queue l s.result refl) in
      subst
        (λ o.
          PolledFrom (prioritized_packets o ++ I.items b.queue) (I.local_items l) s.result
            (prioritized_packets o ++ I.items s.source) (I.local_items s.dest))
        (sym p) h
  queues-Polled (some q) b l p =
      let s = I.steal_batch_and_pop q l in
      both-Polled s.result s.source s.dest q b l p (batch-StolenFrom q l s.result refl)

  -- Polling a bucket loses and duplicates no packet, whether the bucket is open or not: if a packet is
  -- polled, then it and the packets that move to the local queue stood next to each other in the bucket
  -- and are gone from it, and all others are still there in the same order; if none is polled, then
  -- neither the bucket's packets nor the local ones change.
  pub poll-Polled : (b : WorkBucket W Q) (l : L) → Polled b l (poll I b l)
  unfolding poll
  poll-Polled b l = elim (Bool-cases (b.disable || not b.active || is_empty I b)) [
    | inl e ↦ rw e (refl, refl)
    | inr e ↦ rw e (queues-Polled b.prioritized_queue b l refl)
  ]

  stolen-ne-empty :
      (q : Q) (l : L) (w : W)
      → (I.steal_batch_and_pop q l).result ≡ Steal.success w
      → I.is_empty q ≡ false
  stolen-ne-empty q l w e = elim (Bool-cases (I.is_empty q)) [
    | inl h ↦ let k = I.batch-success q l w e in absurd (ne (sym k.1 ∙ (I.is_empty_iff q).0 h))
    | inr h ↦ h
  ]
    where
      ne : {w : W} {ws : List W} → (w ∷ ws) ≢ []
      ne e = cc

  -- If an open, enabled bucket has a prioritized queue and an attempt to steal from that queue gives a
  -- packet, then that packet is the answer and the other queue is untouched.
  pub poll-prioritized :
      (b : WorkBucket W Q) (l : L) (q : Q) (w : W)
      → b.active ≡ true
      → b.disable ≡ false
      → b.prioritized_queue ≡ some q
      → (I.steal_batch_and_pop q l).result ≡ Steal.success w
      → ((poll I b l).0 ≡ Steal.success w) × ((poll I b l).1.queue ≡ b.queue)
  unfolding poll
  poll-prioritized b l q w a d p e =
      let ne : I.is_empty q ≡ false = stolen-ne-empty q l w e in
      rw (a, d, p, ne)
        (elim (Bool-cases (I.is_empty b.queue)) [
          | inl h ↦ rw (h, e) (refl, refl)
          | inr h ↦ rw (h, e) (refl, refl)
        ])
