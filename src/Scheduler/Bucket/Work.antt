-- ===== src/Scheduler/Bucket/Work.antt =====
-- The operations of `WorkBucket`, src/scheduler/work_bucket.rs, with those of `BucketQueue` in place.
-- A `debug_assert!` is no part of an operation. `none` is the panic of `unwrap` where a bucket has no
-- prioritized queue.
use mmtk_core.Base.{
  ℕ, ◌==◌, Bool, true, false, not, ◌&&◌, ◌||◌, Option, none, some, List, [], ◌∷◌, if◌then◌else◌,
  length,
}
use mmtk_core.Scheduler.Injector.{Injector, Steal, Stolen}
use mmtk_core.Scheduler.Bucket.{WorkBucket, Notify}

module _ {W Q : Type 0} where
  unfoldable pub set_in_concurrent : Bool → WorkBucket W Q → WorkBucket W Q
  set_in_concurrent c b = record b { in_concurrent = c }

  unfoldable pub set_as_enabled : WorkBucket W Q → WorkBucket W Q
  set_as_enabled b = record b { disable = false }

  unfoldable pub set_as_disabled : WorkBucket W Q → WorkBucket W Q
  set_as_disabled b = record b { disable = true }

  -- The queue that was there comes back.
  unfoldable pub swap_queue : Q → WorkBucket W Q → Q × WorkBucket W Q
  swap_queue q b = (b.queue, record b { queue = q })

  unfoldable pub swap_prioritized : Option Q → Q → WorkBucket W Q → Option (Q × WorkBucket W Q)
  swap_prioritized none q b = none
  swap_prioritized (some old) q b = some (old, record b { prioritized_queue = some q })

  unfoldable pub swap_queue_prioritized : Q → WorkBucket W Q → Option (Q × WorkBucket W Q)
  unfolding swap_prioritized
  swap_queue_prioritized q b = swap_prioritized b.prioritized_queue q b

  unfoldable pub notify_one_worker : WorkBucket W Q → Option Notify
  notify_one_worker b = if b.active then some Notify.one else none

  unfoldable pub notify_all_workers : WorkBucket W Q → Option Notify
  notify_all_workers b = if b.active then some Notify.all else none

  unfoldable pub activate : WorkBucket W Q → WorkBucket W Q
  activate b = record b { active = true }

  unfoldable pub deactivate : WorkBucket W Q → WorkBucket W Q
  deactivate b = record b { active = false }

  unfoldable pub set_open_condition : List ℕ → WorkBucket W Q → WorkBucket W Q
  set_open_condition stages b = record b { can_open = some stages }

  unfoldable pub set_sentinel : W → WorkBucket W Q → WorkBucket W Q
  set_sentinel w b = record b { sentinel = some w }

  -- `update`, given what the open condition says, if the bucket has one.
  unfoldable pub update : Option Bool → WorkBucket W Q → WorkBucket W Q × Bool
  unfolding activate
  update none b = (b, false)
  update (some can_open) b = if not b.active && can_open then (activate b, true) else (b, false)

module _ {W Q L D : Type 0} (I : Injector W Q L D) where
  unfoldable pub new : Bool → WorkBucket W Q
  new is_active = record {
    disable = false;
    active = is_active;
    queue = I.new;
    prioritized_queue = none;
    can_open = none;
    sentinel = none;
    in_concurrent = true;
  }

  unfoldable pub enable_prioritized_queue : WorkBucket W Q → WorkBucket W Q
  enable_prioritized_queue b = record b { prioritized_queue = some I.new }

  -- `prioritized_queue.as_ref().map(|q| q.is_empty()).unwrap_or(true)`
  unfoldable pub prioritized_is_empty : Option Q → Bool
  prioritized_is_empty none = true
  prioritized_is_empty (some q) = I.is_empty q

  unfoldable pub is_empty : WorkBucket W Q → Bool
  unfolding prioritized_is_empty
  is_empty b =
      if b.disable then true else I.is_empty b.queue && prioritized_is_empty b.prioritized_queue

  unfoldable pub is_drained : WorkBucket W Q → Bool
  unfolding is_empty
  is_drained b = b.active && is_empty b

  unfoldable pub push_all : List W → Q → Q
  push_all [] q = q
  push_all (w ∷ ws) q = push_all ws (I.push w q)

  unfoldable pub add_prioritized_to : Option Q → W → WorkBucket W Q → Option (WorkBucket W Q)
  add_prioritized_to none w b = none
  add_prioritized_to (some q) w b = some (record b { prioritized_queue = some (I.push w q) })

  unfoldable pub add_prioritized : W → WorkBucket W Q → Option (WorkBucket W Q) × Option Notify
  unfolding add_prioritized_to notify_one_worker
  add_prioritized w b = (add_prioritized_to b.prioritized_queue w b, notify_one_worker b)

  unfoldable pub add_boxed_no_notify : W → WorkBucket W Q → WorkBucket W Q
  add_boxed_no_notify w b = record b { queue = I.push w b.queue }

  -- `add` boxes its argument and is otherwise the same.
  unfoldable pub add_boxed : W → WorkBucket W Q → WorkBucket W Q × Option Notify
  unfolding add_boxed_no_notify notify_one_worker
  add_boxed w b = (add_boxed_no_notify w b, notify_one_worker b)

  unfoldable pub bulk_add : List W → WorkBucket W Q → WorkBucket W Q × Option Notify
  unfolding push_all notify_one_worker notify_all_workers
  bulk_add [] b = (b, none)
  bulk_add (w ∷ ws) b = (
    record b { queue = push_all (w ∷ ws) b.queue },
    if b.active
        then if length (w ∷ ws) == 1 then notify_one_worker b else notify_all_workers b
        else none,
  )

  -- `prioritized_queue.steal_batch_and_pop(worker).or_else(|| self.queue.steal_batch_and_pop(worker))`:
  -- the closure runs, and takes from the second queue, unless the first gave a packet.
  unfoldable pub poll_both : Stolen W Q L → WorkBucket W Q → Steal W × WorkBucket W Q × L
  poll_both first b = elim first.result [
    | Steal.success w ↦
        (Steal.success w, record b { prioritized_queue = some first.source }, first.dest)
    | other ↦
        let second = I.steal_batch_and_pop b.queue first.dest in
        (
          I.or_else other second.result,
          record b { prioritized_queue = some first.source; queue = second.source },
          second.dest,
        )
  ]

  unfoldable pub poll_queues : Option Q → WorkBucket W Q → L → Steal W × WorkBucket W Q × L
  unfolding poll_both
  poll_queues none b l =
      let s = I.steal_batch_and_pop b.queue l in (s.result, record b { queue = s.source }, s.dest)
  poll_queues (some q) b l = poll_both (I.steal_batch_and_pop q l) b

  unfoldable pub poll : WorkBucket W Q → L → Steal W × WorkBucket W Q × L
  unfolding poll_queues is_empty
  poll b l =
      if b.disable || not b.active || is_empty b
      then (Steal.empty, b, l)
      else poll_queues b.prioritized_queue b l

  unfoldable pub schedule_taken : Option W → WorkBucket W Q → WorkBucket W Q × Bool
  unfolding add_boxed_no_notify
  schedule_taken none b = (b, false)
  schedule_taken (some w) b = (add_boxed_no_notify w b, true)

  -- `sentinel.take()`, then the packet that was taken is added, if there was one.
  unfoldable pub maybe_schedule_sentinel : WorkBucket W Q → WorkBucket W Q × Bool
  unfolding schedule_taken
  maybe_schedule_sentinel b = schedule_taken b.sentinel (record b { sentinel = none })
