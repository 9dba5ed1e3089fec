-- ===== src/Heap/Requester.antt =====
-- `GCRequester` of src/plan/gc_requester.rs: mutators race to request a collection. Each access to
-- the atomic flag is one step.
use mmtk_core.Base.{
  ℕ, zero, suc, ◌+◌, ◌<◌, ◌≡◌, refl, Bool, true, false, if◌then◌else◌, update, arith, count_below,
  count_below-update,
}

-- Where a mutator stands in `request`.
pub data Pc : Type 0 where
  outside : Pc
  loaded : (flag : Bool) → Pc  -- after the first load
  swapped : (old : Bool) → Pc  -- after the swap

-- The flag; how often `request_schedule_collection` has been called; and how often `clear_request` has
-- found the flag set (where it finds it unset, it changes nothing).
pub record Requester : Type 0 where
  pub request_flag : Bool
  pub scheduled : ℕ
  pub cleared : ℕ

pub record System : Type 0 where
  pub requester : Requester
  pub pc : ℕ → Pc

abbrev move : System → ℕ → Requester → Pc → System
move s i r p = record { requester = r; pc = update s.pc i p }

pub data Step (n : ℕ) (s : System) : System → Type 0 where
  load :
      (i : ℕ)
      → i < n
      → s.pc i ≡ outside
      → Step n s (move s i s.requester (loaded s.requester.request_flag))
  return_early : (i : ℕ) → i < n → s.pc i ≡ loaded true → Step n s (move s i s.requester outside)
  swap :
      (i : ℕ)
      → i < n
      → s.pc i ≡ loaded false
      → Step n s (
          move s i
            (record (s.requester) { request_flag = true })
            (swapped s.requester.request_flag))
  lost : (i : ℕ) → i < n → s.pc i ≡ swapped true → Step n s (move s i s.requester outside)
  request_schedule_collection :
      (i : ℕ)
      → i < n
      → s.pc i ≡ swapped false
      → Step n s (move s i (record (s.requester) { scheduled = s.requester.scheduled + 1 }) outside)
  -- A worker, when all mutators have stopped. It clears a flag that is set.
  clear_request :
      s.requester.request_flag ≡ true
      → Step n s (record s {
        requester = record (s.requester) {
          request_flag = false;
          cleared = s.requester.cleared + 1;
        };
      })

pub data Reach (n : ℕ) : System → Type 0 where
  start : Reach n (record {
    requester = record { request_flag = false; scheduled = 0; cleared = 0 };
    pc = λ _. outside;
  })
  later : {s t : System} → Reach n s → Step n s t → Reach n t

-- A mutator that has set the flag and has not yet sent its request.
abbrev pub is_sending : Pc → Bool
is_sending (swapped false) = true
is_sending _ = false

-- Each time the flag is set, exactly one request is sent or about to be sent.
abbrev pub IsOncePerFlag : ℕ → System → Type 0
IsOncePerFlag n s =
    s.requester.scheduled + count_below is_sending n s.pc
    ≡ s.requester.cleared + (if s.requester.request_flag then 1 else 0)

count_below-none : (n : ℕ) → count_below is_sending n (λ _. outside) ≡ 0
unfolding count_below
count_below-none zero = refl
count_below-none (suc n) = omega (arith, count_below-none n)

Step-once : {n : ℕ} {s t : System} → Step n s t → IsOncePerFlag n s → IsOncePerFlag n t
Step-once {n} {s} (load i lt e) h =
    ground (arith, count_below-update is_sending n s.pc i (loaded s.requester.request_flag))
Step-once {n} {s} (return_early i lt e) h =
    ground (arith, count_below-update is_sending n s.pc i outside)
Step-once {n} {s} (swap i lt e) h =
    ground (arith, count_below-update is_sending n s.pc i (swapped s.requester.request_flag))
Step-once {n} {s} (lost i lt e) h = ground (arith, count_below-update is_sending n s.pc i outside)
Step-once {n} {s} (request_schedule_collection i lt e) h =
    ground (arith, count_below-update is_sending n s.pc i outside)
Step-once {n} {s} (clear_request e) h = ground arith

-- However `n` mutators and the clearing worker interleave, the requests that were sent to the workers
-- and those about to be sent are together as many as the times that the flag was cleared, and one
-- more while it is set: no collection is requested twice, and no request is lost.
pub Reach-once : {n : ℕ} {s : System} → Reach n s → IsOncePerFlag n s
Reach-once {n} start = omega (arith, count_below-none n)
Reach-once (later r st) = Step-once st (Reach-once r)
