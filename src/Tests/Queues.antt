-- ===== src/Tests/Queues.antt =====
-- Queues of numbers as lists, for the queues of src/scheduler/work_bucket.rs.
use mmtk_core.Base.{
  ℕ, ◌≡◌, ◌↔◌, refl, Bool, true, false, Option, none, some, List, [], ◌∷◌, ◌++◌, arith,
}
use mmtk_core.Scheduler.Injector.{Injector, Steal, Stolen}

abbrev pub is_nil : List ℕ → Bool
is_nil [] = true
is_nil (x ∷ xs) = false

abbrev pub steal_first : List ℕ → Steal ℕ × List ℕ
steal_first [] = (Steal.empty, [])
steal_first (x ∷ xs) = (Steal.success x, xs)

abbrev pub steal_one : List ℕ → List ℕ → Stolen ℕ (List ℕ) (List ℕ)
steal_one [] l = record { result = Steal.empty; source = []; dest = l }
steal_one (x ∷ xs) l = record { result = Steal.success x; source = xs; dest = l }

abbrev pub pop_first : List ℕ → Option ℕ × List ℕ
pop_first [] = (none, [])
pop_first (x ∷ xs) = (some x, xs)

abbrev pub either : Steal ℕ → Steal ℕ → Steal ℕ
either (Steal.success w) s = Steal.success w
either Steal.empty s = s
either Steal.retry (Steal.success w) = Steal.success w
either Steal.retry Steal.empty = Steal.retry
either Steal.retry Steal.retry = Steal.retry

pub pop_iff : (d : List ℕ) → ((pop_first d).0 ≡ none) ↔ (is_nil d ≡ true)
pop_iff [] = (λ e. refl, λ e. refl)
pop_iff (x ∷ xs) = (λ e. cc, λ e. cc)

pub nil_iff : (q : List ℕ) → (is_nil q ≡ true) ↔ (q ≡ [])
nil_iff [] = (λ e. refl, λ e. refl)
nil_iff (x ∷ xs) = (λ e. cc, λ e. cc)

pub steal_empty :
    (q : List ℕ) → (steal_first q).0 ≡ Steal.empty → (q ≡ []) × ((steal_first q).1 ≡ q)
steal_empty [] e = (refl, refl)
steal_empty (x ∷ xs) e = cc

pub steal_success :
    (q : List ℕ) (w : ℕ) → (steal_first q).0 ≡ Steal.success w → q ≡ w ∷ (steal_first q).1
steal_success [] w e = cc
steal_success (x ∷ xs) w e = cc

pub steal_retry : (q : List ℕ) → (steal_first q).0 ≡ Steal.retry → (steal_first q).1 ≡ q
steal_retry [] e = cc
steal_retry (x ∷ xs) e = cc

append_nil : (l : List ℕ) → l ≡ l ++ []
append_nil [] = refl
append_nil (x ∷ xs) = ground (arith, append_nil xs)

pub batch_success :
    (q l : List ℕ) (w : ℕ)
    → (steal_one q l).result ≡ Steal.success w
    → (moved : List ℕ) × (q ≡ w ∷ (moved ++ (steal_one q l).source))
      × ((steal_one q l).dest ≡ l ++ moved)
batch_success [] l w e = cc
batch_success (x ∷ xs) l w e = ([], cc, append_nil l)

pub batch_empty :
    (q l : List ℕ)
    → (steal_one q l).result ≡ Steal.empty
    → (q ≡ []) × ((steal_one q l).source ≡ []) × ((steal_one q l).dest ≡ l)
batch_empty [] l e = (refl, refl, refl)
batch_empty (x ∷ xs) l e = cc

pub batch_retry :
    (q l : List ℕ)
    → (steal_one q l).result ≡ Steal.retry
    → ((steal_one q l).source ≡ q) × ((steal_one q l).dest ≡ l)
batch_retry [] l e = cc
batch_retry (x ∷ xs) l e = cc

abbrev pub queues : Injector ℕ (List ℕ) (List ℕ) (List ℕ)
queues = record {
  new = [];
  is_empty = is_nil;
  push = λ w q. q ++ w ∷ [];
  steal = steal_first;
  steal_batch_and_pop = steal_one;
  items = λ q. q;
  local_items = λ l. l;
  steal_local = steal_first;
  or_else = either;
  designated_is_empty = is_nil;
  designated_pop = pop_first;
  designated_pop_iff = pop_iff;
  items-new = refl;
  items-push = λ w q. refl;
  is_empty_iff = nil_iff;
  steal-empty = steal_empty;
  steal-success = steal_success;
  steal-retry = steal_retry;
  batch-success = batch_success;
  batch-empty = batch_empty;
  batch-retry = batch_retry;
  steal_local-empty = λ l e. (steal_empty l e).0;
  or_else-success = λ w s. refl;
  or_else-empty = λ s. refl;
  or_else-retry = λ w. refl;
  or_else-retry_empty = refl;
  or_else-retry_retry = refl;
}
