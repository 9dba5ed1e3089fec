-- ===== src/Scheduler/Injector.antt =====
-- What the scheduler relies on of `crossbeam::deque`, which is not part of the repository: queues of
-- work packets of type `W`. `Q` is `Injector<Box<dyn GCWork<VM>>>`, a shared queue, and `L` is
-- `Worker<Box<dyn GCWork<VM>>>`, the local queue of one worker; `D` is the `ArrayQueue` of packets that
-- are designated to one worker.
use mmtk_core.Base.{◌≡◌, ◌↔◌, Bool, true, Option, none, List, [], ◌∷◌, ◌++◌}

pub data Steal (W : Type 0) : Type 0 where
  empty retry : Steal W
  success : W → Steal W

pub record Stolen (W Q L : Type 0) : Type 0 where
  pub result : Steal W
  pub source : Q
  pub dest : L

pub record Injector (W Q L D : Type 0) : Type 0 where
  pub new : Q
  pub is_empty : Q → Bool
  pub push : W → Q → Q
  pub steal : Q → Steal W × Q
  pub steal_batch_and_pop : Q → L → Stolen W Q L
  -- The packets that a queue holds, oldest first.
  pub items : Q → List W
  pub local_items : L → List W
  -- `Stealer::steal`, on the local queue of another worker.
  pub steal_local : L → Steal W × L
  -- `Steal::or_else`, given what the closure returns.
  pub or_else : Steal W → Steal W → Steal W
  pub designated_is_empty : D → Bool
  pub designated_pop : D → Option W × D
  pub designated_pop_iff : (d : D) → ((designated_pop d).0 ≡ none) ↔ (designated_is_empty d ≡ true)
  pub items-new : items new ≡ []
  pub items-push : (w : W) (q : Q) → items (push w q) ≡ items q ++ (w ∷ [])
  pub is_empty_iff : (q : Q) → (is_empty q ≡ true) ↔ (items q ≡ [])
  pub steal-empty : (q : Q) → (steal q).0 ≡ empty → (items q ≡ []) × ((steal q).1 ≡ q)
  pub steal-success : (q : Q) (w : W) → (steal q).0 ≡ success w → items q ≡ w ∷ items (steal q).1
  pub steal-retry : (q : Q) → (steal q).0 ≡ retry → (steal q).1 ≡ q
  pub batch-success :
      (q : Q) (l : L) (w : W)
      → (steal_batch_and_pop q l).result ≡ success w
      → (moved : List W) × (items q ≡ w ∷ (moved ++ items (steal_batch_and_pop q l).source))
        × (local_items (steal_batch_and_pop q l).dest ≡ local_items l ++ moved)
  pub batch-empty :
      (q : Q) (l : L)
      → (steal_batch_and_pop q l).result ≡ empty
      → (items q ≡ [])
        × (items (steal_batch_and_pop q l).source ≡ [])
        × (local_items (steal_batch_and_pop q l).dest ≡ local_items l)
  pub batch-retry :
      (q : Q) (l : L)
      → (steal_batch_and_pop q l).result ≡ retry
      → (items (steal_batch_and_pop q l).source ≡ items q)
        × (local_items (steal_batch_and_pop q l).dest ≡ local_items l)
  pub steal_local-empty : (l : L) → (steal_local l).0 ≡ empty → local_items l ≡ []
  pub or_else-success : (w : W) (s : Steal W) → or_else (success w) s ≡ success w
  pub or_else-empty : (s : Steal W) → or_else empty s ≡ s
  pub or_else-retry : (w : W) → or_else retry (success w) ≡ success w
  pub or_else-retry_empty : or_else retry empty ≡ retry
  pub or_else-retry_retry : or_else retry retry ≡ retry
