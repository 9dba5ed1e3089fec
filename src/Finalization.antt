-- ===== src/Finalization.antt =====
-- Finalizers, `FinalizableProcessor` of src/util/finalizable_processor.rs. What a binding registers,
-- how an object is kept alive and which objects are live belong to the VM and the plan, and are the
-- record `Tracing`.
pub mod Partition
pub mod Counted
use mmtk_core.Base.{
  ℕ, ◌+◌, ◌≡◌, ◌==◌, leb, if◌then◌else◌, Bool, true, false, Option, none, some, List, [], ◌∷◌, ◌++◌,
  length, take, drop,
}

-- The state of a closure, the registered finalizers, and what is documented of them: a finalizer that
-- is kept alive may have new references, but is the same registration, `id` says which. Keeping one
-- alive traces its references, and may make any object live.
pub record Tracing : Type 1 where
  pub Edges : Type 0
  pub Finalizable : Type 0
  pub get_reference : Finalizable → ℕ
  pub is_live : Edges → ℕ → Bool
  pub keep_alive : Edges → Finalizable → Edges × Finalizable
  pub flush : Edges → Edges
  pub id : Finalizable → ℕ
  pub keeps_id : (e : Edges) (f : Finalizable) → id (keep_alive e f).1 ≡ id f

module _ (t : Tracing) where
  open t use {Edges, Finalizable, get_reference, is_live, keep_alive, flush}

  pub record FinalizableProcessor : Type 0 where
    pub candidates : List Finalizable
    pub nursery_index : ℕ
    pub ready_for_finalize : List Finalizable

  unfoldable pub new : FinalizableProcessor
  new = record { candidates = []; nursery_index = 0; ready_for_finalize = [] }

  unfoldable pub add : FinalizableProcessor → Finalizable → FinalizableProcessor
  add p object = record p { candidates = p.candidates ++ object ∷ [] }

  -- The loop that keeps every finalizer of a vector alive.
  unfoldable pub forward_all : Edges → List Finalizable → Edges × List Finalizable
  forward_all e [] = (e, [])
  forward_all e (f ∷ fs) =
      let (e', f') = keep_alive e f in let (e'', fs') = forward_all e' fs in (e'', f' ∷ fs')

  unfoldable pub forward_candidate : FinalizableProcessor → Edges → FinalizableProcessor × Edges
  forward_candidate p e =
      let (e', fs) = forward_all e p.candidates in (record p { candidates = fs }, flush e')

  unfoldable pub forward_finalizable : FinalizableProcessor → Edges → FinalizableProcessor × Edges
  forward_finalizable p e =
      let (e', fs) = forward_all e p.ready_for_finalize in
      (record p { ready_for_finalize = fs }, flush e')

  -- One finalizer that has been drained.
  unfoldable pub scan_one :
      FinalizableProcessor → Edges → Finalizable → FinalizableProcessor × Edges
  scan_one p e f =
      let (e', f') = keep_alive e f in
      if is_live e (get_reference f)
      then (record p { candidates = p.candidates ++ f' ∷ [] }, e')
      else (record p { ready_for_finalize = p.ready_for_finalize ++ f ∷ [] }, e)

  unfoldable pub scan_all :
      FinalizableProcessor → Edges → List Finalizable → FinalizableProcessor × Edges
  scan_all p e [] = (p, e)
  scan_all p e (f ∷ fs) = let (p', e') = scan_one p e f in scan_all p' e' fs

  -- `none` is the panic of `drain` for an index behind the end. The binding is then told to run
  -- finalizers.
  unfoldable pub scan :
      FinalizableProcessor → Edges → (nursery : Bool) → Option (FinalizableProcessor × Edges)
  scan p e nursery =
      let start = if nursery then p.nursery_index else 0 in
      let all = p.candidates ++ p.ready_for_finalize in
      let (p', e') =
        scan_all (record p { candidates = take start all; ready_for_finalize = [] }) e
          (drop start all) in
      let (p'', e'') = forward_finalizable p' e' in
      if leb start (length all)
      then some (record p'' { nursery_index = length p''.candidates }, e'')
      else none

  -- The last element of a vector, and the rest.
  unfoldable pub pop : List Finalizable → Option Finalizable × List Finalizable
  pop [] = (none, [])
  pop (f ∷ []) = (some f, [])
  pop (f ∷ g ∷ fs) = let (last, rest) = pop (g ∷ fs) in (last, f ∷ rest)

  unfoldable pub get_ready_object : FinalizableProcessor → Option Finalizable × FinalizableProcessor
  unfolding pop
  get_ready_object p =
      let (last, rest) = pop p.ready_for_finalize in (last, record p { ready_for_finalize = rest })

  unfoldable pub get_all_finalizers : FinalizableProcessor → List Finalizable × FinalizableProcessor
  unfolding new
  get_all_finalizers p = (p.candidates ++ p.ready_for_finalize, new)

  -- The vector is `kept`, which has the elements before the index, and the rest.
  unfoldable pub drain_filter :
      ℕ → (rest kept ret : List Finalizable) → List Finalizable × List Finalizable
  drain_filter object [] kept ret = (ret, kept)
  drain_filter object (f ∷ rest) kept ret =
      let found = get_reference f == object in
      drain_filter object rest (if found then kept else kept ++ f ∷ [])
        (if found then ret ++ f ∷ [] else ret)

  unfoldable pub get_finalizers_for :
      FinalizableProcessor → ℕ → List Finalizable × FinalizableProcessor
  get_finalizers_for p object =
      let (ret, candidates) = drain_filter object p.candidates [] [] in
      let (ready, ready_for_finalize) = drain_filter object p.ready_for_finalize [] [] in
      (
        ret ++ ready,
        record {
          candidates = candidates;
          nursery_index = 0;
          ready_for_finalize = ready_for_finalize;
        },
      )
