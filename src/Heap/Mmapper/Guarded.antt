-- ===== src/Heap/Mmapper/Guarded.antt =====
-- What the operating system is asked for: memory that is in use is never mapped over.
use mmtk_core.Base.{
  ℕ, zero, suc, ◌+◌, ◌≡◌, ◌≢◌, refl, sym, ◌==◌, ltb, inl, inr, List, [], ◌∷◌, Bool-cases, arith,
  update, update_self, update_ne, ℕ_discrete,
}
use mmtk_core.Heap.Mmapper.{
  MapState, unmapped, quarantined, mapped, protected, OsCall, dzmmap_noreplace, dzmmap, munprotect,
  mmap_noreserve, mprotect, Os, ByteMapMmapper, new, Result, ok, err, panics, call_then,
  mapped_from, transition_to_mapped, quarantined_from, transition_to_quarantined, protected_from,
  transition_to_protected, is_mapped, unwrapped, unless_mapped, Body, for_chunks, mark_as_mapped,
  ensure_mapped, quarantine_address_range, protect,
}
use mmtk_core.Heap.Mmapper.{mmap_num_chunks, address_to_mmap_chunks_up}
use mmtk_core.Heap.Mmapper.System.{
  Memory, free, reserved, inaccessible, after_call, memory_of, MayCall, AreGuarded,
}

-- A mapped chunk may also have been mapped by the VM.
abbrev Agrees : MapState → Memory → Type 0
Agrees unmapped s = s ≡ free
Agrees quarantined s = s ≡ reserved
Agrees protected s = s ≡ inaccessible
Agrees mapped s = Unit {0}

record IsGuarded (os : Os) (m : ByteMapMmapper) : Type 0 where
  agrees : (chunk : ℕ) → Agrees (m.states chunk) (memory_of os m.calls chunk)
  guarded : AreGuarded os m.calls

module _ (os : Os) where
  -- A call that fits the new state, and is made where it may be.
  call_then-IsGuarded :
      (m : ByteMapMmapper) (chunk : ℕ) (c : OsCall) (state : MapState)
      → IsGuarded os m
      → MayCall os m.calls c
      → Agrees state (after_call c chunk (memory_of os m.calls chunk))
      → ((k : ℕ) → k ≢ chunk → after_call c k (memory_of os m.calls k) ≡ memory_of os m.calls k)
      → IsGuarded os (call_then os m chunk c state).1
  unfolding call_then
  call_then-IsGuarded m chunk c state h may fits others = elim (Bool-cases (os m.calls c)) [
    | inr failed ↦
        rw failed (record { agrees = λ k. rw failed (h.agrees k); guarded = (may, h.guarded) })
    | inl done ↦ rw done (record {
      agrees = λ k. elim (ℕ_discrete k chunk) [
        | yes e ↦ rw (e, done, update_self m.states chunk state) fits
        | no n ↦
            rw (done, update_ne m.states chunk k state (λ e. n (sym e)), others k n) (h.agrees k)
      ];
      guarded = (may, h.guarded);
    })
  ]

  -- A state that is stored without a call.
  store-IsGuarded :
      (m : ByteMapMmapper) (chunk : ℕ) (state : MapState)
      → IsGuarded os m
      → Agrees state (memory_of os m.calls chunk)
      → IsGuarded os (record m { states = update m.states chunk state })
  store-IsGuarded m chunk state h fits = record {
    agrees = λ k. elim (ℕ_discrete k chunk) [
      | yes e ↦ rw (e, update_self m.states chunk state) fits
      | no n ↦ rw (update_ne m.states chunk k state (λ e. n (sym e))) (h.agrees k)
    ];
    guarded = h.guarded;
  }

  unwrapped-IsGuarded :
      (r : Result × ByteMapMmapper) → IsGuarded os r.1 → IsGuarded os (unwrapped r).1
  unwrapped-IsGuarded (ok, m) h = h
  unwrapped-IsGuarded (err, m) h = h
  unwrapped-IsGuarded (panics, m) h = h

  mapped_from-IsGuarded :
      (m : ByteMapMmapper) (chunk : ℕ) (state : MapState)
      → m.states chunk ≡ state
      → IsGuarded os m
      → IsGuarded os (mapped_from os m chunk state).1
  unfolding mapped_from
  mapped_from-IsGuarded m chunk unmapped e h =
      call_then-IsGuarded m chunk (dzmmap_noreplace chunk) mapped h (rw e at (h.agrees chunk)) tt
        (λ k n. ground arith)
  mapped_from-IsGuarded m chunk quarantined e h =
      call_then-IsGuarded m chunk (dzmmap chunk) mapped h (rw e at (h.agrees chunk)) tt
        (λ k n. ground arith)
  mapped_from-IsGuarded m chunk protected e h =
      call_then-IsGuarded m chunk (munprotect chunk) mapped h (rw e at (h.agrees chunk)) tt
        (λ k n. ground arith)
  mapped_from-IsGuarded m chunk mapped e h = store-IsGuarded m chunk mapped h tt

  quarantined_from-IsGuarded :
      (m : ByteMapMmapper) (chunk : ℕ) (state : MapState)
      → m.states chunk ≡ state
      → IsGuarded os m
      → IsGuarded os (quarantined_from os m chunk state).1
  unfolding quarantined_from
  quarantined_from-IsGuarded m chunk unmapped e h =
      call_then-IsGuarded m chunk (mmap_noreserve chunk) quarantined h (rw e at (h.agrees chunk))
        (ground arith) (λ k n. ground arith)
  quarantined_from-IsGuarded m chunk quarantined e h =
      store-IsGuarded m chunk quarantined h (rw e at (h.agrees chunk))
  quarantined_from-IsGuarded m chunk mapped e h = h
  quarantined_from-IsGuarded m chunk protected e h = h

  protected_from-IsGuarded :
      (m : ByteMapMmapper) (chunk : ℕ) (state : MapState)
      → IsGuarded os m
      → IsGuarded os (protected_from os m chunk state).1
  unfolding protected_from
  protected_from-IsGuarded m chunk unmapped h = h
  protected_from-IsGuarded m chunk quarantined h = h
  protected_from-IsGuarded m chunk mapped h =
      unwrapped-IsGuarded (call_then os m chunk (mprotect chunk) protected) (
        call_then-IsGuarded m chunk (mprotect chunk) protected h tt (ground arith)
          (λ k n. ground arith))
  protected_from-IsGuarded m chunk protected h = h

  Keeps : Body → Type 0
  Keeps body = (m : ByteMapMmapper) (chunk : ℕ) → IsGuarded os m → IsGuarded os (body m chunk).1

  unless_mapped-Keeps : (transition : Body) → Keeps transition → Keeps (unless_mapped transition)
  unfolding Keeps unless_mapped
  unless_mapped-Keeps transition keeps m chunk h = elim (Bool-cases (is_mapped (m.states chunk))) [
    | inl on ↦ rw on h
    | inr off ↦ rw off (unwrapped-IsGuarded (transition m chunk) (keeps m chunk h))
  ]

  dispatch :
      (r : Result) (m' : ByteMapMmapper) (rest : Result × ByteMapMmapper)
      → IsGuarded os m'
      → IsGuarded os rest.1
      → (let out : Result × ByteMapMmapper = elim r [
        | ok ↦ rest
        | err ↦ (err, m')
        | panics ↦ (panics, m')
      ] in
          IsGuarded os out.1)
  dispatch ok m' rest now later = later
  dispatch err m' rest now later = now
  dispatch panics m' rest now later = now

  for_chunks-Keeps :
      (body : Body)
      → Keeps body
      → (rounds chunk : ℕ) (m : ByteMapMmapper) → IsGuarded os m
      → IsGuarded os (for_chunks body rounds chunk m).1
  unfolding Keeps for_chunks
  for_chunks-Keeps body keeps zero chunk m h = h
  for_chunks-Keeps body keeps (suc rounds) chunk m h =
      elim (Bool-cases (ltb chunk mmap_num_chunks)) [
        | inr out ↦ rw out h
        | inl inside ↦ rw inside (
            dispatch (body m chunk).0 (body m chunk).1 _ (keeps m chunk h)
              (for_chunks-Keeps body keeps rounds (chunk + 1) (body m chunk).1 (keeps m chunk h)))
      ]

-- The methods that change a map, with their arguments.
pub data Method : Type 0 where
  marks : (start bytes : ℕ) → Method
  ensures : (start pages : ℕ) → Method
  quarantines : (start pages : ℕ) → Method
  protects : (start pages : ℕ) → Method

unfoldable pub run_method : Os → ByteMapMmapper → Method → Result × ByteMapMmapper
run_method os m (marks start bytes) = mark_as_mapped m start bytes
run_method os m (ensures start pages) = ensure_mapped os m start pages
run_method os m (quarantines start pages) = quarantine_address_range os m start pages
run_method os m (protects start pages) = protect os m start pages

unfoldable pub run_methods : Os → ByteMapMmapper → List Method → ByteMapMmapper
run_methods os m [] = m
run_methods os m (c ∷ cs) = run_methods os (run_method os m c).1 cs

run_method-IsGuarded :
    (os : Os) (m : ByteMapMmapper) (c : Method)
    → IsGuarded os m
    → IsGuarded os (run_method os m c).1
unfolding run_method mark_as_mapped ensure_mapped quarantine_address_range protect
    transition_to_mapped transition_to_quarantined transition_to_protected Keeps
run_method-IsGuarded os m (marks start bytes) h =
    elim (Bool-cases (address_to_mmap_chunks_up (start + bytes) == 0)) [
      | inl none_left ↦ rw none_left h
      | inr some_left ↦
          rw some_left
            (for_chunks-Keeps os _ (λ m chunk h. store-IsGuarded os m chunk mapped h tt) _ _ m h)
    ]
run_method-IsGuarded os m (ensures start pages) h =
    for_chunks-Keeps os _
      (unless_mapped-Keeps os (transition_to_mapped os)
        (λ m chunk h. mapped_from-IsGuarded os m chunk (m.states chunk) refl h))
      _ _ m h
run_method-IsGuarded os m (quarantines start pages) h =
    for_chunks-Keeps os _
      (unless_mapped-Keeps os (transition_to_quarantined os)
        (λ m chunk h. quarantined_from-IsGuarded os m chunk (m.states chunk) refl h))
      _ _ m h
run_method-IsGuarded os m (protects start pages) h =
    for_chunks-Keeps os _
      (λ m chunk h.
        unwrapped-IsGuarded os (transition_to_protected os m chunk)
          (protected_from-IsGuarded os m chunk (m.states chunk) h))
      _ _ m h

run_methods-IsGuarded :
    (os : Os) (m : ByteMapMmapper) (cs : List Method)
    → IsGuarded os m
    → IsGuarded os (run_methods os m cs)
unfolding run_methods
run_methods-IsGuarded os m [] h = h
run_methods-IsGuarded os m (c ∷ cs) h =
    run_methods-IsGuarded os (run_method os m c).1 cs (run_method-IsGuarded os m c h)

-- Whatever methods run, from a new map, and whichever calls of the system fail: memory is mapped over
-- a reservation only where the calls so far have left a chunk reserved, it is mapped or reserved
-- anew only where they have left it free, and access is given back only where they took it away.
pub run_methods-AreGuarded :
    (os : Os) (cs : List Method) → AreGuarded os (run_methods os new cs).calls
unfolding new
run_methods-AreGuarded os cs =
    (run_methods-IsGuarded os new cs (record { agrees = λ chunk. refl; guarded = tt })).guarded
