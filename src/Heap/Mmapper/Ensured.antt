-- ===== src/Heap/Mmapper/Ensured.antt =====
-- What `ensure_mapped` and `protect` do to the states of chunks.
use mmtk_core.Base.{
  ℕ, zero, suc, ◌+◌, ◌-◌, ◌/◌, ◌%◌, ◌^◌, ◌≤◌, ◌<◌, ◌≡◌, ◌≢◌, refl, sym, ◌∙◌, ◌⊎◌, ltb, inl, inr,
  Bool, true, false, List, Bool-cases, lt→ltb, arith, update_self, update_ne, ℕ_discrete,
}
use mmtk_core.Heap.Mmapper.{
  mmap_chunk_bytes, mmap_num_chunks, pages_to_bytes, address_to_mmap_chunks_down,
  address_to_mmap_chunks_up, MapState, unmapped, quarantined, mapped, protected, OsCall, Os,
  ByteMapMmapper, Result, ok, err, panics, call_then, mapped_from, transition_to_mapped,
  protected_from, transition_to_protected, pages_to_mmap_chunks_up, bytes_to_mmap_chunks_up,
  protect, is_mapped, unwrapped, unless_mapped, Body, for_chunks, ensure_mapped, is_mapped_address,
}

-- A step for one chunk that gives no error, and when it does not panic leaves a wanted state there.
record IsStep (wanted : MapState → Bool) (m : ByteMapMmapper) (chunk : ℕ)
    (r : Result × ByteMapMmapper) : Type 0 where
  no_err : r.0 ≢ err
  there : r.0 ≡ ok → wanted (r.1.states chunk) ≡ true
  elsewhere : (c : ℕ) → c ≢ chunk → r.1.states c ≡ m.states c

-- The same for a loop over the chunks from one to before another.
record IsLoop (wanted : MapState → Bool) (m : ByteMapMmapper) (first last : ℕ)
    (r : Result × ByteMapMmapper) : Type 0 where
  no_err : r.0 ≢ err
  there : r.0 ≡ ok → (c : ℕ) → first ≤ c → c < last → wanted (r.1.states c) ≡ true
  elsewhere : (c : ℕ) → (c < first) ⊎ (last ≤ c) → r.1.states c ≡ m.states c

module _ (wanted : MapState → Bool) (body : Body)
    (steps : (m : ByteMapMmapper) (chunk : ℕ) → IsStep wanted m chunk (body m chunk)) where
  stopped :
      (m : ByteMapMmapper) (first last : ℕ) (r : Result) (m' : ByteMapMmapper)
      → r ≡ panics
      → ((c : ℕ) → (c < first) ⊎ (last ≤ c) → m'.states c ≡ m.states c)
      → IsLoop wanted m first last (r, m')
  stopped m first last r m' e same = record {
    no_err = λ h. cc (e, h);
    there = λ h. cc (e, h);
    elsewhere = same;
  }

  goes_on :
      (m m' : ByteMapMmapper) (chunk last : ℕ) (r : Result × ByteMapMmapper)
      → chunk < last
      → IsStep wanted m chunk (ok, m')
      → IsLoop wanted m' (chunk + 1) last r
      → IsLoop wanted m chunk last r
  goes_on m m' chunk last r lt step rest = record {
    no_err = rest.no_err;
    there = λ h c lo hi. elim (ℕ_discrete c chunk) [
      | yes e ↦ rw (e, rest.elsewhere chunk (inl (omega arith))) (step.there refl)
      | no n ↦ rest.there h c (omega arith) hi
    ];
    elsewhere = λ c out. rest.elsewhere c (omega arith) ∙ step.elsewhere c (omega arith);
  }

  dispatch :
      (m m' : ByteMapMmapper) (r : Result) (chunk last : ℕ) (rest : Result × ByteMapMmapper)
      → chunk < last
      → IsStep wanted m chunk (r, m')
      → IsLoop wanted m' (chunk + 1) last rest
      → IsLoop wanted m chunk last (elim r [ ok ↦ rest | err ↦ (err, m') | panics ↦ (panics, m') ])
  dispatch m m' ok chunk last rest lt step loop = goes_on m m' chunk last rest lt step loop
  dispatch m m' err chunk last rest lt step loop = absurd (step.no_err refl)
  dispatch m m' panics chunk last rest lt step loop =
      stopped m chunk last panics m' refl (λ c out. step.elsewhere c (omega arith))

  for_chunks-IsLoop :
      (rounds chunk last : ℕ) (m : ByteMapMmapper)
      → chunk + rounds ≡ last
      → IsLoop wanted m chunk last (for_chunks body rounds chunk m)
  unfolding for_chunks
  for_chunks-IsLoop zero chunk last m e = record {
    no_err = λ h. cc h;
    there = λ h c lo hi. absurd (omega arith);
    elsewhere = λ c out. refl;
  }
  for_chunks-IsLoop (suc rounds) chunk last m e = elim (Bool-cases (ltb chunk mmap_num_chunks)) [
    | inr out ↦ rw out (stopped m chunk last panics m refl (λ c h. refl))
    | inl in_table ↦ rw in_table (
        dispatch m (body m chunk).1 (body m chunk).0 chunk last _ (omega arith) (steps m chunk)
          (for_chunks-IsLoop rounds (chunk + 1) last (body m chunk).1 (omega arith)))
  ]

unfoldable pub is_protected : MapState → Bool
is_protected protected = true
is_protected mapped = false
is_protected unmapped = false
is_protected quarantined = false

unwrapped_twice : (r : Result × ByteMapMmapper) → unwrapped (unwrapped r) ≡ unwrapped r
unwrapped_twice (ok, m) = refl
unwrapped_twice (err, m) = refl
unwrapped_twice (panics, m) = refl

module _ (os : Os) (m : ByteMapMmapper) (chunk : ℕ) where
  -- A call after which the chunk has the state, or the loop ends.
  called :
      (wanted : MapState → Bool) (c : OsCall) (state : MapState)
      → wanted state ≡ true
      → IsStep wanted m chunk (unwrapped (call_then os m chunk c state))
  unfolding call_then
  called wanted c state h = elim (Bool-cases (os m.calls c)) [
    | inl done ↦ rw done (record {
      no_err = λ e. cc e;
      there = λ e. rw (update_self m.states chunk state) h;
      elsewhere = λ d n. update_ne m.states chunk d state (λ e. n (sym e));
    })
    | inr failed ↦
        rw failed (record { no_err = λ e. cc e; there = λ e. cc e; elsewhere = λ d n. refl })
  ]

  ensured-IsStep :
      (state : MapState)
      → is_mapped state ≡ false
      → m.states chunk ≡ state
      → IsStep is_mapped m chunk (unwrapped (mapped_from os m chunk state))
  unfolding mapped_from is_mapped
  ensured-IsStep unmapped h e = called is_mapped (OsCall.dzmmap_noreplace chunk) mapped refl
  ensured-IsStep quarantined h e = called is_mapped (OsCall.dzmmap chunk) mapped refl
  ensured-IsStep protected h e = called is_mapped (OsCall.munprotect chunk) mapped refl
  ensured-IsStep mapped h e = cc h

  protected-IsStep :
      (state : MapState)
      → m.states chunk ≡ state
      → IsStep is_protected m chunk (unwrapped (protected_from os m chunk state))
  unfolding protected_from is_protected
  protected-IsStep unmapped e = record {
    no_err = λ h. cc h;
    there = λ h. cc h;
    elsewhere = λ d n. refl;
  }
  protected-IsStep quarantined e = record {
    no_err = λ h. cc h;
    there = λ h. cc h;
    elsewhere = λ d n. refl;
  }
  protected-IsStep mapped e =
      rw (unwrapped_twice (call_then os m chunk (OsCall.mprotect chunk) protected))
        (called is_protected (OsCall.mprotect chunk) protected refl)
  protected-IsStep protected e = record {
    no_err = λ h. cc h;
    there = λ h. rw e refl;
    elsewhere = λ d n. refl;
  }

ensure-IsStep :
    (os : Os) (m : ByteMapMmapper) (chunk : ℕ)
    → IsStep is_mapped m chunk (unless_mapped (transition_to_mapped os) m chunk)
unfolding unless_mapped transition_to_mapped
ensure-IsStep os m chunk = elim (Bool-cases (is_mapped (m.states chunk))) [
  | inl on ↦ rw on (record { no_err = λ h. cc h; there = λ h. on; elsewhere = λ d n. refl })
  | inr off ↦ rw off (ensured-IsStep os m chunk (m.states chunk) off refl)
]

protect-IsStep :
    (os : Os) (m : ByteMapMmapper) (chunk : ℕ)
    → IsStep is_protected m chunk (unwrapped (transition_to_protected os m chunk))
unfolding transition_to_protected
protect-IsStep os m chunk = protected-IsStep os m chunk (m.states chunk) refl

-- A loop whose steps do not stop goes to its end.
for_chunks-ok :
    (body : Body)
    → ((m : ByteMapMmapper) (chunk : ℕ) → (body m chunk).0 ≡ ok)
    → (rounds chunk : ℕ) (m : ByteMapMmapper) → chunk + rounds ≤ mmap_num_chunks
    → (for_chunks body rounds chunk m).0 ≡ ok
unfolding for_chunks
for_chunks-ok body steps zero chunk m le = refl
for_chunks-ok body steps (suc rounds) chunk m le =
    let inside : ltb chunk mmap_num_chunks ≡ true = lt→ltb _ _ (omega arith) in
    rw (inside, steps m chunk, for_chunks)
      (for_chunks-ok body steps rounds (chunk + 1) (body m chunk).1 (omega arith))

mapped_from-ok :
    (os : Os) (m : ByteMapMmapper) (chunk : ℕ) (state : MapState)
    → ((calls : List OsCall) (c : OsCall) → os calls c ≡ true)
    → (unwrapped (mapped_from os m chunk state)).0 ≡ ok
unfolding mapped_from call_then
mapped_from-ok os m chunk unmapped works = rw (works m.calls (OsCall.dzmmap_noreplace chunk)) refl
mapped_from-ok os m chunk quarantined works = rw (works m.calls (OsCall.dzmmap chunk)) refl
mapped_from-ok os m chunk protected works = rw (works m.calls (OsCall.munprotect chunk)) refl
mapped_from-ok os m chunk mapped works = refl

ensure-ok :
    (os : Os)
    → ((calls : List OsCall) (c : OsCall) → os calls c ≡ true)
    → (m : ByteMapMmapper) (chunk : ℕ) → (unless_mapped (transition_to_mapped os) m chunk).0 ≡ ok
unfolding unless_mapped transition_to_mapped
ensure-ok os works m chunk = elim (Bool-cases (is_mapped (m.states chunk))) [
  | inl on ↦ rw on refl
  | inr off ↦ rw off (mapped_from-ok os m chunk (m.states chunk) works)
]

-- `ensure_mapped` returns no error. If it returns, then every address of the pages is mapped; the
-- states of chunks that have no part of the pages do not change, whatever happens; and if all calls
-- of the system succeed, and the chunks are in the table, then it returns.
pub ensure_mapped_lem :
    (os : Os) (m : ByteMapMmapper) (start pages : ℕ)
    → let r = ensure_mapped os m start pages in
      (r.0 ≢ err)
      × (r.0 ≡ ok
          → (a : ℕ) → start ≤ a
          → a < start + pages_to_bytes pages
          → is_mapped_address r.1 a ≡ true)
      × ((chunk : ℕ)
          → (chunk < address_to_mmap_chunks_down start)
            ⊎ (address_to_mmap_chunks_up (start + pages_to_bytes pages) ≤ chunk)
          → r.1.states chunk ≡ m.states chunk)
      × (((calls : List OsCall) (c : OsCall) → os calls c ≡ true)
          → address_to_mmap_chunks_up (start + pages_to_bytes pages) ≤ mmap_num_chunks
          → r.0 ≡ ok)
unfolding ensure_mapped is_mapped_address address_to_mmap_chunks_down address_to_mmap_chunks_up
ensure_mapped_lem os m start pages =
    let first = start / 2 ^ 22 in
    let last = (start + pages_to_bytes pages + mmap_chunk_bytes - 1) / 2 ^ 22 in
    let loop =
      for_chunks-IsLoop is_mapped (unless_mapped (transition_to_mapped os)) (ensure-IsStep os)
        (last - first) first last m (omega arith) in
    (
      loop.no_err,
      λ h a lo hi. loop.there h (a / 2 ^ 22) (omega arith) (omega arith),
      loop.elsewhere,
      λ works le. for_chunks-ok _ (ensure-ok os works) (last - first) first m (omega arith),
    )

-- `protect` returns no error. If it returns, then every address of the pages is protected when they
-- start at a chunk; but when they end in a chunk behind those that their number takes up, counted
-- from the chunk of the start, then the state of that last chunk does not change, though pages of
-- it were to be protected.
pub protect_lem :
    (os : Os) (m : ByteMapMmapper) (start pages : ℕ)
    → let r = protect os m start pages in
      (r.0 ≢ err)
      × (r.0 ≡ ok
          → start % mmap_chunk_bytes ≡ 0
          → (a : ℕ) → start ≤ a
          → a < start + pages_to_bytes pages
          → is_protected (r.1.states (address_to_mmap_chunks_down a)) ≡ true)
      × (address_to_mmap_chunks_down start + pages_to_mmap_chunks_up pages
            < address_to_mmap_chunks_up (start + pages_to_bytes pages)
          → let last = address_to_mmap_chunks_down (start + pages_to_bytes pages - 1) in
            r.1.states last ≡ m.states last)
unfolding protect address_to_mmap_chunks_down address_to_mmap_chunks_up pages_to_mmap_chunks_up
    bytes_to_mmap_chunks_up
protect_lem os m start pages =
    let first = start / 2 ^ 22 in
    let chunks = pages_to_mmap_chunks_up pages in
    let loop =
      for_chunks-IsLoop is_protected _ (protect-IsStep os) chunks first (first + chunks) m refl in
    (
      loop.no_err,
      λ h aligned a lo hi. loop.there h (a / 2 ^ 22) (omega arith) (omega arith),
      λ over. loop.elsewhere _ (inr (omega arith)),
    )
