-- ===== src/Heap/Mmapper.antt =====
-- The map of mapped chunks, `ByteMapMmapper` of src/util/heap/layout/byte_map_mmapper.rs, and the
-- transitions of `MapState`, src/util/heap/layout/mmapper.rs. The calls of the operating system are
-- recorded, and whether one succeeds is a parameter, which may depend on the calls before it. Each
-- method runs alone, as the lock asks for; the sums of addresses and sizes do not wrap.
pub mod Ensured
pub mod System
pub mod Guarded
use mmtk_core.Base.{
  ℕ, zero, suc, ◌+◌, ◌-◌, ◌*◌, ◌/◌, ◌^◌, ◌==◌, ltb, if◌then◌else◌, Bool, true, false, List, [], ◌∷◌,
  update,
}

abbrev pub log_mmap_chunk_bytes : ℕ
log_mmap_chunk_bytes = 22

abbrev pub mmap_chunk_bytes : ℕ
mmap_chunk_bytes = 2 ^ log_mmap_chunk_bytes

abbrev pub log_bytes_in_page : ℕ
log_bytes_in_page = 12

unfoldable pub mmap_num_chunks : ℕ
mmap_num_chunks = 2 ^ (40 - log_mmap_chunk_bytes)

unfoldable pub pages_to_bytes : ℕ → ℕ
pages_to_bytes pages = pages * 2 ^ log_bytes_in_page

unfoldable pub bytes_to_mmap_chunks_up : ℕ → ℕ
bytes_to_mmap_chunks_up bytes = (bytes + mmap_chunk_bytes - 1) / 2 ^ log_mmap_chunk_bytes

unfoldable pub pages_to_mmap_chunks_up : ℕ → ℕ
unfolding bytes_to_mmap_chunks_up pages_to_bytes
pages_to_mmap_chunks_up pages = bytes_to_mmap_chunks_up (pages_to_bytes pages)

unfoldable pub address_to_mmap_chunks_down : ℕ → ℕ
address_to_mmap_chunks_down addr = addr / 2 ^ log_mmap_chunk_bytes

unfoldable pub address_to_mmap_chunks_up : ℕ → ℕ
address_to_mmap_chunks_up addr = (addr + mmap_chunk_bytes - 1) / 2 ^ log_mmap_chunk_bytes

pub data MapState : Type 0 where
  unmapped : MapState
  quarantined : MapState
  mapped : MapState
  protected : MapState

-- The calls of the operating system, each for one chunk.
pub data OsCall : Type 0 where
  dzmmap_noreplace : (chunk : ℕ) → OsCall
  dzmmap : (chunk : ℕ) → OsCall
  munprotect : (chunk : ℕ) → OsCall
  mmap_noreserve : (chunk : ℕ) → OsCall
  mprotect : (chunk : ℕ) → OsCall

-- Whether a call succeeds after others.
abbrev pub Os : Type 0
Os = List OsCall → OsCall → Bool

-- The last call stands first.
pub record ByteMapMmapper : Type 0 where
  pub states : ℕ → MapState
  pub calls : List OsCall

unfoldable pub new : ByteMapMmapper
new = record { states = λ chunk. unmapped; calls = [] }

-- `panics` also stands for `unwrap` of an error.
pub data Result : Type 0 where
  ok : Result
  err : Result
  panics : Result

-- A call, and the state to store if it succeeds.
unfoldable pub call_then : Os → ByteMapMmapper → ℕ → OsCall → MapState → Result × ByteMapMmapper
call_then os m chunk c state =
    let m' = record m { calls = c ∷ m.calls } in
    if os m.calls c then (ok, record m' { states = update m.states chunk state }) else (err, m')

unfoldable pub mapped_from : Os → ByteMapMmapper → ℕ → MapState → Result × ByteMapMmapper
unfolding call_then
mapped_from os m chunk unmapped = call_then os m chunk (dzmmap_noreplace chunk) mapped
mapped_from os m chunk protected = call_then os m chunk (munprotect chunk) mapped
mapped_from os m chunk quarantined = call_then os m chunk (dzmmap chunk) mapped
mapped_from os m chunk mapped = (ok, record m { states = update m.states chunk mapped })

unfoldable pub transition_to_mapped : Os → ByteMapMmapper → ℕ → Result × ByteMapMmapper
unfolding mapped_from
transition_to_mapped os m chunk = mapped_from os m chunk (m.states chunk)

unfoldable pub quarantined_from : Os → ByteMapMmapper → ℕ → MapState → Result × ByteMapMmapper
unfolding call_then
quarantined_from os m chunk unmapped = call_then os m chunk (mmap_noreserve chunk) quarantined
quarantined_from os m chunk quarantined =
    (ok, record m { states = update m.states chunk quarantined })
quarantined_from os m chunk mapped = (ok, m)
quarantined_from os m chunk protected = (panics, m)

unfoldable pub transition_to_quarantined : Os → ByteMapMmapper → ℕ → Result × ByteMapMmapper
unfolding quarantined_from
transition_to_quarantined os m chunk = quarantined_from os m chunk (m.states chunk)

abbrev pub unwrapped : Result × ByteMapMmapper → Result × ByteMapMmapper
unwrapped (ok, m) = (ok, m)
unwrapped (err, m) = (panics, m)
unwrapped (panics, m) = (panics, m)

unfoldable pub protected_from : Os → ByteMapMmapper → ℕ → MapState → Result × ByteMapMmapper
unfolding call_then
protected_from os m chunk unmapped = (panics, m)
protected_from os m chunk quarantined = (panics, m)
protected_from os m chunk mapped = unwrapped (call_then os m chunk (mprotect chunk) protected)
protected_from os m chunk protected = (ok, m)

unfoldable pub transition_to_protected : Os → ByteMapMmapper → ℕ → Result × ByteMapMmapper
unfolding protected_from
transition_to_protected os m chunk = protected_from os m chunk (m.states chunk)

unfoldable pub is_mapped : MapState → Bool
is_mapped mapped = true
is_mapped unmapped = false
is_mapped quarantined = false
is_mapped protected = false

-- What a loop does with one chunk: an index outside the table is a panic, and of a mapped chunk
-- nothing is asked.
abbrev pub Body : Type 0
Body = ByteMapMmapper → ℕ → Result × ByteMapMmapper

unfoldable pub unless_mapped : Body → Body
unless_mapped transition m chunk =
    if is_mapped (m.states chunk) then (ok, m) else unwrapped (transition m chunk)

-- A loop over chunks, which a panic ends.
unfoldable pub for_chunks : Body → (rounds chunk : ℕ) → ByteMapMmapper → Result × ByteMapMmapper
for_chunks body zero chunk m = (ok, m)
for_chunks body (suc rounds) chunk m =
    let (r, m') = body m chunk in
    let rest = for_chunks body rounds (chunk + 1) m' in
    if ltb chunk mmap_num_chunks
    then elim r [ ok ↦ rest | err ↦ (err, m') | panics ↦ (panics, m') ]
    else (panics, m)

-- The subtraction of one is a panic for no bytes at address zero.
unfoldable pub mark_as_mapped : ByteMapMmapper → (start bytes : ℕ) → Result × ByteMapMmapper
mark_as_mapped m start bytes =
    let start_chunk = address_to_mmap_chunks_down start in
    let end_chunk = address_to_mmap_chunks_up (start + bytes) - 1 in
    if address_to_mmap_chunks_up (start + bytes) == 0
    then (panics, m)
    else for_chunks (λ m chunk. (ok, record m { states = update m.states chunk mapped }))
        (end_chunk + 1 - start_chunk) start_chunk m

unfoldable pub ensure_mapped : Os → ByteMapMmapper → (start pages : ℕ) → Result × ByteMapMmapper
ensure_mapped os m start pages =
    let start_chunk = address_to_mmap_chunks_down start in
    let end_chunk = address_to_mmap_chunks_up (start + pages_to_bytes pages) in
    for_chunks (unless_mapped (transition_to_mapped os)) (end_chunk - start_chunk) start_chunk m

unfoldable pub quarantine_address_range :
    Os → ByteMapMmapper → (start pages : ℕ) → Result × ByteMapMmapper
quarantine_address_range os m start pages =
    let start_chunk = address_to_mmap_chunks_down start in
    let end_chunk = address_to_mmap_chunks_up (start + pages_to_bytes pages) in
    for_chunks (unless_mapped (transition_to_quarantined os)) (end_chunk - start_chunk) start_chunk
      m

unfoldable pub is_mapped_address : ByteMapMmapper → ℕ → Bool
is_mapped_address m addr = is_mapped (m.states (address_to_mmap_chunks_down addr))

unfoldable pub protect : Os → ByteMapMmapper → (start pages : ℕ) → Result × ByteMapMmapper
protect os m start pages =
    let start_chunk = address_to_mmap_chunks_down start in
    for_chunks (λ m chunk. unwrapped (transition_to_protected os m chunk))
      (pages_to_mmap_chunks_up pages) start_chunk m
