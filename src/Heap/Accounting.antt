-- ===== src/Heap/Accounting.antt =====
-- `PageAccounting` of src/util/heap/accounting.rs: reserved and committed pages, as 64-bit words.
use mmtk_core.Base.{
  ℕ, ◌+◌, ◌-◌, ◌%◌, ◌^◌, ◌≤◌, ◌<◌, ◌≡◌, refl, Bool, List, [], ◌∷◌, if◌then◌else◌, arith,
}

abbrev pub usize_mod : ℕ
usize_mod = 2 ^ 64

pub record PageAccounting : Type 0 where
  pub reserved : ℕ
  pub committed : ℕ

-- `fetch_add` and `fetch_sub` wrap.
abbrev fetch_add : ℕ → ℕ → ℕ
fetch_add a b = (a + b) % usize_mod

abbrev fetch_sub : ℕ → ℕ → ℕ
fetch_sub a b = (a + usize_mod - b) % usize_mod

unfoldable pub new : PageAccounting
new = record { reserved = 0; committed = 0 }

unfoldable pub reserve_and_commit : ℕ → PageAccounting → PageAccounting
reserve_and_commit pages a = record a {
  reserved = fetch_add a.reserved pages;
  committed = fetch_add a.committed pages;
}

unfoldable pub reserve : ℕ → PageAccounting → PageAccounting
reserve pages a = record a { reserved = fetch_add a.reserved pages }

unfoldable pub clear_reserved : ℕ → PageAccounting → PageAccounting
clear_reserved pages a = record a { reserved = fetch_sub a.reserved pages }

unfoldable pub commit : ℕ → PageAccounting → PageAccounting
commit pages a = record a { committed = fetch_add a.committed pages }

unfoldable pub release : ℕ → PageAccounting → PageAccounting
release pages a = record a {
  reserved = fetch_sub a.reserved pages;
  committed = fetch_sub a.committed pages;
}

unfoldable pub reset : PageAccounting → PageAccounting
reset a = record a { reserved = 0; committed = 0 }

-- `reserve_pages`, `clear_request` and `commit_pages` of `PageResource`, src/util/heap/pageresource.rs.
unfoldable pub reserve_pages : ℕ → PageAccounting → ℕ × PageAccounting
unfolding reserve
reserve_pages pages a = (pages, reserve pages a)

unfoldable pub clear_request : ℕ → PageAccounting → PageAccounting
unfolding clear_reserved
clear_request reserved_pages a = clear_reserved reserved_pages a

-- What was needed beyond the reservation is reserved first. The second part of the result is what
-- `add_to_cumulative_committed_pages` adds to the count of the VM map.
unfoldable pub commit_pages : ℕ → ℕ → Bool → PageAccounting → PageAccounting × ℕ
unfolding reserve commit
commit_pages reserved_pages actual_pages is_mutator a =
    let delta = (actual_pages + usize_mod - reserved_pages) % usize_mod in
    (commit actual_pages (reserve delta a), if is_mutator then actual_pages else 0)

-- How a page resource uses the counters for one request.
pub data Request : Type 0 where
  succeeds : (pages extra : ℕ) (is_mutator : Bool) → Request  -- `reserve_pages`, then `commit_pages` of `pages + extra`
  fails : (pages : ℕ) → Request  -- `reserve_pages`, then `clear_request`
  at_once : (pages : ℕ) → Request  -- `reserve_and_commit`
  frees : (pages : ℕ) → Request  -- `release`

unfoldable pub handle : Request → PageAccounting → PageAccounting
unfolding reserve_pages commit_pages clear_request reserve_and_commit release
handle (succeeds pages extra is_mutator) a =
    let (reserved, a') = reserve_pages pages a in
    (commit_pages reserved (pages + extra) is_mutator a').0
handle (fails pages) a = let (reserved, a') = reserve_pages pages a in clear_request reserved a'
handle (at_once pages) a = reserve_and_commit pages a
handle (frees pages) a = release pages a

unfoldable pub handle_all : List Request → PageAccounting → PageAccounting
handle_all [] a = a
handle_all (r ∷ rs) a = handle_all rs (handle r a)

-- The pages in use after some requests, by plain arithmetic, starting from `used`.
abbrev pub in_use : List Request → ℕ → ℕ
in_use [] used = used
in_use (succeeds pages extra b ∷ rs) used = in_use rs (used + pages + extra)
in_use (fails pages ∷ rs) used = in_use rs used
in_use (at_once pages ∷ rs) used = in_use rs (used + pages)
in_use (frees pages ∷ rs) used = in_use rs (used - pages)

-- No request takes the pages in use, or the pages reserved, out of the range of a word, and no more
-- pages are freed than are in use.
abbrev pub IsFeasible : List Request → ℕ → Type 0
IsFeasible [] used = Unit {0}
IsFeasible (succeeds pages extra b ∷ rs) used =
    (used + pages + extra < usize_mod) × IsFeasible rs (used + pages + extra)
IsFeasible (fails pages ∷ rs) used = (used + pages < usize_mod) × IsFeasible rs used
IsFeasible (at_once pages ∷ rs) used = (used + pages < usize_mod) × IsFeasible rs (used + pages)
IsFeasible (frees pages ∷ rs) used = (pages ≤ used) × IsFeasible rs (used - pages)

abbrev balanced : ℕ → PageAccounting
balanced used = record { reserved = used; committed = used }

handle-balanced :
    (r : Request) (used : ℕ)
    → used < usize_mod
    → IsFeasible (r ∷ []) used
    → handle r (balanced used) ≡ balanced (in_use (r ∷ []) used)
unfolding handle
handle-balanced (succeeds pages extra b) used h f = ground arith
handle-balanced (fails pages) used h f = ground arith
handle-balanced (at_once pages) used h f = ground arith
handle-balanced (frees pages) used h f = ground arith

-- Between requests the reserved pages are the committed pages, and both are the pages in use: for any
-- sequence of requests, failed ones and ones that need more than was reserved among them, as long as
-- the counts stay in the range of a word and no more pages are freed than are in use.
pub handle_all-balanced :
    (rs : List Request) (used : ℕ)
    → used < usize_mod
    → IsFeasible rs used
    → handle_all rs (record { reserved = used; committed = used })
      ≡ record { reserved = in_use rs used; committed = in_use rs used }
unfolding handle_all
handle_all-balanced [] used h f = refl
handle_all-balanced (succeeds pages extra b ∷ rs) used h f =
    rw (handle-balanced (succeeds pages extra b) used h (f.0, tt))
      (handle_all-balanced rs (used + pages + extra) f.0 f.1)
handle_all-balanced (fails pages ∷ rs) used h f =
    rw (handle-balanced (fails pages) used h (f.0, tt)) (handle_all-balanced rs used h f.1)
handle_all-balanced (at_once pages ∷ rs) used h f =
    rw (handle-balanced (at_once pages) used h (f.0, tt))
      (handle_all-balanced rs (used + pages) f.0 f.1)
handle_all-balanced (frees pages ∷ rs) used h f =
    rw (handle-balanced (frees pages) used h (f.0, tt))
      (handle_all-balanced rs (used - pages) (omega arith) f.1)
