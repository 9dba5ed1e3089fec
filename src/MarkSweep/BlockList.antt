-- ===== src/MarkSweep/BlockList.antt =====
-- `BlockList` of src/policy/marksweepspace/native_ms/block_list.rs: a doubly linked list whose links
-- stand in the metadata of the blocks. A block is its number; `Links` is that metadata, for all
-- blocks. A list is known to its blocks by its address, `self`.
pub mod Segment
pub mod Ends
pub mod Apart
pub mod Middle
pub mod Append
pub mod Walk
use mmtk_core.Base.{
  ℕ, zero, suc, Bool, true, false, Option, none, some, List, [], ◌∷◌, update, if◌then◌else◌,
}

pub record Links : Type 0 where
  pub next : ℕ → Option ℕ
  pub prev : ℕ → Option ℕ
  pub block_list : ℕ → Option ℕ

pub record BlockList : Type 0 where
  pub first : Option ℕ
  pub last : Option ℕ
  pub size : ℕ
  pub lock : Bool

-- `store_next_block` and `clear_next_block`, and the same for `prev` and for the list's address.
abbrev pub set_next : ℕ → Option ℕ → Links → Links
set_next b o h = record h { next = update h.next b o }

abbrev pub set_prev : ℕ → Option ℕ → Links → Links
set_prev b o h = record h { prev = update h.prev b o }

abbrev pub store_block_list : ℕ → ℕ → Links → Links
store_block_list self b h = record h { block_list = update h.block_list b (some self) }

unfoldable pub new : ℕ → BlockList
new size = record { first = none; last = none; size = size; lock = false }

abbrev pub is_none : Option ℕ → Bool
is_none none = true
is_none (some b) = false

unfoldable pub is_empty : BlockList → Bool
is_empty l = is_none l.first

-- The four cases of `remove`, by the neighbours of the block.
unfoldable pub remove_between : ℕ → Option ℕ → Option ℕ → Links → BlockList → Links × BlockList
remove_between self none none h l = (h, record l { first = none; last = none })
remove_between self none (some next) h l =
    (store_block_list self next (set_prev next none h), record l { first = some next })
remove_between self (some prev) none h l =
    (store_block_list self prev (set_next prev none h), record l { last = some prev })
remove_between self (some prev) (some next) h l =
    (set_prev next (some prev) (set_next prev (some next) h), l)

unfoldable pub remove : ℕ → ℕ → Links → BlockList → Links × BlockList
unfolding remove_between
remove self block h l = remove_between self (h.prev block) (h.next block) h l

-- `pop` after the head is found, by the block after it.
unfoldable pub pop_head : ℕ → ℕ → Option ℕ → Links → BlockList → Links × BlockList
pop_head self head (some next) h l = (
  set_prev head none (set_next head none (store_block_list self next (set_prev next none h))),
  record l { first = some next },
)
pop_head self head none h l =
    (set_prev head none (set_next head none h), record l { first = none; last = none })

unfoldable pub pop_first : ℕ → Option ℕ → Links → BlockList → Option ℕ × Links × BlockList
unfolding pop_head
pop_first self none h l = (none, h, l)
pop_first self (some head) h l =
    let (h', l') = pop_head self head (h.next head) h l in (some head, h', l')

unfoldable pub pop : ℕ → Links → BlockList → Option ℕ × Links × BlockList
unfolding pop_first
pop self h l = pop_first self l.first h l

unfoldable pub push_before : ℕ → ℕ → Option ℕ → Links → BlockList → Links × BlockList
push_before self block none h l = (
  store_block_list self block (set_prev block none (set_next block none h)),
  record l { first = some block; last = some block },
)
push_before self block (some self_head) h l = (
  store_block_list self block
      (set_prev block none (set_prev self_head (some block) (set_next block (some self_head) h))),
  record l { first = some block },
)

unfoldable pub push : ℕ → ℕ → Links → BlockList → Links × BlockList
unfolding push_before
push self block h l = push_before self block l.first h l

unfoldable pub reset : BlockList → BlockList
reset l = record l { first = none; last = none }

-- The loop at the end of `append`, along the links from a cursor. `fuel` bounds the rounds.
unfoldable pub store_along : ℕ → ℕ → Option ℕ → Links → Links
store_along self zero cursor h = h
store_along self (suc fuel) none h = h
store_along self (suc fuel) (some block) h =
    store_along self fuel (h.next block) (store_block_list self block h)

-- The links after the tail of one list has been joined to the head of the other.
unfoldable pub join : Option ℕ → Option ℕ → Links → Links
join none head h = h
join (some tail) none h = h
join (some tail) (some head) h = set_prev head (some tail) (set_next tail (some head) h)

-- `append`: the links, this list and the other one. The loop runs over the other list's blocks.
unfoldable pub append : ℕ → ℕ → Links → BlockList → BlockList → Links × BlockList × BlockList
unfolding is_empty reset store_along join
append self fuel h l other =
    let joined : Links × BlockList =
      if is_empty l
      then (h, record l { first = other.first; last = other.last })
      else (join l.last other.first h, record l { last = other.last }) in
    if is_empty other
    then (h, l, other)
    else (store_along self fuel other.first joined.0, joined.1, reset other)

-- `BlockListIterator` from a cursor to its end: the blocks `next` gives. `fuel` bounds the rounds.
unfoldable pub iter : ℕ → Option ℕ → Links → List ℕ
iter zero cursor h = []
iter (suc fuel) none h = []
iter (suc fuel) (some block) h = block ∷ iter fuel (h.next block) h
