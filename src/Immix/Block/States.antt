-- ===== src/Immix/Block/States.antt =====
-- The byte of a block's state.
use mmtk_core.Base.{
  ℕ, ◌<◌, ◌≡◌, refl, ap, ◌⊎◌, inl, inr, ◌==◌, min, none, some, Bool-cases, ==_iff, arith,
}
use mmtk_core.Immix.Block.{
  Block, BlockState, unallocated, unmarked, marked, reusable, from_u8, to_u8, set_state, get_state,
}

-- A byte has room for 251 unavailable lines.
abbrev pub capped : BlockState → BlockState
capped unallocated = unallocated
capped unmarked = unmarked
capped marked = marked
capped (reusable unavailable_lines) = reusable (min unavailable_lines 251)

-- Setting a state panics for a reusable block without unavailable lines, and for no other state;
-- otherwise the state fits a byte, reading it gives the state back, but at most 251 unavailable
-- lines of it, and nothing else of the block changes.
pub get_state-set_state :
    (b : Block) (state : BlockState)
    → ((set_state b state ≡ none) × (state ≡ reusable 0))
      ⊎ ((byte : ℕ) × (set_state b state ≡ some (record b { mark = byte }))
          × (byte < 256)
          × (get_state (record b { mark = byte }) ≡ capped state))
unfolding set_state get_state to_u8 from_u8
get_state-set_state b unallocated = inr (0, refl, omega arith, refl)
get_state-set_state b unmarked = inr (255, refl, omega arith, refl)
get_state-set_state b marked = inr (254, refl, omega arith, refl)
get_state-set_state b (reusable n) = elim (Bool-cases (n == 0)) [
  | inl e ↦ let z : n ≡ 0 = (==_iff n 0).0 e in inl (rw (e, set_state) refl, ap reusable z)
  | inr e ↦ inr (min n 251, rw (e, set_state) refl, omega arith, ground arith)
]
