-- ===== src/Tests/Blocks.antt =====
-- Block lists and size classes, src/policy/marksweepspace/native_ms/block_list.rs.
use mmtk_core.Base.{◌-◌, ◌≤◌, ◌<◌, ◌≡◌, ◌⊎◌, refl, none, some, [], ◌∷◌, arith}
use mmtk_core.MarkSweep.Bins.{mi_bin_from_size, bin_size, mi_bin_from_size-tight, max_bin}
use mmtk_core.MarkSweep.BlockList.{Links, BlockList, push, remove, append, iter, new}
use mmtk_core.MarkSweep.BlockList.Segment.{Holds}
use mmtk_core.MarkSweep.BlockList.Ends.{push-Holds}
use mmtk_core.MarkSweep.BlockList.Middle.{remove-Holds}
use mmtk_core.MarkSweep.BlockList.Append.{append_lem, Appended}
use mmtk_core.MarkSweep.BlockList.Walk.{iter-Holds}

abbrev no_links : Links
no_links = record { next = λ b. none; prev = λ b. none; block_list = λ b. none }

empty-Holds : Holds no_links (new 16) []
unfolding new
empty-Holds = record { first = refl; last = refl; linked = tt; distinct = tt }

abbrev one_pushed : Links × BlockList
one_pushed = push 100 1 no_links (new 16)

abbrev two_pushed : Links × BlockList
two_pushed = push 100 2 one_pushed.0 one_pushed.1

abbrev three_pushed : Links × BlockList
three_pushed = push 100 3 two_pushed.0 two_pushed.1

one-Holds : Holds one_pushed.0 one_pushed.1 (1 ∷ [])
one-Holds = push-Holds 100 1 [] no_links (new 16) empty-Holds tt

two-Holds : Holds two_pushed.0 two_pushed.1 (2 ∷ 1 ∷ [])
two-Holds = push-Holds 100 2 (1 ∷ []) one_pushed.0 one_pushed.1 one-Holds (omega arith, tt)

remove-Holds_example :
    Holds
      (remove 100 1 two_pushed.0 two_pushed.1).0
      (remove 100 1 two_pushed.0 two_pushed.1).1
      (2 ∷ [])
remove-Holds_example = remove-Holds 100 1 (2 ∷ []) [] two_pushed.0 two_pushed.1 two-Holds

-- A second list in the same memory, with block 7.
abbrev other : BlockList
other = record { first = some 7; last = some 7; size = 16; lock = two_pushed.1.lock }

abbrev single : BlockList
single = record { first = some 5; last = some 5; size = 16; lock = two_pushed.1.lock }

append_lem_example : Appended 100 (5 ∷ []) (7 ∷ []) (append 100 1 no_links single other)
append_lem_example =
    append_lem 100 1 (5 ∷ []) (7 ∷ []) no_links single other
      (record { first = refl; last = refl; linked = (refl, refl, tt); distinct = (tt, tt) })
      (record { first = refl; last = refl; linked = (refl, refl, tt); distinct = (tt, tt) })
      ((omega arith, tt), tt) (omega arith)

iter-Holds_example : iter 2 two_pushed.1.first two_pushed.0 ≡ 2 ∷ 1 ∷ []
iter-Holds_example = iter-Holds 2 two_pushed.0 two_pushed.1 (2 ∷ 1 ∷ []) two-Holds (omega arith)

mi_bin_from_size-tight_example :
    (1 ≤ mi_bin_from_size 100)
    × (mi_bin_from_size 100 ≤ max_bin)
    × (100 ≤ bin_size (mi_bin_from_size 100))
    × ((mi_bin_from_size 100 ≡ 1) ⊎ (bin_size (mi_bin_from_size 100 - 1) < 100))
mi_bin_from_size-tight_example = mi_bin_from_size-tight 100 (omega arith)
