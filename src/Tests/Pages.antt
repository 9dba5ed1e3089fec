-- ===== src/Tests/Pages.antt =====
-- Page accounting, src/util/heap/accounting.rs, and requests for a collection,
-- src/plan/gc_requester.rs.
use mmtk_core.Base.{◌≡◌, refl, true, false, [], ◌∷◌, update, arith}
use mmtk_core.Heap.Accounting.{succeeds, fails, at_once, frees, handle_all, handle_all-balanced}
use mmtk_core.Heap.Requester.{
  outside, loaded, swapped, System, load, swap, Reach, start, later, IsOncePerFlag, Reach-once,
}

handle_all-balanced_example :
    handle_all
      (succeeds 4 2 true ∷ fails 9 ∷ at_once 3 ∷ frees 5 ∷ [])
      (record { reserved = 10; committed = 10 })
    ≡ record { reserved = 14; committed = 14 }
handle_all-balanced_example =
    handle_all-balanced (succeeds 4 2 true ∷ fails 9 ∷ at_once 3 ∷ frees 5 ∷ []) 10 (omega arith)
      (omega arith, (omega arith, (omega arith, (omega arith, tt))))

abbrev at_start : System
at_start = record {
  requester = record { request_flag = false; scheduled = 0; cleared = 0 };
  pc = λ _. outside;
}

abbrev first_loaded : System
first_loaded = record at_start { pc = update at_start.pc 0 (loaded false) }

abbrev both_loaded : System
both_loaded = record first_loaded { pc = update first_loaded.pc 1 (loaded false) }

abbrev first_swapped : System
first_swapped = record {
  requester = record { request_flag = true; scheduled = 0; cleared = 0 };
  pc = update both_loaded.pc 0 (swapped false);
}

abbrev both_swapped : System
both_swapped = record {
  requester = record { request_flag = true; scheduled = 0; cleared = 0 };
  pc = update first_swapped.pc 1 (swapped true);
}

-- Two mutators have raced; the first one sends the request.
reached : Reach 2 both_swapped
reached =
    later
      (later (later (later start (load 0 (omega arith) refl)) (load 1 (omega arith) refl))
        (swap 0 (omega arith) refl))
      (swap 1 (omega arith) refl)

Reach-once_example : IsOncePerFlag 2 both_swapped
Reach-once_example = Reach-once reached
