-- ===== src/Sim/Main/Tests.antt =====
-- Runs of the simulator, and its theorems at concrete memories.
use laboratorio_valen_el_noo.Base.{
  ℕ, ◌+◌, ◌≤◌, ◌≡◌, refl, inr, true, Option, none, some, List, [], ◌∷◌, arith, ℤ, pos, negsuc,
  replicate,
}
use laboratorio_valen_el_noo.Sim.{
  Memory, Frame, Policy, Outcome, next, exited, fault, is_full, modify_process, touch, resolve,
  bring, evict, exchange, fill_frame, store_victim, put_primary, put_secondary, place_page,
  count_up, scan_min,
}
use laboratorio_valen_el_noo.Sim.Inv.{in_range, resident, IsValid}
use laboratorio_valen_el_noo.Sim.Request.{Brought}
use laboratorio_valen_el_noo.Sim.Modify.{Ensures}
use laboratorio_valen_el_noo.Sim.Safety.{modify_process-Brought}
use laboratorio_valen_el_noo.Sim.Unwritten.{modify_process_unwritten}
use laboratorio_valen_el_noo.Sim.Main.{
  initial, free_frame, Listing, run, feed, request, create_process, write_all, shown_processes,
  shown_frame, shown_page,
}

initial-IsValid : IsValid initial
initial-IsValid = record {
  tables = refl;
  frames = refl;
  slots = refl;
  primary_good = refl;
  secondary_good = refl;
  primary_first = inr refl;
  single = single;
}
  where
    single : (p q : ℤ) → in_range p q ≡ true → resident p q initial ≤ 1
    single (pos p) q h = omega arith
    single (negsuc p) q h = cc

modify_process-Brought_example :
    Ensures (Brought (pos 3) (pos 2) initial) (modify_process Policy.lru (pos 3) (pos 2) initial)
unfolding is_full
modify_process-Brought_example =
    modify_process-Brought Policy.lru (pos 3) (pos 2) initial initial-IsValid refl refl
      (0, free_frame, refl, omega arith) (omega arith) (omega arith)

-- Ten pages of process 1 in primary memory, each stamped 1000 or later.
abbrev late : ℕ → Frame
late q = record { process = pos 1; page = pos q; fifo = 1000 + q; lru = 1000 + q }

abbrev worn : Memory
worn = record initial {
  primary = late 1 ∷ late 2 ∷ late 3 ∷ late 4 ∷ late 5 ∷ late 6 ∷ late 7 ∷ late 8 ∷ [];
  cont_fifo = 1009;
  cont_lru = 1009;
}

modify_process_unwritten_example : modify_process Policy.fifo (pos 2) (pos 5) worn ≡ fault
unfolding is_full
modify_process_unwritten_example =
    modify_process_unwritten Policy.fifo (pos 2) (pos 5) worn refl refl refl (omega arith) refl refl

abbrev shown : Outcome Memory → Option Listing
shown (next m) = some (write_all m)
shown (exited m) = some (write_all m)
shown fault = none

-- Pages 1 to 9 of process 1: the ninth moves page 1 to secondary memory.
nine : List ℤ
nine =
    pos 1
    ∷ pos 1
    ∷ pos 1
    ∷ pos 2
    ∷ pos 1
    ∷ pos 3
    ∷ pos 1
    ∷ pos 4
    ∷ pos 1
    ∷ pos 5
    ∷ pos 1
    ∷ pos 6
    ∷ pos 1
    ∷ pos 7
    ∷ pos 1
    ∷ pos 8
    ∷ pos 1
    ∷ pos 9
    ∷ []

abbrev swapped_of : Outcome Memory → List (Option (ℤ × ℤ))
swapped_of (next m) = (write_all m).swapped
swapped_of _ = []

swapped-nine :
    swapped_of (run Policy.fifo none initial nine) ≡ some (pos 1, pos 1) ∷ replicate 15 none
unfolding run feed request create_process modify_process touch resolve bring evict exchange
    fill_frame store_victim put_primary put_secondary place_page count_up scan_min is_full nine
    write_all shown_processes shown_frame shown_page
swapped-nine = refl
