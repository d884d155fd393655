-- ===== src/Sim/Main.antt =====
-- `create_process` and the loop of `main` in lab-07/sim.c: the numbers read from the standard input
-- are a list, two to a request.
mod Tests
use laboratorio_valen_el_noo.Base.{
  ℕ, Bool, true, false, Option, none, some, List, [], ◌∷◌, ltb, if◌then◌else◌, length, set,
  find_index, replicate, map, ℤ, pos, negsuc, minus_one, int_eq, ◌==◌, get_or,
}
use laboratorio_valen_el_noo.Sim.{
  Memory, Frame, Process, Policy, Outcome, next, fault, ◌>>=◌, max_process, tam_process,
  tam_primary, tam_secondary, modify_process, is_free,
}

-- `fila.page[i] = -1` for every page of a new process.
pub create_process : ℤ → Memory → Outcome Memory
create_process (negsuc p) m = fault
create_process (pos p) m =
    if ltb p (length m.processes)
    then next (record m {
      processes =
          set m.processes p
            (record { pid = pos p; page = replicate tam_process minus_one; created = true });
    })
    else fault

-- The globals are zero when the program starts; `main` marks the frames as free.
abbrev pub no_process : Process
no_process = record { pid = pos 0; page = replicate tam_process (pos 0); created = false }

abbrev pub free_frame : Frame
free_frame = record { process = minus_one; page = pos 0; fifo = 0; lru = 0 }

abbrev pub initial : Memory
initial = record {
  processes = replicate max_process no_process;
  primary = replicate tam_primary free_frame;
  secondary = replicate tam_secondary free_frame;
  cont_fifo = 0;
  cont_lru = 0;
}

-- `argv` after the name of the program, each as its bytes before the terminator, which C reads at the
-- end. `none` is a message and `exit(EXIT_FAILURE)`.
pub parse_option : List (List ℕ) → Option Policy
parse_option [] = none
parse_option (a ∷ rest) =
    if get_or a 0 0 == b'-'
    then (if get_or a 1 0 == b'f'
        then some Policy.fifo
        else if get_or a 1 0 == b'l'
        then some Policy.lru
        else none)
    else none

-- `num > TAM_PROCESS`
abbrev pub exceeds : ℤ → Bool
exceeds (pos n) = ltb tam_process n
exceeds (negsuc n) = false

-- A pid that no entry of `processes` has is created first.
pub request : Policy → ℤ → ℤ → Memory → Outcome Memory
request pol pid page m = elim (find_index (λ r. int_eq r.pid pid) m.processes) [
  | some i ↦ modify_process pol pid page m
  | none ↦ create_process pid m >>= modify_process pol pid page
]

-- One round of the loop: `number1` waits in `first` while `count` is 1. A page number that is too
-- large drops the request.
pub feed : Policy → Option ℤ → Memory → ℤ → Outcome (Option ℤ × Memory)
feed pol none m num = next (some num, m)
feed pol (some pid) m num =
    if exceeds num then next (none, m) else (request pol pid num m >>= λ m1. next (none, m1))

pub run : Policy → Option ℤ → Memory → List ℤ → Outcome Memory
run pol first m [] = next m
run pol first m (num ∷ nums) = feed pol first m num >>= λ s. run pol s.0 s.1 nums

-- `write_all`: what is printed of the created processes and of the two memories; a free frame or an
-- empty entry is a dash.
pub record Listing : Type 0 where
  pub tables : List (ℤ × List (Option ℤ))
  pub physical : List (Option (ℤ × ℤ))
  pub swapped : List (Option (ℤ × ℤ))

pub shown_page : ℤ → Option ℤ
shown_page p = if int_eq p minus_one then none else some p

pub shown_frame : Frame → Option (ℤ × ℤ)
shown_frame f = if is_free f then none else some (f.process, f.page)

pub shown_processes : List Process → List (ℤ × List (Option ℤ))
shown_processes [] = []
shown_processes (r ∷ rs) =
    let rest = shown_processes rs in
    if r.created then (r.pid, map shown_page r.page) ∷ rest else rest

pub write_all : Memory → Listing
write_all m = record {
  tables = shown_processes m.processes;
  physical = map shown_frame m.primary;
  swapped = map shown_frame m.secondary;
}
