-- ===== src/Sim.antt =====
-- lab-07/sim.c: a simulator of page replacement with two levels of memory.
-- `processes`, `primary`, `secondary` and the two counters are the globals of the program. An
-- access outside an array, a read of the uninitialised `rem_memory` and the overflow of a counter
-- are undefined in C: they are `fault` here.
pub mod Victim
pub mod Inv
pub mod Request
pub mod Modify
pub mod Safety
pub mod Unwritten
pub mod Main
use laboratorio_valen_el_noo.Base.{
  ℕ, zero, suc, ◌+◌, ◌-◌, ◌^◌, Bool, true, false, ◌&&◌, not, Option, none, some, List, [], ◌∷◌, ltb,
  ◌==◌, if◌then◌else◌, length, get_elem?, modify, set, find_index, ℤ, pos, negsuc, minus_one,
  int_eq,
}

-- MAX_PROCESS, TAM_PROCESS, TAM_PRIMARY, TAM_SECONDARY and NUM_MAX; `int_max` is C's INT_MAX.
abbrev pub max_process : ℕ
max_process = 100

abbrev pub tam_process : ℕ
tam_process = 16

abbrev pub tam_primary : ℕ
tam_primary = 8

abbrev pub tam_secondary : ℕ
tam_secondary = 16

abbrev pub num_max : ℕ
num_max = 1000

abbrev pub int_max : ℕ
int_max = 2 ^ 31 - 1

-- `process_t`
pub record Process : Type 0 where
  pub pid : ℤ
  pub page : List ℤ
  pub created : Bool

-- `memory_t`: a page frame, free while `process` is -1.
pub record Frame : Type 0 where
  pub process : ℤ
  pub page : ℤ
  pub fifo : ℕ
  pub lru : ℕ

pub record Memory : Type 0 where
  pub processes : List Process
  pub primary : List Frame
  pub secondary : List Frame
  pub cont_fifo : ℕ
  pub cont_lru : ℕ

-- The replacement algorithm that the option `-f` or `-l` chooses.
pub data Policy : Type 0 where
  fifo lru : Policy

-- What a call does: return, `exit(0)` after printing the memory, or undefined behaviour.
pub data Outcome (A : Type 0) : Type 0 where
  next : A → Outcome A
  exited : Memory → Outcome A
  fault : Outcome A

infixl 5 ◌>>=◌
abbrev pub ◌>>=◌ : {A B : Type 0} → Outcome A → (A → Outcome B) → Outcome B
next a >>= f = f a
exited m >>= f = exited m
fault >>= f = fault

-- `process == pid && page == page`
abbrev pub holds : ℤ → ℤ → Frame → Bool
holds p q f = int_eq f.process p && int_eq f.page q

abbrev pub is_free : Frame → Bool
is_free f = int_eq f.process minus_one

-- The field or the counter that a policy looks at.
abbrev pub choose : Policy → ℕ → ℕ → ℕ
choose fifo a b = a
choose lru a b = b

abbrev pub key : Policy → Frame → ℕ
key pol f = choose pol f.fifo f.lru

abbrev pub put_key : Policy → ℕ → Frame → Frame
put_key pol n f = record f { fifo = choose pol n f.fifo; lru = choose pol f.lru n }

abbrev pub counter : Policy → Memory → ℕ
counter pol m = choose pol m.cont_fifo m.cont_lru

abbrev pub put_counter : Policy → ℕ → Memory → Memory
put_counter pol n m = record m {
  cont_fifo = choose pol n m.cont_fifo;
  cont_lru = choose pol m.cont_lru n;
}

-- `n++` on an `int`
pub count_up : ℕ → Outcome ℕ
count_up n = if ltb n int_max then next (n + 1) else fault

-- `processes[pid].page[page - 1] = i`
pub place_page : ℤ → ℤ → ℕ → Memory → Outcome Memory
place_page (pos p) (pos (suc q)) i m =
    if ltb p (length m.processes) && ltb q tam_process
    then next (record m {
      processes = modify m.processes p (λ r. record r { page = set r.page q (pos i) });
    })
    else fault
place_page (pos p) (pos zero) i m = fault
place_page (pos p) (negsuc q) i m = fault
place_page (negsuc p) q i m = fault

-- The scan for the frame with the smallest key: `cont`, and `rem_memory` once it is written.
pub scan_min : Policy → ℕ → Option Frame → List Frame → ℕ × Option Frame
scan_min pol cont rem [] = (cont, rem)
scan_min pol cont rem (f ∷ fs) =
    scan_min pol (if ltb (key pol f) cont then key pol f else cont)
      (if ltb (key pol f) cont then some f else rem) fs

-- The first loop: a page that is already in primary memory is stamped.
pub touch : ℤ → ℤ → Memory → Outcome (Bool × Memory)
touch pid page m = elim (find_index (holds pid page) m.primary) [
  | none ↦ next (false, m)
  | some i ↦ count_up m.cont_lru >>= λ n. next (
    true,
    record m { primary = modify m.primary i (λ f. record f { lru = m.cont_lru }); cont_lru = n },
  )
]

-- A free frame of primary memory takes the page.
pub fill_frame : ℤ → ℤ → ℕ → Memory → Outcome Memory
fill_frame pid page i m = do
  let m1 = record m {
    primary =
        modify m.primary i
          (λ f. record { process = pid; page = page; fifo = m.cont_fifo; lru = m.cont_lru });
  }
  m2 ← place_page pid page i m1
  a ← count_up m.cont_fifo
  b ← count_up m.cont_lru
  next (record m2 { cont_fifo = a; cont_lru = b })

-- The frame of primary memory whose key is `cont` takes a page; none, and nothing is written.
pub put_primary : Policy → ℕ → ℤ → ℤ → Memory → Outcome Memory
put_primary pol cont pid page m = elim (find_index (λ f. key pol f == cont) m.primary) [
  | none ↦ next m
  | some i ↦ count_up (counter pol m) >>= λ n. place_page pid page i (
      put_counter pol n (record m {
        primary =
            modify m.primary i
              (λ f. put_key pol (counter pol m) (record f { process = pid; page = page }));
      }))
]

-- Frame `j` of secondary memory takes the page in `rem_memory`.
pub put_secondary : Policy → Option Frame → ℕ → Memory → Outcome Memory
put_secondary pol none j m = fault
put_secondary pol (some r) j m = place_page r.process r.page j (record m {
  secondary =
      modify m.secondary j
        (λ f. put_key pol (key pol r) (record f { process = r.process; page = r.page }));
})

-- The loop that finds a free frame of secondary memory for `rem_memory`.
pub store_victim : Policy → Option Frame → Memory → Outcome Memory
store_victim pol rem m = elim (find_index is_free m.secondary) [
  | none ↦ next m
  | some j ↦ put_secondary pol rem j m
]

-- The victim leaves its frame to the page, and moves to a free frame of secondary memory.
pub evict : Policy → ℤ → ℤ → Memory → Outcome Memory
evict pol pid page m =
    let (cont, rem) = scan_min pol num_max none m.primary in
    put_primary pol cont pid page m >>= store_victim pol rem

-- A page in neither memory comes into primary memory.
pub bring : Policy → ℤ → ℤ → Memory → Outcome Memory
bring pol pid page m = elim (find_index is_free m.primary) [
  | some i ↦ fill_frame pid page i m
  | none ↦ evict pol pid page m
]

-- A page in secondary memory changes places with the victim.
pub exchange : Policy → ℤ → ℤ → Memory → Outcome Memory
exchange pol pid page m = do
  let (cont, rem) = scan_min pol num_max none m.primary
  elim (find_index (holds pid page) m.secondary) [
    | none ↦ next m
    | some j ↦ put_secondary pol rem j m >>= put_primary pol cont pid page
  ]

-- `secondary[TAM_SECONDARY - 1].process != -1`
pub is_full : Memory → Bool
is_full m = elim (get_elem? m.secondary (tam_secondary - 1)) [
  | none ↦ false
  | some f ↦ not (is_free f)
]

-- The two middle parts of `modify_process`, by the flags `pass` and `between`.
pub resolve : Policy → ℤ → ℤ → Bool → Option ℕ → Memory → Outcome Memory
resolve pol pid page pass (some j) m = exchange pol pid page m
resolve pol pid page true none m = next m
resolve pol pid page false none m = bring pol pid page m

pub modify_process : Policy → ℤ → ℤ → Memory → Outcome Memory
modify_process pol pid page m = do
  t ← touch pid page m
  m1 ← resolve pol pid page t.0 (find_index (holds pid page) m.secondary) t.1
  if is_full m1 then exited m1 else next m1
