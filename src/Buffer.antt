-- ===== src/Buffer.antt =====
-- lab-05/buf.c: a producer and a consumer with a bounded buffer, two semaphores and a mutex. A
-- thread's position says which call of its loop comes next; one step runs to the call after.
-- The semaphores and the mutex are those of POSIX: `sem_wait` blocks at 0, `pthread_mutex_lock`
-- blocks while the mutex is held.
pub mod Inv
pub mod Steps
pub mod Progress
pub mod Main
mod Tests
use laboratorio_valen_el_noo.Base.{
  ◌≡◌, ℕ, zero, suc, ◌+◌, ◌-◌, ◌%◌, Bool, true, false, Option, none, some, List, [], ◌∷◌, ◌++◌, ltb,
  ◌==◌, if◌then◌else◌, get_or, set, ℤ, pos, negsuc,
}

-- The calls of the loops: the test of the loop with `sem_wait`, `pthread_mutex_lock`, the access to
-- the buffer, `pthread_mutex_unlock`, and `sem_post` with `i++`.
pub data Place : Type 0 where
  waiting locking copying unlocking posting finished : Place

-- `struct buffer`, `struct params` without the delays, the semaphores and the mutex, and each
-- thread's position and counter; `results` is `reader_results[0 .. i)`.
pub record Run : Type 0 where
  pub size : ℕ
  pub items : ℕ
  pub buf : List ℕ
  pub vacio : ℕ
  pub lleno : ℕ
  pub locked : Bool
  pub prod : Place
  pub produced : ℕ
  pub cons : Place
  pub consumed : ℕ
  pub results : List ℕ

-- `none` is a call that blocks, or a thread that has finished.
pub produce_at : Place → Run → Option Run
produce_at waiting r =
    if ltb r.produced r.items
    then (if r.vacio == 0 then none else some (record r { vacio = r.vacio - 1; prod = locking }))
    else some (record r { prod = finished })
produce_at locking r = if r.locked then none else some (record r { locked = true; prod = copying })
produce_at copying r =
    some (record r { buf = set r.buf (r.produced % r.size) r.produced; prod = unlocking })
produce_at unlocking r = some (record r { locked = false; prod = posting })
produce_at posting r =
    some (record r { lleno = r.lleno + 1; produced = r.produced + 1; prod = waiting })
produce_at finished r = none

pub produce : Run → Option Run
produce r = produce_at r.prod r

pub consume_at : Place → Run → Option Run
consume_at waiting r =
    if ltb r.consumed r.items
    then (if r.lleno == 0 then none else some (record r { lleno = r.lleno - 1; cons = locking }))
    else some (record r { cons = finished })
consume_at locking r = if r.locked then none else some (record r { locked = true; cons = copying })
consume_at copying r = some (record r {
  results = r.results ++ (get_or r.buf (r.consumed % r.size) 0 ∷ []);
  cons = unlocking;
})
consume_at unlocking r = some (record r { locked = false; cons = posting })
consume_at posting r =
    some (record r { vacio = r.vacio + 1; consumed = r.consumed + 1; cons = waiting })
consume_at finished r = none

pub consume : Run → Option Run
consume r = consume_at r.cons r

-- `main`: the arguments `size` and `items` as `atoi` reads them, and the memory that `malloc`
-- returns for the buffer; `none` is `exit(EXIT_FAILURE)`.
pub start : ℤ → ℤ → List ℕ → Option Run
start (pos (suc s)) (pos (suc n)) mem = some (record {
  size = suc s;
  items = suc n;
  buf = mem;
  vacio = suc s;
  lleno = 0;
  locked = false;
  prod = waiting;
  produced = 0;
  cons = waiting;
  consumed = 0;
  results = [];
})
start (pos (suc s)) (pos zero) mem = none
start (pos (suc s)) (negsuc n) mem = none
start (pos zero) n mem = none
start (negsuc s) n mem = none

-- A thread that can go on makes one step, while the mutex and the semaphores are there; `Buffer.Main`
-- has the program.
pub data Reach (r : Run) : Run → Type 0 where
  here : Reach r r
  produced_on : {s t : Run} → Reach r s → produce s ≡ some t → Reach r t
  consumed_on : {s t : Run} → Reach r s → consume s ≡ some t → Reach r t
