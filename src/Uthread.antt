-- ===== src/Uthread.antt =====
-- xv6/uthreadlib.c: threads of a user program. A thread is its entry of `all_thread`, without the
-- stack; `thread_switch` (xv6/uthread_switch.S) makes `next_thread` current.
pub mod Inv
mod Tests
use laboratorio_valen_el_noo.Base.{
  ℕ, zero, suc, replicate, [], ◌∷◌, Bool, true, false, ◌&&◌, not, Option, none, some, List, ◌==◌,
  if◌then◌else◌, get_elem?, set, find_index,
}

-- FREE, RUNNING, RUNNABLE
pub data Status : Type 0 where
  free running runnable : Status

abbrev pub is_status : Status → Status → Bool
is_status free free = true
is_status running running = true
is_status runnable runnable = true
is_status free running = false
is_status free runnable = false
is_status running free = false
is_status running runnable = false
is_status runnable free = false
is_status runnable running = false

pub record Threads : Type 0 where
  pub all : List Status
  pub current : ℕ

-- What a call leads to: the threads go on, the program calls `exit`, or an access past the end of
-- `all_thread`.
pub data Outcome : Type 0 where
  goes_on : Threads → Outcome
  exits : Outcome
  past_end : Outcome

abbrev pub max_thread : ℕ
max_thread = 8

-- The first entry from `i` on that is RUNNABLE and is not `cur`.
pub find_next : ℕ → ℕ → List Status → Option ℕ
find_next cur i [] = none
find_next cur i (s ∷ ss) =
    let rest = find_next cur (suc i) ss in
    if is_status runnable s && not (i == cur) then some i else rest

abbrev pub status_of : Option Status → Status
status_of none = free
status_of (some s) = s

pub thread_schedule : Threads → Outcome
thread_schedule t = elim (find_next t.current 0 t.all) [
  | some j ↦ goes_on (record { all = set t.all j running; current = j })
  | none ↦ if is_status runnable (status_of (get_elem? t.all t.current)) then goes_on t else exits
]

pub thread_create : Threads → Outcome
thread_create t = elim (find_index (is_status free) t.all) [
  | some i ↦ goes_on (record t { all = set t.all i runnable })
  | none ↦ past_end
]

pub thread_yield : Threads → Outcome
thread_yield t = thread_schedule (record t { all = set t.all t.current runnable })

pub thread_exit : Threads → Outcome
thread_exit t = thread_schedule (record t { all = set t.all t.current free })

-- `thread_init` on a table of zeros, which is all FREE.
pub thread_init : Threads
thread_init = record { all = set (replicate max_thread free) 0 running; current = 0 }
