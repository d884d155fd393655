-- ===== src/Proc.antt =====
-- xv6/proc.c: the process table. Each function is what runs while `ptable.lock` is held; where it
-- calls `sched`, it ends, and the machine of `Proc.Machine` goes on with the processor. The stack
-- that `kalloc` returns and the page table that `copyuvm` returns are arguments.
pub mod Machine
pub mod Keeps
pub mod Exclusive
pub mod Children
pub mod Stale
mod Tests
use laboratorio_valen_el_noo.Base.{
  ℕ, zero, suc, ◌+◌, Bool, true, false, ◌&&◌, ◌||◌, not, Option, none, some, List, [], ◌==◌,
  if◌then◌else◌, get_elem?, modify, find_index, map, count,
}

-- `enum procstate`
pub data State : Type 0 where
  unused embryo sleeping runnable running zombie : State

pub is_state : State → State → Bool
is_state unused unused = true
is_state embryo embryo = true
is_state sleeping sleeping = true
is_state runnable runnable = true
is_state running running = true
is_state zombie zombie = true
is_state _ _ = false

-- What a process sleeps on: the entry of a process, or another address of the kernel.
pub data Chan : Type 0 where
  on_proc : ℕ → Chan
  on_addr : ℕ → Chan

abbrev pub chan_eq : Chan → Chan → Bool
chan_eq (on_proc a) (on_proc b) = a == b
chan_eq (on_addr a) (on_addr b) = a == b
chan_eq (on_proc a) (on_addr b) = false
chan_eq (on_addr a) (on_proc b) = false

abbrev pub chan_is : Option Chan → Chan → Bool
chan_is none c = false
chan_is (some b) c = chan_eq b c

-- `struct proc`, without trap frame, context, files and name. A pointer to an entry of the table is
-- its index, a null pointer is `none`.
pub record Proc : Type 0 where
  pub sz : ℕ
  pub pgdir : Option ℕ
  pub kstack : Option ℕ
  pub state : State
  pub pid : ℕ
  pub parent : Option ℕ
  pub chan : Option Chan
  pub killed : Bool

pub record Table : Type 0 where
  pub procs : List Proc
  pub nextpid : ℕ
  pub initproc : ℕ

abbrev pub in_state : State → Proc → Bool
in_state s p = is_state s p.state

abbrev pub change : ℕ → (Proc → Proc) → Table → Table
change i f t = record t { procs = modify t.procs i f }

-- `nextpid` counts every process ever made, and is taken to stay below 2 ^ 31.
-- `allocproc`: the entry found, if `kalloc` has a stack for it. An entry given up keeps its pid.
pub claim : ℕ → Table → Table
claim i t = record (change i (λ p. record p { state = embryo; pid = t.nextpid }) t) {
  nextpid = t.nextpid + 1;
}

pub give_up : ℕ → Table → Table
give_up i t = change i (λ p. record p { kstack = none; state = unused }) t

pub keep_stack : ℕ → ℕ → Table → Table
keep_stack i k t = change i (λ p. record p { kstack = some k }) t

pub allocproc : Option ℕ → Table → Option ℕ × Table
allocproc stack t = elim (find_index (in_state unused) t.procs) [
  | none ↦ (none, t)
  | some i ↦ elim stack [
    | none ↦ (none, give_up i (claim i t))
    | some k ↦ (some i, keep_stack i k (claim i t))
  ]
]

-- `curproc->sz` and `curproc->killed`
pub size_of : Option Proc → ℕ
size_of none = 0
size_of (some p) = p.sz

pub is_killed : Option Proc → Bool
is_killed none = false
is_killed (some p) = p.killed

pub pid_of : Option Proc → ℕ
pid_of none = 0
pid_of (some p) = p.pid

-- `fork` after `allocproc` found entry `i`.
pub populate : ℕ → ℕ → ℕ → Table → Table
populate cur i d t =
    change i
      (λ p. record p {
        pgdir = some d;
        sz = size_of (get_elem? t.procs cur);
        parent = some cur;
        state = runnable;
      })
      t

-- `fork` when `copyuvm` returns 0.
pub uncopied : ℕ → Table → Table
uncopied i t = change i (λ p. record p { pgdir = none; kstack = none; state = unused }) t

pub fork_with : ℕ → Option ℕ → Option ℕ × Table → Option ℕ × Table
fork_with cur pages (none, t) = (none, t)
fork_with cur none (some i, t) = (none, uncopied i t)
fork_with cur (some d) (some i, t) = (some (pid_of (get_elem? t.procs i)), populate cur i d t)

-- `fork` for the process at entry `cur`: the pid of the child, or none for -1.
pub fork : ℕ → Option ℕ → Option ℕ → Table → Option ℕ × Table
fork cur stack pages t = fork_with cur pages (allocproc stack t)

-- `wakeup1`
abbrev pub wake : Chan → Proc → Proc
wake c p =
    if is_state sleeping p.state && chan_is p.chan c then record p { state = runnable } else p

pub wakeup1 : Chan → Table → Table
wakeup1 c t = record t { procs = map (wake c) t.procs }

-- `sleep` up to `sched`, and what it tidies up when it is back.
pub sleep : ℕ → Chan → Table → Table
sleep i c t = change i (λ p. record p { chan = some c; state = sleeping }) t

pub tidy_up : ℕ → Table → Table
tidy_up i t = change i (λ p. record p { chan = none }) t

-- `yield` up to `sched`
pub yield : ℕ → Table → Table
yield i t = change i (λ p. record p { state = runnable }) t

-- `p->parent == cur`
abbrev pub is_child : ℕ → Proc → Bool
is_child cur p = elim p.parent [ none ↦ false | some q ↦ q == cur ]

-- The loop of `exit` over the table: entry `i`, and the `n` entries from entry `i` on.
pub abandon_one : ℕ → ℕ → Option Proc → Table → Table
abandon_one i cur none t = t
abandon_one i cur (some p) t =
    let adopted = change i (λ r. record r { parent = some t.initproc }) t in
    if is_child cur p
    then (if is_state zombie p.state then wakeup1 (on_proc t.initproc) adopted else adopted)
    else t

pub abandon : ℕ → ℕ → ℕ → Table → Table
abandon zero i cur t = t
abandon (suc n) i cur t = abandon n (suc i) cur (abandon_one i cur (get_elem? t.procs i) t)

-- `exit` from `acquire` on; `none` is the panic "init exiting".
abbrev pub nproc : ℕ
nproc = 64

pub wake_parent : Option ℕ → Table → Table
wake_parent none t = t
wake_parent (some p) t = wakeup1 (on_proc p) t

pub parent_of : Option Proc → Option ℕ
parent_of none = none
parent_of (some p) = p.parent

pub exit : ℕ → Table → Option Table
exit cur t =
    if cur == t.initproc
    then none
    else some (
        change cur (λ p. record p { state = zombie })
          (abandon nproc 0 cur (wake_parent (parent_of (get_elem? t.procs cur)) t)))

-- One round of the loop of `wait`.
pub data Waited : Type 0 where
  reaped : ℕ → Table → Waited
  failed : Waited
  asleep : Table → Waited

pub reap : ℕ → Table → Table
reap i t =
    change i
      (λ p. record p { kstack = none; pid = 0; parent = none; killed = false; state = unused }) t

pub wait : ℕ → Table → Waited
wait cur t = elim (find_index (λ p. is_child cur p && is_state zombie p.state) t.procs) [
  | some i ↦ reaped (pid_of (get_elem? t.procs i)) (reap i t)
  | none ↦
      if count (is_child cur) t.procs == 0 || is_killed (get_elem? t.procs cur)
      then failed
      else asleep (sleep cur (on_proc cur) t)
]

-- `kill`: false is -1.
pub kill : ℕ → Table → Bool × Table
kill pid t = elim (find_index (λ p. p.pid == pid) t.procs) [
  | none ↦ (false, t)
  | some i ↦ (
    true,
    change i
        (λ p. record p {
          killed = true;
          state = if is_state sleeping p.state then runnable else p.state;
        })
        t,
  )
]

-- `sys_pscnt`
pub sys_pscnt : Table → ℕ
sys_pscnt t = count (λ p. not (is_state unused p.state)) t.procs
