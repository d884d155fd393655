-- ===== src/Proc/Tests.antt =====
-- The theorems on the process table at concrete tables.
use laboratorio_valen_el_noo.Base.{
  ℕ, ◌<◌, ◌≡◌, ◌≢◌, refl, sym, ap, true, false, Option, none, some, [], ◌∷◌, ◌==◌, get_elem?, arith,
  if◌then◌else◌,
}
use laboratorio_valen_el_noo.Proc.{
  keep_stack, populate, claim, size_of, State, unused, sleeping, runnable, running, zombie,
  is_state, on_proc, Proc, Table, change, claim, fork, populate, wakeup1, is_child, abandon,
  abandon_one, exit, wake_parent, parent_of, kill, size_of, pid_of, wait, reaped, reap, sys_pscnt,
}
use laboratorio_valen_el_noo.Proc.Machine.{
  Machine, Reach, here, later, schedule, do_claim, do_fork, stack, copied, IsExclusive,
}
use laboratorio_valen_el_noo.Proc.Exclusive.{Reach-IsExclusive}
use laboratorio_valen_el_noo.Proc.Children.{exit_abandons}
use laboratorio_valen_el_noo.Proc.Stale.{fork_born_killed}

abbrev entry : State → ℕ → Option ℕ → Proc
entry s n q = record {
  sz = 4096;
  pgdir = some n;
  kstack = some n;
  state = s;
  pid = n;
  parent = q;
  chan = none;
  killed = false;
}

abbrev vacant : Proc
vacant = record {
  sz = 0;
  pgdir = none;
  kstack = none;
  state = unused;
  pid = 0;
  parent = none;
  chan = none;
  killed = false;
}

-- init, a process of it about to exit, a dead child of that and a live one, and a free entry.
abbrev family : Table
family = record {
  procs =
      record (entry sleeping 1 none) { chan = some (on_proc 0) }
      ∷ entry running 2 (some 0)
      ∷ entry zombie 3 (some 1)
      ∷ entry runnable 4 (some 1)
      ∷ vacant
      ∷ [];
  nextpid = 5;
  initproc = 0;
}

abbrev orphaned : Table
orphaned = record {
  procs =
      record (entry runnable 1 none) { chan = some (on_proc 0) }
      ∷ entry zombie 2 (some 0)
      ∷ entry zombie 3 (some 0)
      ∷ entry runnable 4 (some 0)
      ∷ vacant
      ∷ [];
  nextpid = 5;
  initproc = 0;
}

exits : exit 1 family ≡ some orphaned
unfolding exit abandon abandon_one wake_parent parent_of wakeup1 is_state
exits = refl

exit_abandons_example :
    (family.initproc ≢ 1)
    × ((j : ℕ) (p : Proc) → j < 64 → get_elem? orphaned.procs j ≡ some p → is_child 1 p ≡ false)
exit_abandons_example = exit_abandons 1 family orphaned exits

counts : sys_pscnt family ≡ 4
unfolding sys_pscnt is_state
counts = refl

reaps : wait 1 family ≡ reaped 3 (reap 2 family)
unfolding wait is_state pid_of
reaps = refl

fork_born_killed_example :
    let failed = fork 1 (some 70) none family in
    let killed = kill 5 failed.1 in
    let born = fork 1 (some 71) (some 72) killed.1 in
    (failed.0 ≡ none)
    × (killed.0 ≡ true)
    × (born.0 ≡ some 6)
    × ((p : Proc) × (get_elem? born.1.procs 4 ≡ some p)
        × (p.killed ≡ true)
        × (p.state ≡ runnable)
        × (p.pid ≡ 6))
unfolding is_state
fork_born_killed_example = fork_born_killed family 4 1 70 1 71 72 refl refl

-- Processor 0 runs entry 1; the others are idle.
abbrev busy : Machine
busy = record { table = family; cpus = λ c. if c == 0 then some 1 else none }

busy-IsExclusive : IsExclusive busy
busy-IsExclusive = record {
  placed = λ c i e.
      let same : 1 ≡ i = ground arith in
      (entry running 2 (some 0), ap (get_elem? family.procs) (sym same), refl);
  apart = λ c d i e f. ground arith;
}

-- It forks, and processor 1 takes the live child.
abbrev forked : Machine
forked = record busy { table = populate 1 4 71 (keep_stack 4 70 (claim 4 family)) }

four_steps : Reach busy (record {
  table = change 3 (λ r. record r { state = running }) forked.table;
  cpus = λ x. if 1 == x then some 3 else forked.cpus x;
})
unfolding populate claim keep_stack is_state size_of
four_steps =
    let claimed = later here (do_claim 0 1 4 refl refl) in
    let kept = later claimed (do_fork 0 1 4 _ _ refl refl refl (stack 70)) in
    let born = later kept (do_fork 0 1 4 _ _ refl refl refl (copied 71)) in
    later born (schedule 1 3 (entry runnable 4 (some 1)) refl refl refl)

Reach-IsExclusive_example : IsExclusive (record {
  table = change 3 (λ r. record r { state = running }) forked.table;
  cpus = λ x. if 1 == x then some 3 else forked.cpus x;
})
Reach-IsExclusive_example = Reach-IsExclusive busy-IsExclusive four_steps
