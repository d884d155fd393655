-- ===== src/Proc/Machine.antt =====
-- Processors over the process table (xv6/proc.c, `scheduler` and `sched`): which entry each runs.
use laboratorio_valen_el_noo.Base.{
  ℕ, find_index, ◌≡◌, ◌≢◌, Option, none, some, ◌==◌, if◌then◌else◌, get_elem?,
}
use laboratorio_valen_el_noo.Proc.{
  unused, embryo, runnable, running, in_state, Chan, Proc, Table, change, claim, give_up,
  keep_stack, uncopied, populate, wakeup1, sleep, tidy_up, yield, exit, reaped, asleep, wait, kill,
}

pub record Machine : Type 0 where
  pub table : Table
  pub cpus : ℕ → Option ℕ

abbrev pub assign : (ℕ → Option ℕ) → ℕ → Option ℕ → ℕ → Option ℕ
assign f c v x = if c == x then v else f x

-- What `fork` in the process at `i` does after it has claimed entry `j`, without the table lock: keep
-- the stack, give the entry up, or make the child.
pub data Part (i j : ℕ) : (Table → Table) → Type 0 where
  stack : (k : ℕ) → Part i j (keep_stack j k)
  no_stack : Part i j (give_up j)
  no_copy : Part i j (uncopied j)
  copied : (d : ℕ) → Part i j (populate i j d)

-- What a processor does with the table lock held. `leave` is `sched`: the scheduler of that
-- processor is back in its loop, with `c->proc = 0`.
pub data Step (m : Machine) : Machine → Type 0 where
  schedule :
      (c i : ℕ) (p : Proc)
      → m.cpus c ≡ none
      → get_elem? m.table.procs i ≡ some p
      → p.state ≡ runnable
      → Step m (record {
        table = change i (λ r. record r { state = running }) m.table;
        cpus = assign m.cpus c (some i);
      })
  do_yield :
      (c i : ℕ)
      → m.cpus c ≡ some i
      → Step m (record { table = yield i m.table; cpus = assign m.cpus c none })
  do_sleep :
      (c i : ℕ) (ch : Chan)
      → m.cpus c ≡ some i
      → Step m (record { table = sleep i ch m.table; cpus = assign m.cpus c none })
  do_exit :
      (c i : ℕ) (t : Table)
      → m.cpus c ≡ some i
      → exit i m.table ≡ some t
      → Step m (record { table = t; cpus = assign m.cpus c none })
  do_claim :
      (c i j : ℕ)
      → m.cpus c ≡ some i
      → find_index (in_state unused) m.table.procs ≡ some j
      → Step m (record m { table = claim j m.table })
  do_fork :
      (c i j : ℕ) (p : Proc) (f : Table → Table)
      → m.cpus c ≡ some i
      → get_elem? m.table.procs j ≡ some p
      → p.state ≡ embryo
      → Part i j f
      → Step m (record m { table = f m.table })
  wait_reaps :
      (c i pid : ℕ) (t : Table)
      → m.cpus c ≡ some i
      → wait i m.table ≡ reaped pid t
      → Step m (record m { table = t })
  wait_sleeps :
      (c i : ℕ) (t : Table)
      → m.cpus c ≡ some i
      → wait i m.table ≡ asleep t
      → Step m (record { table = t; cpus = assign m.cpus c none })
  do_wakeup : (ch : Chan) → Step m (record m { table = wakeup1 ch m.table })
  do_tidy : (c i : ℕ) → m.cpus c ≡ some i → Step m (record m { table = tidy_up i m.table })
  do_kill : (pid : ℕ) → Step m (record m { table = (kill pid m.table).1 })

pub data Reach (m : Machine) : Machine → Type 0 where
  here : Reach m m
  later : {n o : Machine} → Reach m n → Step n o → Reach m o

-- Entry `j` holds a running process.
abbrev pub Runs : Table → ℕ → Type 0
Runs t j = (p : Proc) × (get_elem? t.procs j ≡ some p) × (p.state ≡ running)

-- A processor runs a process in state RUNNING, and no two run the same.
pub record IsExclusive (m : Machine) : Type 0 where
  pub placed : (c i : ℕ) → m.cpus c ≡ some i → Runs m.table i
  pub apart : (c d i : ℕ) → m.cpus c ≡ some i → m.cpus d ≡ some i → c ≡ d

-- Every entry but `i` that is running goes on running.
abbrev pub KeepsBut : Option ℕ → Table → Table → Type 0
KeepsBut skip t u = (j : ℕ) → skip ≢ some j → Runs t j → Runs u j
