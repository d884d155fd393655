-- ===== src/Proc/Exclusive.antt =====
-- No process runs on two processors (xv6/proc.c).
use laboratorio_valen_el_noo.Base.{
  ℕ, ◌≡◌, ◌≢◌, refl, sym, ap, ◌∙◌, Option, none, some, ◌==◌, inl, inr, get_elem?,
  get_elem?-modify_self, arith, Bool-cases,
}
use laboratorio_valen_el_noo.Proc.{
  runnable, running, on_proc, Proc, Table, change, sleep, tidy_up, yield, asleep, wait,
}
use laboratorio_valen_el_noo.Proc.Machine.{
  Machine, Step, schedule, do_yield, do_sleep, do_exit, do_claim, do_fork, wait_reaps, wait_sleeps,
  do_wakeup, do_tidy, do_kill, Reach, here, later, assign, KeepsBut, IsExclusive,
}
use laboratorio_valen_el_noo.Proc.Keeps.{
  change-KeepsBut, change_idle, claim-KeepsBut, Part-KeepsBut, kill-KeepsBut, wait-KeepsBut,
  exit-KeepsBut, wakeup1-KeepsBut,
}

-- The table changes and the processors stay.
stay :
    (m : Machine) (t : Table)
    → IsExclusive m
    → KeepsBut none m.table t
    → IsExclusive (record m { table = t })
stay m t x k = record { placed = λ c i e. k i (λ h. cc) (x.placed c i e); apart = x.apart }

assign-none : (f : ℕ → Option ℕ) (c d j : ℕ) → assign f c none d ≡ some j → f d ≡ some j
assign-none f c d j h = ground arith

runnable_running : runnable ≢ running
runnable_running h = cc

-- Processor `c` goes back to its scheduler.
leave :
    (m : Machine) (t : Table) (c i : ℕ)
    → IsExclusive m
    → m.cpus c ≡ some i
    → KeepsBut (some i) m.table t
    → IsExclusive (record { table = t; cpus = assign m.cpus c none })
leave m t c i x at_c k = record {
  placed = λ d j e. elim (Bool-cases (c == d)) [
    | inl same ↦ absurd (ground (arith, e))
    | inr other ↦
        let f : m.cpus d ≡ some j = ground (arith, e) in
        k j (λ h. ground (arith, x.apart c d j (at_c ∙ h) f)) (x.placed d j f)
  ];
  apart = λ d e j p q. x.apart d e j (assign-none m.cpus c d j p) (assign-none m.cpus c e j q);
}

-- Processor `c` takes up a runnable process.
take_up :
    (m : Machine) (c i : ℕ) (p : Proc)
    → IsExclusive m
    → m.cpus c ≡ none
    → get_elem? m.table.procs i ≡ some p
    → p.state ≡ runnable
    → IsExclusive (record {
      table = change i (λ r. record r { state = running }) m.table;
      cpus = assign m.cpus c (some i);
    })
take_up m c i p x idle at_i r = record {
  placed = λ d j e. elim (Bool-cases (c == d)) [
    | inl same ↦
        let q : i ≡ j = ground (arith, e) in
        rw (← q) (f p, get_elem?-modify_self m.table.procs i f p at_i, refl)
    | inr other ↦
        change_idle i f m.table (λ q g h. refl) j (λ h. cc) (x.placed d j (ground (arith, e)))
  ];
  apart = λ d e j a b. elim (Bool-cases (c == d)) [
    | inl same ↦ elim (Bool-cases (c == e)) [
      | inl same2 ↦ ground arith
      | inr other2 ↦ absurd (nowhere e (ground (arith, a, b)))
    ]
    | inr other ↦ elim (Bool-cases (c == e)) [
      | inl same2 ↦ absurd (nowhere d (ground (arith, a, b)))
      | inr other2 ↦ x.apart d e j (ground (arith, a)) (ground (arith, b))
    ]
  ];
}
  where
    f : Proc → Proc
    f = λ r. record r { state = running }

    nowhere : (d : ℕ) → m.cpus d ≡ some i → ⊥
    nowhere d e =
        let (q, g, h) = x.placed d i e in
        let same : p ≡ q = ground (arith, at_i, g) in
        runnable_running (sym r ∙ ap (λ (z : Proc). z.state) same ∙ h)

wait-asleep : (cur : ℕ) (t u : Table) → wait cur t ≡ asleep u → u ≡ sleep cur (on_proc cur) t
unfolding wait
wait-asleep cur t u h = ground arith

Step-IsExclusive : {m n : Machine} → Step m n → IsExclusive m → IsExclusive n
unfolding yield sleep tidy_up
Step-IsExclusive {m} (schedule c i p idle at_i r) x = take_up m c i p x idle at_i r
Step-IsExclusive {m} (do_yield c i e) x = leave m _ c i x e (change-KeepsBut i _ m.table)
Step-IsExclusive {m} (do_sleep c i ch e) x = leave m _ c i x e (change-KeepsBut i _ m.table)
Step-IsExclusive {m} (do_exit c i t e f) x = leave m t c i x e (exit-KeepsBut i m.table t f)
Step-IsExclusive {m} (do_claim c i j e h) x = stay m _ x (claim-KeepsBut j m.table h)
Step-IsExclusive {m} (do_fork c i j p f e at_j h part) x =
    stay m _ x (Part-KeepsBut i j p f m.table at_j h part)
Step-IsExclusive {m} (wait_reaps c i pid t e f) x = stay m t x (wait-KeepsBut i pid m.table t f)
Step-IsExclusive {m} (wait_sleeps c i t e f) x =
    leave m t c i x e (rw (wait-asleep i m.table t f) (change-KeepsBut i _ m.table))
Step-IsExclusive {m} (do_wakeup ch) x = stay m _ x (wakeup1-KeepsBut ch m.table)
Step-IsExclusive {m} (do_tidy c i e) x = stay m _ x (change_idle i _ m.table (λ p g r. r))
Step-IsExclusive {m} (do_kill pid) x = stay m _ x (kill-KeepsBut pid m.table)

-- In every state that steps of processors and interrupts reach from one in which it holds, each
-- processor that is not in its scheduler runs an entry in state RUNNING, and no two processors run
-- the same entry.
pub Reach-IsExclusive : {m n : Machine} → IsExclusive m → Reach m n → IsExclusive n
Reach-IsExclusive x here = x
Reach-IsExclusive x (later r st) = Step-IsExclusive st (Reach-IsExclusive x r)
