-- ===== src/Proc/Stale.antt =====
-- A pid that a failed `fork` leaves behind (xv6/proc.c).
use laboratorio_valen_el_noo.Base.{
  ℕ, ◌+◌, ◌≡◌, refl, ap, ◌∙◌, true, none, some, ◌==◌, if◌then◌else◌, get_elem?, modify,
  modify-modify, find_index, find_index-some, find_index-modify, find_index-modify-none, arith,
  get_elem?-modify_self, lt_of_get_elem?,
}
use laboratorio_valen_el_noo.Proc.{
  keep_stack, uncopied, unused, embryo, sleeping, runnable, is_state, in_state, Proc, Table, change,
  claim, allocproc, fork, fork_with, populate, kill, pid_of,
}

-- An entry with a pid and a stack, before `fork` or after a failed one.
abbrev started : ℕ → ℕ → Table → Table
started i k t = keep_stack i k (claim i t)

fork_fails :
    (cur i k : ℕ) (t : Table)
    → find_index (in_state unused) t.procs ≡ some i
    → fork cur (some k) none t ≡ (none, uncopied i (started i k t))
unfolding fork allocproc fork_with
fork_fails cur i k t e = rw (e, allocproc)

fork_succeeds :
    (cur i k d : ℕ) (t : Table)
    → find_index (in_state unused) t.procs ≡ some i
    → fork cur (some k) (some d) t
      ≡ (some (pid_of (get_elem? (started i k t).procs i)), populate cur i d (started i k t))
unfolding fork allocproc fork_with
fork_succeeds cur i k d t e = rw (e, allocproc)

abbrev signalled : Proc → Proc
signalled p = record p {
  killed = true;
  state = if is_state sleeping p.state then runnable else p.state;
}

kill_finds :
    (pid i : ℕ) (t : Table)
    → find_index (λ p. p.pid == pid) t.procs ≡ some i
    → kill pid t ≡ (true, change i signalled t)
unfolding kill
kill_finds pid i t e = rw (e, kill)

eq_self : (n : ℕ) → (n == n) ≡ true
eq_self n = ground arith

abbrev with_stack : ℕ → Proc → Proc
with_stack k p = record p { kstack = some k }

abbrev claimed : ℕ → Proc → Proc
claimed n p = record p { state = embryo; pid = n }

-- The entry after the failed `fork`.
abbrev spent : ℕ → ℕ → Proc → Proc
spent n k p = record p { state = unused; pid = n; kstack = none; pgdir = none }

spent_procs :
    (i k : ℕ) (t : Table)
    → (uncopied i (started i k t)).procs ≡ modify t.procs i (spent t.nextpid k)
unfolding uncopied claim keep_stack
spent_procs i k t = modify-modify (modify t.procs i _) i _ _ ∙ modify-modify t.procs i _ _

-- A `fork` that fails for want of memory leaves its pid in the entry that it gives up. If then that
-- pid is killed, `kill` finds the free entry and reports success, and the next child, which
-- takes the same entry, is born killed.
pub fork_born_killed :
    (t : Table) (i cur k next_cur next_k d : ℕ)
    → find_index (in_state unused) t.procs ≡ some i
    → find_index (λ p. p.pid == t.nextpid) t.procs ≡ none
    → let failed = fork cur (some k) none t in
      let killed = kill t.nextpid failed.1 in
      let born = fork next_cur (some next_k) (some d) killed.1 in
      (failed.0 ≡ none)
      × (killed.0 ≡ true)
      × (born.0 ≡ some (t.nextpid + 1))
      × ((p : Proc) × (get_elem? born.1.procs i ≡ some p)
          × (p.killed ≡ true)
          × (p.state ≡ runnable)
          × (p.pid ≡ t.nextpid + 1))
unfolding is_state populate claim uncopied pid_of keep_stack
fork_born_killed t i cur k next_cur next_k d free fresh =
    let (p, at_i, u) = find_index-some (in_state unused) t.procs i free in
    let t1 : Table = uncopied i (started i k t) in
    let e1 : fork cur (some k) none t ≡ (none, t1) = fork_fails cur i k t free in
    let found : find_index (λ q. q.pid == t.nextpid) t1.procs ≡ some i = rw (spent_procs i k t) (
      find_index-modify-none (λ q. q.pid == t.nextpid) t.procs i (spent t.nextpid k) fresh
        (lt_of_get_elem? t.procs i p at_i) (λ q. eq_self t.nextpid)) in
    let t2 : Table = change i signalled t1 in
    let e2 : kill t.nextpid t1 ≡ (true, t2) = kill_finds t.nextpid i t1 found in
    let procs2 : t2.procs ≡ modify t.procs i (λ q. signalled (spent t.nextpid k q)) =
      ap (λ l. modify l i signalled) (spent_procs i k t)
      ∙ modify-modify t.procs i (spent t.nextpid k) signalled in
    let again : find_index (in_state unused) t2.procs ≡ some i =
      rw procs2 (find_index-modify (in_state unused) t.procs i _ free (λ q h. refl)) in
    let e3 = fork_succeeds next_cur i next_k d t2 again in
    let e12 : kill t.nextpid (fork cur (some k) none t).1 ≡ (true, t2) =
      ap (λ r. kill t.nextpid r.1) e1 ∙ e2 in
    let e123 = ap (λ r. fork next_cur (some next_k) (some d) r.1) e12 ∙ e3 in
    let s2 : get_elem? t2.procs i ≡ some (signalled (spent t.nextpid k p)) =
      rw procs2 (get_elem?-modify_self t.procs i _ p at_i) in
    let s3 : get_elem? (started i next_k t2).procs i
        ≡ some (with_stack next_k (claimed (t.nextpid + 1) (signalled (spent t.nextpid k p)))) =
      get_elem?-modify_self (claim i t2).procs i _ _ (get_elem?-modify_self t2.procs i _ _ s2) in
    (
      ap (λ r. r.0) e1,
      ap (λ r. r.0) e12,
      ap (λ r. r.0) e123 ∙ ap (λ o. some (pid_of o)) s3,
      (
        _,
        ap (λ r. get_elem? r.1.procs i) e123
            ∙ get_elem?-modify_self (started i next_k t2).procs i _ _ s3,
        refl,
        refl,
        refl,
      ),
    )
