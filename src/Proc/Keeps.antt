-- ===== src/Proc/Keeps.antt =====
-- No step of a processor or of an interrupt (xv6/proc.c) disturbs a process that runs elsewhere.
use laboratorio_valen_el_noo.Base.{
  ℕ, zero, suc, ◌≡◌, ◌≢◌, refl, ap, ◌∙◌, true, ◌&&◌, Option, none, some, ◌==◌, inl, inr,
  if◌then◌else◌, get_elem?, get_elem?-map, get_elem?-modify_ne, find_index, find_index-some, arith,
  Bool-cases, Option-cases, get_elem?-modify_self,
}
use laboratorio_valen_el_noo.Proc.{
  keep_stack, uncopied, State, unused, embryo, sleeping, runnable, running, zombie, is_state,
  in_state, Chan, on_proc, Proc, Table, change, claim, give_up, populate, wake, wakeup1, is_child,
  abandon, abandon_one, exit, wake_parent, parent_of, reaped, reap, wait, kill, nproc,
}
use laboratorio_valen_el_noo.Proc.Machine.{Runs, KeepsBut, Part, stack, no_stack, no_copy, copied}

-- A change of one entry concerns that entry.
pub change-KeepsBut : (i : ℕ) (f : Proc → Proc) (t : Table) → KeepsBut (some i) t (change i f t)
change-KeepsBut i f t j ne (p, e, r) =
    (p, get_elem?-modify_ne t.procs i j f (λ h. ne (ap some h)) ∙ e, r)

-- A change of an entry that is not running, or that leaves it running, concerns none.
pub change_idle :
    (i : ℕ) (f : Proc → Proc) (t : Table)
    → ((p : Proc) → get_elem? t.procs i ≡ some p → p.state ≡ running → (f p).state ≡ running)
    → KeepsBut none t (change i f t)
change_idle i f t h j ne (p, e, r) = elim (Bool-cases (i == j)) [
  | inl same ↦
      let q : i ≡ j = ground arith in
      rw (← q) (f p, get_elem?-modify_self t.procs i f p (rw q e), h p (rw q e) r)
  | inr other ↦ (p, get_elem?-modify_ne t.procs i j f (λ q. ground arith) ∙ e, r)
]

trans_KeepsBut : (s : Option ℕ) (t u v : Table) → KeepsBut s t u → KeepsBut s u v → KeepsBut s t v
trans_KeepsBut s t u v a b j ne r = b j ne (a j ne r)

-- Changes at an entry that was not running concern none.
free_KeepsBut : (i : ℕ) (t u : Table) → (Runs t i → ⊥) → KeepsBut (some i) t u → KeepsBut none t u
free_KeepsBut i t u free k j ne (p, e, r) = elim (Bool-cases (i == j)) [
  | inl same ↦ let q : i ≡ j = ground arith in absurd (free (rw q (p, e, r)))
  | inr other ↦ k j (λ h. ground arith) (p, e, r)
]

pub is_state_eq : (a b : State) → is_state a b ≡ true → a ≡ b
unfolding is_state
is_state_eq unused unused h = refl
is_state_eq embryo embryo h = refl
is_state_eq sleeping sleeping h = refl
is_state_eq runnable runnable h = refl
is_state_eq running running h = refl
is_state_eq zombie zombie h = refl
is_state_eq _ _ h = cc

-- An entry in another state does not run.
not_running :
    (s : State) (t : Table) (i : ℕ) (p : Proc)
    → get_elem? t.procs i ≡ some p
    → in_state s p ≡ true
    → s ≢ running
    → Runs t i
    → ⊥
not_running s t i p e h ne (q, f, r) =
    let same : p ≡ q = ground (arith, e, f) in
    ne (is_state_eq s p.state h ∙ ap (λ (z : Proc). z.state) same ∙ r)

wake_running : (c : Chan) (p : Proc) → p.state ≡ running → (wake c p).state ≡ running
unfolding is_state
wake_running c p r = ground arith

pub wakeup1-KeepsBut : (c : Chan) (t : Table) → KeepsBut none t (wakeup1 c t)
unfolding wakeup1
wakeup1-KeepsBut c t j ne (p, e, r) =
    (wake c p, get_elem?-map (wake c) t.procs j p e, wake_running c p r)

-- `allocproc` claims a free entry.
pub claim-KeepsBut :
    (i : ℕ) (t : Table)
    → find_index (in_state unused) t.procs ≡ some i
    → KeepsBut none t (claim i t)
unfolding claim
claim-KeepsBut i t e =
    let (p, at_i, h) = find_index-some (in_state unused) t.procs i e in
    free_KeepsBut i t (claim i t) (not_running unused t i p at_i h (λ q. cc))
      (change-KeepsBut i (λ r. record r { state = embryo; pid = t.nextpid }) t)

-- `fork` works on an entry in state EMBRYO.
Part-change : (i j : ℕ) (f : Table → Table) (t : Table) → Part i j f → KeepsBut (some j) t (f t)
unfolding keep_stack give_up uncopied populate
Part-change i j f t (stack k) = change-KeepsBut j _ t
Part-change i j f t no_stack = change-KeepsBut j _ t
Part-change i j f t no_copy = change-KeepsBut j _ t
Part-change i j f t (copied d) = change-KeepsBut j _ t

embryo_running : embryo ≢ running
embryo_running h = cc

pub Part-KeepsBut :
    (i j : ℕ) (p : Proc) (f : Table → Table) (t : Table)
    → get_elem? t.procs j ≡ some p
    → p.state ≡ embryo
    → Part i j f
    → KeepsBut none t (f t)
unfolding is_state
Part-KeepsBut i j p f t e h part =
    free_KeepsBut j t (f t) (not_running embryo t j p e (ap (is_state embryo) h) embryo_running)
      (Part-change i j f t part)

pub kill-KeepsBut : (pid : ℕ) (t : Table) → KeepsBut none t (kill pid t).1
unfolding kill is_state
kill-KeepsBut pid t = elim (Option-cases (find_index (λ p. p.pid == pid) t.procs)) [
  | inl e ↦ rw (e, kill) (λ j ne r. r)
  | inr (i, e) ↦
      rw (e, kill)
        (change_idle i
          (λ p. record p {
            killed = true;
            state = if is_state sleeping p.state then runnable else p.state;
          })
          t (λ p g r. ground arith))
]

-- `wait` reaps a zombie.
pub wait-KeepsBut : (cur pid : ℕ) (t u : Table) → wait cur t ≡ reaped pid u → KeepsBut none t u
unfolding wait reap
wait-KeepsBut cur pid t u h =
    elim (Option-cases (find_index (λ p. is_child cur p && is_state zombie p.state) t.procs)) [
      | inl e ↦ absurd (ground arith)
      | inr (i, e) ↦
          let (p, at_i, z) = find_index-some _ t.procs i e in
          let same : u ≡ reap i t = ground arith in
          rw same (
            free_KeepsBut i t (reap i t) (not_running zombie t i p at_i (ground arith) (λ q. cc))
              (change-KeepsBut i _ t))
    ]

abandon_one-KeepsBut :
    (i cur : ℕ) (o : Option Proc) (t : Table) → KeepsBut none t (abandon_one i cur o t)
unfolding abandon_one
abandon_one-KeepsBut i cur none t = λ j ne r. r
abandon_one-KeepsBut i cur (some p) t =
    let f : Proc → Proc = λ r. record r { parent = some t.initproc } in
    let moved : KeepsBut none t (change i f t) = change_idle i f t (λ q g r. r) in
    elim (Bool-cases (is_child cur p)) [
      | inr no_child ↦ rw no_child (λ j ne r. r)
      | inl child ↦ elim (Bool-cases (is_state zombie p.state)) [
        | inr alive ↦ rw (child, alive) moved
        | inl dead ↦
            rw (child, dead)
              (trans_KeepsBut none t (change i f t) (wakeup1 (on_proc t.initproc) (change i f t))
                moved (wakeup1-KeepsBut (on_proc t.initproc) (change i f t)))
      ]
    ]

abandon-KeepsBut : (n i cur : ℕ) (t : Table) → KeepsBut none t (abandon n i cur t)
unfolding abandon
abandon-KeepsBut zero i cur t = λ j ne r. r
abandon-KeepsBut (suc n) i cur t =
    let t1 = abandon_one i cur (get_elem? t.procs i) t in
    trans_KeepsBut none t t1 (abandon n (suc i) cur t1)
      (abandon_one-KeepsBut i cur (get_elem? t.procs i) t) (abandon-KeepsBut n (suc i) cur t1)

wake_parent-KeepsBut : (o : Option ℕ) (t : Table) → KeepsBut none t (wake_parent o t)
unfolding wake_parent
wake_parent-KeepsBut none t = λ j ne r. r
wake_parent-KeepsBut (some p) t = wakeup1-KeepsBut (on_proc p) t

pub exit-KeepsBut : (cur : ℕ) (t u : Table) → exit cur t ≡ some u → KeepsBut (some cur) t u
unfolding exit
exit-KeepsBut cur t u h =
    let t1 = wake_parent (parent_of (get_elem? t.procs cur)) t in
    let t2 = abandon nproc 0 cur t1 in
    let f : Proc → Proc = λ p. record p { state = zombie } in
    let same : u ≡ change cur f t2 = ground arith in
    rw same (λ j ne r. change-KeepsBut cur f t2 j ne (
      abandon-KeepsBut nproc 0 cur t1 j (λ e. cc)
        (wake_parent-KeepsBut (parent_of (get_elem? t.procs cur)) t j (λ e. cc) r)))
