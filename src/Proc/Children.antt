-- ===== src/Proc/Children.antt =====
-- Parents, children and signals (xv6/proc.c).
use laboratorio_valen_el_noo.Base.{
  ℕ, zero, suc, ◌+◌, ◌<◌, ◌≡◌, ◌≢◌, refl, sym, ap, ◌∙◌, false, Option, none, some, ◌==◌, inl, inr,
  get_elem?, get_elem?-map_inv, get_elem?-modify_inv, get_elem?-modify_ne, modify, arith,
  Bool-cases,
}
use laboratorio_valen_el_noo.Proc.{
  zombie, is_state, Chan, on_proc, Proc, Table, change, wake, wakeup1, is_child, abandon,
  abandon_one, exit, wake_parent, parent_of, nproc,
}

-- No entry below `i` is a child of `cur`.
abbrev Clear : ℕ → ℕ → Table → Type 0
Clear cur i t = (j : ℕ) (p : Proc) → j < i → get_elem? t.procs j ≡ some p → is_child cur p ≡ false

wakeup1-Clear : (cur i : ℕ) (c : Chan) (t : Table) → Clear cur i t → Clear cur i (wakeup1 c t)
unfolding wakeup1
wakeup1-Clear cur i c t h j p lt e =
    let (q, f, same) = get_elem?-map_inv (wake c) t.procs j p e in ground (arith, h j q lt f)

adopt-Clear :
    (cur i : ℕ) (t : Table)
    → t.initproc ≢ cur
    → Clear cur i t
    → Clear cur (suc i) (change i (λ r. record r { parent = some t.initproc }) t)
adopt-Clear cur i t ne h j p lt e = elim (Bool-cases (i == j)) [
  | inr other ↦ h j p (ground arith) (
      sym (
        get_elem?-modify_ne t.procs i j (λ r. record r { parent = some t.initproc })
          (λ q. ground arith))
      ∙ e)
  | inl same ↦
      let q : i ≡ j = ground arith in
      let g : Proc → Proc = λ r. record r { parent = some t.initproc } in
      let (a, f, eq) =
        get_elem?-modify_inv t.procs i g p (ap (get_elem? (modify t.procs i g)) q ∙ e) in
      ground (arith, ap (λ (z : Proc). z.parent) eq)
]

abandon_one-Clear :
    (cur i : ℕ) (t : Table) (o : Option Proc)
    → get_elem? t.procs i ≡ o
    → t.initproc ≢ cur
    → Clear cur i t
    → Clear cur (suc i) (abandon_one i cur o t) × ((abandon_one i cur o t).initproc ≡ t.initproc)
unfolding abandon_one wakeup1
abandon_one-Clear cur i t none e ne h = (
  λ j p lt f. elim (Bool-cases (i == j)) [
    | inl same ↦
        let q : i ≡ j = ground arith in absurd (ground (arith, f, ap (get_elem? t.procs) q))
    | inr apart ↦ h j p (ground arith) f
  ],
  refl,
)
abandon_one-Clear cur i t (some q) e ne h =
    let adopted = adopt-Clear cur i t ne h in
    elim (Bool-cases (is_child cur q)) [
      | inr other ↦ rw other (
        λ j p lt f. elim (Bool-cases (i == j)) [
          | inl same ↦
              let k : i ≡ j = ground arith in
              let pq : p ≡ q = ground (arith, f, e, ap (get_elem? t.procs) k) in rw pq other
          | inr apart ↦ h j p (ground arith) f
        ],
        refl,
      )
      | inl child ↦ elim (Bool-cases (is_state zombie q.state)) [
        | inr alive ↦ rw (child, alive) (adopted, refl)
        | inl dead ↦
            rw (child, dead)
              (
                wakeup1-Clear cur (suc i) (on_proc t.initproc)
                    (change i (λ r. record r { parent = some t.initproc }) t) adopted,
                refl,
              )
      ]
    ]

abandon-Clear :
    (n i cur : ℕ) (t : Table)
    → t.initproc ≢ cur
    → Clear cur i t
    → Clear cur (n + i) (abandon n i cur t)
unfolding abandon
abandon-Clear zero i cur t ne h = λ j p lt e. h j p (omega arith) e
abandon-Clear (suc n) i cur t ne h =
    let (a, b) = abandon_one-Clear cur i t (get_elem? t.procs i) refl ne h in
    let r = abandon-Clear n (suc i) cur (abandon_one i cur (get_elem? t.procs i) t) (rw b ne) a in
    λ j p lt e. r j p (omega arith) e

-- A change that keeps the parent.
change-Clear :
    (cur n i : ℕ) (g : Proc → Proc) (t : Table)
    → ((p : Proc) → is_child cur (g p) ≡ is_child cur p)
    → Clear cur n t
    → Clear cur n (change i g t)
change-Clear cur n i g t k h j p lt e = elim (Bool-cases (i == j)) [
  | inr other ↦ h j p lt (sym (get_elem?-modify_ne t.procs i j g (λ q. ground arith)) ∙ e)
  | inl same ↦
      let q : i ≡ j = ground arith in
      let (a, f, eq) =
        get_elem?-modify_inv t.procs i g p (ap (get_elem? (modify t.procs i g)) q ∙ e) in
      ap (is_child cur) (sym eq) ∙ k a ∙ h i a (omega arith) f
]

wake_parent-initproc : (o : Option ℕ) (t : Table) → (wake_parent o t).initproc ≡ t.initproc
unfolding wake_parent wakeup1
wake_parent-initproc none t = refl
wake_parent-initproc (some p) t = refl

-- A process that has exited is the parent of none of the NPROC entries: each child has been handed
-- on. Only `initproc` cannot exit.
pub exit_abandons :
    (cur : ℕ) (t u : Table)
    → exit cur t ≡ some u
    → (t.initproc ≢ cur)
      × ((j : ℕ) (p : Proc) → j < nproc → get_elem? u.procs j ≡ some p → is_child cur p ≡ false)
unfolding exit
exit_abandons cur t u h =
    let t1 = wake_parent (parent_of (get_elem? t.procs cur)) t in
    let ne : t.initproc ≢ cur = λ e. ground arith in
    let g : Proc → Proc = λ p. record p { state = zombie } in
    let clear =
      abandon-Clear nproc 0 cur t1
        (λ e. ne (sym (wake_parent-initproc (parent_of (get_elem? t.procs cur)) t) ∙ e))
        (λ j p lt e. absurd (omega arith)) in
    let same : u ≡ change cur g (abandon nproc 0 cur t1) = ground arith in
    (
      ne,
      rw same (
          change-Clear cur nproc cur g (abandon nproc 0 cur t1) (λ p. refl)
            (λ j p lt e. clear j p (omega arith) e)),
    )
