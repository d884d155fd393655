-- ===== src/Uthread/Inv.antt =====
-- The current thread of xv6/uthreadlib.c.
use laboratorio_valen_el_noo.Base.{
  ℕ, suc, ◌+◌, ◌≡◌, ◌≢◌, ◌⊎◌, inl, inr, refl, sym, ap, ◌∙◌, true, false, ◌&&◌, not, Option, none,
  some, List, [], ◌∷◌, ◌==◌, get_elem?, get_elem?-set_self, get_elem?-set_ne, set, find_index,
  replicate, zero, find_index-some, find_index-none, count, lt_of_get_elem?, arith, Option-cases,
  Bool-cases,
}
use laboratorio_valen_el_noo.Uthread.{
  Status, free, running, runnable, is_status, Threads, goes_on, exits, past_end, find_next, Outcome,
  thread_init, status_of, thread_schedule, thread_create, thread_yield, thread_exit,
}

-- The current thread has an entry that is not FREE, and no other is RUNNING but thread 0, the one of
-- `main`, which is left RUNNING when it makes the first call of `thread_schedule`.
pub record IsValid (t : Threads) : Type 0 where
  pub own : (s : Status) × (get_elem? t.all t.current ≡ some s) × (s ≢ free)
  pub alone : (i : ℕ) → get_elem? t.all i ≡ some running → (i ≡ t.current) ⊎ (i ≡ 0)

find_next-some :
    (cur i : ℕ) (ss : List Status) (j : ℕ)
    → find_next cur i ss ≡ some j
    → (k : ℕ) × (j ≡ i + k) × (get_elem? ss k ≡ some runnable) × (j ≢ cur)
unfolding find_next
find_next-some cur i [] j h = absurd (ground (arith, h))
find_next-some cur i (s ∷ ss) j h = elim (Bool-cases (is_status runnable s && not (i == cur))) [
  | inl t ↦
      let e : j ≡ i = ground (arith, h, t) in
      (0, omega (arith, e), ground (arith, t), λ q. ground (arith, t, e))
  | inr f ↦
      let rest : find_next cur (suc i) ss ≡ some j = ground (arith, h, f) in
      let (k, p, g, ne) = find_next-some cur (suc i) ss j rest in (suc k, omega (arith, p), g, ne)
]

own_runnable :
    (o : Option Status)
    → is_status runnable (status_of o) ≡ true
    → (s : Status) × (o ≡ some s) × (s ≢ free)
own_runnable none h = absurd (ground (arith, h))
own_runnable (some free) h = absurd (ground (arith, h))
own_runnable (some running) h = absurd (ground (arith, h))
own_runnable (some runnable) h = (runnable, refl, λ q. cc)

-- `thread_schedule` from a state in which no thread is RUNNING but thread 0.
schedule-IsValid :
    (t : Threads)
    → ((i : ℕ) → get_elem? t.all i ≡ some running → i ≡ 0)
    → ((thread_schedule t ≡ exits)
        × (is_status runnable (status_of (get_elem? t.all t.current)) ≡ false))
      ⊎ ((u : Threads) × (thread_schedule t ≡ goes_on u) × IsValid u)
unfolding thread_schedule
schedule-IsValid t quiet = elim (Option-cases (find_next t.current 0 t.all)) [
  | inr (j, e) ↦
      let (k, p, g, ne) = find_next-some t.current 0 t.all j e in
      let index : j ≡ k = omega (arith, p) in
      let at_j : get_elem? t.all j ≡ some runnable = ap (get_elem? t.all) index ∙ g in
      let own = get_elem?-set_self t.all j running (lt_of_get_elem? t.all j runnable at_j) in
      inr (
        record { all = set t.all j running; current = j },
        rw (e, thread_schedule) refl,
        record {
          own = (running, own, λ h. cc);
          alone = λ i h. elim (Bool-cases (j == i)) [
            | inl same ↦ inl (ground (arith, same))
            | inr other ↦ inr (
                quiet i
                  (sym (get_elem?-set_ne t.all j i running (λ q. ground (arith, q, other))) ∙ h))
          ];
        },
      )
  | inl e ↦ elim (Bool-cases (is_status runnable (status_of (get_elem? t.all t.current)))) [
    | inl r ↦ inr (
      t,
      rw (e, r, thread_schedule) refl,
      record { own = own_runnable (get_elem? t.all t.current) r; alone = λ i h. inr (quiet i h) },
    )
    | inr n ↦ inl (rw (e, n, thread_schedule) refl, n)
  ]
]

-- Without the current thread's own entry, none is RUNNING but thread 0.
quiet_without :
    (t : Threads) (s : Status)
    → IsValid t
    → s ≢ running
    → (i : ℕ) → get_elem? (set t.all t.current s) i ≡ some running
    → i ≡ 0
quiet_without t s v ne i h =
    let (r, at, nf) = v.own in
    elim (Bool-cases (t.current == i)) [
      | inr other ↦
          let e = get_elem?-set_ne t.all t.current i s (λ q. ground (arith, q, other)) in
          elim (v.alone i (sym e ∙ h)) [ inl q ↦ absurd (ground (arith, other, q)) | inr z ↦ z ]
      | inl same ↦
          let q : t.current ≡ i = ground (arith, same) in
          let e = get_elem?-set_self t.all t.current s (lt_of_get_elem? t.all t.current r at) in
          let f : some s ≡ some running = sym e ∙ ap (get_elem? (set t.all t.current s)) q ∙ h in
          absurd (ne (ground (arith, f)))
    ]

created :
    (t : Threads) (i : ℕ) (x : Status)
    → IsValid t
    → get_elem? t.all i ≡ some x
    → is_status free x ≡ true
    → IsValid (record t { all = set t.all i runnable })
created t i x v at_i f =
    let (s, at, nf) = v.own in
    let other : i ≢ t.current = λ q.
      let same : some x ≡ some s = sym at_i ∙ ap (get_elem? t.all) q ∙ at in
      ground (arith, same, nf, f) in
    record {
      own = (s, get_elem?-set_ne t.all i t.current runnable other ∙ at, nf);
      alone = λ j h. elim (Bool-cases (i == j)) [
        | inr apart ↦
            v.alone j
              (sym (get_elem?-set_ne t.all i j runnable (λ q. ground (arith, q, apart))) ∙ h)
        | inl same ↦
            let q : i ≡ j = ground (arith, same) in
            let e = get_elem?-set_self t.all i runnable (lt_of_get_elem? t.all i x at_i) in
            absurd (ground (arith, sym e ∙ ap (get_elem? (set t.all i runnable)) q ∙ h))
      ];
    }

free_ne_running : (n i : ℕ) → get_elem? (replicate n free) i ≢ some running
free_ne_running zero i h = absurd (ground (arith, h))
free_ne_running (suc n) zero h = absurd (ground (arith, h))
free_ne_running (suc n) (suc i) h = free_ne_running n i h

only_main :
    (i : ℕ) → get_elem? thread_init.all i ≡ some running → (i ≡ thread_init.current) ⊎ (i ≡ 0)
unfolding thread_init
only_main zero h = inl refl
only_main (suc i) h = absurd (free_ne_running 7 i h)

-- `thread_init` starts in a valid state.
pub thread_init-IsValid : IsValid thread_init
unfolding thread_init
thread_init-IsValid = record { own = (running, refl, λ h. cc); alone = only_main }

-- A call that leads to a valid state, or ends the program.
abbrev pub Ends : Outcome → Type 0
Ends o = (o ≡ exits) ⊎ ((u : Threads) × (o ≡ goes_on u) × IsValid u)

-- The calls that threads make: `main`, while it is current, creates threads and hands over with
-- `thread_schedule`; the thread that is current creates threads, yields or ends.
pub data LibraryCall : Threads → Threads → Type 0 where
  creates : {t u : Threads} → thread_create t ≡ goes_on u → LibraryCall t u
  hands_over : {t u : Threads} → t.current ≡ 0 → thread_schedule t ≡ goes_on u → LibraryCall t u
  yields : {t u : Threads} → thread_yield t ≡ goes_on u → LibraryCall t u
  leaves : {t u : Threads} → thread_exit t ≡ goes_on u → LibraryCall t u

pub data Reach (t : Threads) : Threads → Type 0 where
  here : Reach t t
  later : {u v : Threads} → Reach t u → LibraryCall u v → Reach t v

schedule_main : (t : Threads) → IsValid t → t.current ≡ 0 → Ends (thread_schedule t)
schedule_main t v main =
    elim (schedule-IsValid t (λ i h. elim (v.alone i h) [ inl q ↦ q ∙ main | inr z ↦ z ])) [
      | inl (e, n) ↦ inl e
      | inr r ↦ inr r
    ]

yield-IsValid : (t : Threads) → IsValid t → (u : Threads) × (thread_yield t ≡ goes_on u) × IsValid u
unfolding thread_yield
yield-IsValid t v =
    let (s, at, nf) = v.own in
    let low = lt_of_get_elem? t.all t.current s at in
    let here_runnable : get_elem? (set t.all t.current runnable) t.current ≡ some runnable =
      get_elem?-set_self t.all t.current runnable low in
    elim (schedule-IsValid (record t { all = set t.all t.current runnable })
      (quiet_without t runnable v (λ h. cc))) [
        | inl (e, n) ↦
            absurd (ground (arith, n, ap (λ o. is_status runnable (status_of o)) here_runnable))
        | inr r ↦ r
      ]

exit-Ends : (t : Threads) → IsValid t → Ends (thread_exit t)
unfolding thread_exit
exit-Ends t v =
    elim (schedule-IsValid (record t { all = set t.all t.current free })
      (quiet_without t free v (λ h. cc))) [ inl (e, n) ↦ inl e | inr r ↦ inr r ]

-- A thread is created, or there is no entry for it.
abbrev pub Creates : Threads → Type 0
Creates t =
    ((thread_create t ≡ past_end) × (count (is_status free) t.all ≡ 0))
    ⊎ ((u : Threads) × (thread_create t ≡ goes_on u) × (u.current ≡ t.current) × IsValid u)

create-Creates : (t : Threads) → IsValid t → Creates t
unfolding thread_create
create-Creates t v = elim (Option-cases (find_index (is_status free) t.all)) [
  | inl e ↦ inl (rw (e, thread_create) refl, find_index-none (is_status free) t.all e)
  | inr (i, e) ↦
      let (x, at_i, f) = find_index-some (is_status free) t.all i e in
      inr (
        record t { all = set t.all i runnable },
        rw (e, thread_create) refl,
        refl,
        created t i x v at_i f,
      )
]

Ends-IsValid : (o : Outcome) (u : Threads) → o ≡ goes_on u → Ends o → IsValid u
Ends-IsValid o u e (inl x) = absurd (ground (arith, sym e ∙ x))
Ends-IsValid o u e (inr (w, x, v)) = let q : w ≡ u = ground (arith, sym x ∙ e) in rw (sym q) v

LibraryCall-IsValid : {t u : Threads} → IsValid t → LibraryCall t u → IsValid u
LibraryCall-IsValid {t} {u} v (creates e) = elim (create-Creates t v) [
  | inl (x, n) ↦ absurd (ground (arith, sym e ∙ x))
  | inr (w, x, c, r) ↦ Ends-IsValid (thread_create t) u e (inr (w, x, r))
]
LibraryCall-IsValid {t} {u} v (hands_over z e) =
    Ends-IsValid (thread_schedule t) u e (schedule_main t v z)
LibraryCall-IsValid {t} {u} v (yields e) =
    Ends-IsValid (thread_yield t) u e (inr (yield-IsValid t v))
LibraryCall-IsValid {t} {u} v (leaves e) = Ends-IsValid (thread_exit t) u e (exit-Ends t v)

Reach-IsValid : {t u : Threads} → IsValid t → Reach t u → IsValid u
Reach-IsValid v here = v
Reach-IsValid v (later r c) = LibraryCall-IsValid (Reach-IsValid v r) c

-- However threads create others, yield and end after `thread_init`, and `main` hands over with
-- `thread_schedule`: the current thread has an entry that is not FREE, and no other is RUNNING but
-- thread 0. From there `thread_yield` always goes on; `thread_exit`, and `thread_schedule` of `main`, go on
-- or end the program; `thread_create` goes on with the same thread current, or writes past the end of
-- the table, and that only if no entry is FREE; and each leads to such a state again.
pub calls-IsValid :
    (t : Threads)
    → Reach thread_init t
    → IsValid t
      × ((u : Threads) × (thread_yield t ≡ goes_on u) × IsValid u)
      × Ends (thread_exit t)
      × (t.current ≡ 0 → Ends (thread_schedule t))
      × Creates t
calls-IsValid t run =
    let v = Reach-IsValid thread_init-IsValid run in
    (v, yield-IsValid t v, exit-Ends t v, schedule_main t v, create-Creates t v)
