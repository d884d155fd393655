-- ===== src/Files/Count.antt =====
-- The reference counts of xv6/file.c.
use laboratorio_valen_el_noo.Base.{
  ℕ, ◌+◌, ◌-◌, ◌<◌, ◌≡◌, ◌≢◌, refl, sym, ap, ◌∙◌, inl, inr, Bool, true, false, some, List, ◌∷◌,
  ◌==◌, ltb, if◌then◌else◌, get_elem?, modify, find_index, find_index-some, get_elem?-modify_self,
  get_elem?-modify_ne, times, remove, times-remove, arith, Bool-cases, Option-cases,
}
use laboratorio_valen_el_noo.Files.{
  fd_none, File, ok, is_unused, filealloc, filedup, dup_entry, Closing, nothing, closing, fileclose,
  close_entry,
}

-- The table, and the entries that descriptors refer to, each as often as it is referred to.
pub record System : Type 0 where
  pub table : List File
  pub held : List ℕ

-- What a process may make of an entry that it holds: all but the count.
abbrev pub set_fields : File → File → File
set_fields g f = record g { ref = f.ref }

pub data Step (s : System) : System → Type 0 where
  open_file :
      (i : ℕ) (t : List File)
      → filealloc s.table ≡ (some i, t)
      → Step s (record { table = t; held = i ∷ s.held })
  set_up :
      (i : ℕ) (g : File)
      → 0 < times i s.held
      → Step s (record s { table = modify s.table i (set_fields g) })
  dup_file :
      (i : ℕ) (t : List File)
      → 0 < times i s.held
      → filedup i s.table ≡ ok t
      → Step s (record { table = t; held = i ∷ s.held })
  close_file :
      (i : ℕ) (c : Closing) (t : List File)
      → 0 < times i s.held
      → fileclose i s.table ≡ ok (c, t)
      → Step s (record { table = t; held = remove i s.held })

pub data Reach (s : System) : System → Type 0 where
  here : Reach s s
  later : {t u : System} → Reach s t → Step t u → Reach s u

-- Each count is the number of descriptors, and an entry with none has no type.
pub record IsCounted (s : System) : Type 0 where
  pub counts :
      (i : ℕ) (f : File)
      → get_elem? s.table i ≡ some f
      → (f.ref ≡ times i s.held) × (f.ref ≡ 0 → f.type ≡ fd_none)
  pub present : (i : ℕ) → 0 < times i s.held → (f : File) × (get_elem? s.table i ≡ some f)

-- One entry changes, and the descriptors of that entry.
change-IsCounted :
    (s : System) (i : ℕ) (f : File) (g : File → File) (held : List ℕ)
    → IsCounted s
    → get_elem? s.table i ≡ some f
    → ((g f).ref ≡ times i held)
    → ((g f).ref ≡ 0 → (g f).type ≡ fd_none)
    → ((j : ℕ) → i ≢ j → times j held ≡ times j s.held)
    → IsCounted (record { table = modify s.table i g; held = held })
change-IsCounted s i f g held v at count clear same = record {
  counts = λ j h e. elim (Bool-cases (i == j)) [
    | inl eq ↦
        let q : i ≡ j = ground (arith, eq) in
        let changed = get_elem?-modify_self s.table i g f at in
        let r : g f ≡ h = ground (arith, sym changed ∙ ap (get_elem? (modify s.table i g)) q ∙ e) in
        rw (← r, ← q) (count, clear)
    | inr ne ↦
        let apart : i ≢ j = λ q. ground (arith, q, ne) in
        let (a, b) = v.counts j h (sym (get_elem?-modify_ne s.table i j g apart) ∙ e) in
        (a ∙ sym (same j apart), b)
  ];
  present = λ j k. elim (Bool-cases (i == j)) [
    | inl eq ↦
        let q : i ≡ j = ground (arith, eq) in
        (g f, ap (get_elem? (modify s.table i g)) (sym q) ∙ get_elem?-modify_self s.table i g f at)
    | inr ne ↦
        let apart : i ≢ j = λ q. ground (arith, q, ne) in
        let (h, e) = v.present j (omega (arith, k, same j apart)) in
        (h, get_elem?-modify_ne s.table i j g apart ∙ e)
  ];
}

-- An entry that `filealloc` finds.
pub filealloc-some :
    (t u : List File) (i : ℕ)
    → filealloc t ≡ (some i, u)
    → (f : File) × (get_elem? t i ≡ some f)
      × (f.ref ≡ 0)
      × (u ≡ modify t i (λ g. record g { ref = 1 }))
unfolding filealloc
filealloc-some t u i e = elim (Option-cases (find_index is_unused t)) [
  | inl n ↦ absurd (ground (arith, e, n))
  | inr (j, k) ↦
      let same : j ≡ i = ground (arith, e, k) in
      let (f, at, z) = find_index-some is_unused t i (k ∙ ap some same) in
      (f, at, ground (arith, z), ground (arith, e, k, same))
]

-- What `filedup` and `fileclose` do at an entry that is there.
dup_at :
    (t u : List File) (i : ℕ) (f : File)
    → get_elem? t i ≡ some f
    → filedup i t ≡ ok u
    → u ≡ modify t i (λ x. record x { ref = f.ref + 1 })
unfolding filedup dup_entry
dup_at t u i f at e = elim (Bool-cases (ltb f.ref 1)) [
  | inl z ↦ absurd (ground (arith, sym (ap (λ o. dup_entry i o t) at) ∙ e, z))
  | inr p ↦ ground (arith, sym (ap (λ o. dup_entry i o t) at) ∙ e, p)
]

pub close_more :
    (t : List File) (i : ℕ) (f : File)
    → get_elem? t i ≡ some f
    → 1 < f.ref
    → fileclose i t ≡ ok (nothing, modify t i (λ x. record x { ref = f.ref - 1 }))
unfolding fileclose close_entry
close_more t i f at p = ap (λ o. close_entry i o t) at ∙ ground (arith, p)

pub close_last :
    (t : List File) (i : ℕ) (f : File)
    → get_elem? t i ≡ some f
    → f.ref ≡ 1
    → fileclose i t ≡ ok (closing f, modify t i (λ x. record x { ref = 0; type = fd_none }))
unfolding fileclose close_entry
close_last t i f at p = ap (λ o. close_entry i o t) at ∙ ground (arith, p)

open-IsCounted :
    (s : System) (i : ℕ) (t : List File)
    → filealloc s.table ≡ (some i, t)
    → IsCounted s
    → IsCounted (record { table = t; held = i ∷ s.held })
open-IsCounted s i t e v =
    let (f, at, z, r) = filealloc-some s.table t i e in
    let (a, b) = v.counts i f at in
    rw r (
      change-IsCounted s i f (λ g. record g { ref = 1 }) (i ∷ s.held) v at (ground (arith, a, z))
        (λ q. absurd (omega arith)) (λ j ne. ground (arith, ne)))

dup-IsCounted :
    (s : System) (i : ℕ) (t : List File)
    → 0 < times i s.held
    → filedup i s.table ≡ ok t
    → IsCounted s
    → IsCounted (record { table = t; held = i ∷ s.held })
dup-IsCounted s i t h e v =
    let (f, at) = v.present i h in
    let (a, b) = v.counts i f at in
    rw (dup_at s.table t i f at e) (
      change-IsCounted s i f (λ g. record g { ref = f.ref + 1 }) (i ∷ s.held) v at
        (ground (arith, a)) (λ q. absurd (omega arith)) (λ j ne. ground (arith, ne)))

close-IsCounted :
    (s : System) (i : ℕ) (c : Closing) (t : List File)
    → 0 < times i s.held
    → fileclose i s.table ≡ ok (c, t)
    → IsCounted s
    → IsCounted (record { table = t; held = remove i s.held })
close-IsCounted s i c t h e v =
    let (f, at) = v.present i h in
    let (a, b) = v.counts i f at in
    let fewer = times-remove i i s.held h in
    let others : (j : ℕ) → i ≢ j → times j (remove i s.held) ≡ times j s.held =
      λ j ne. ground (arith, times-remove i j s.held h, ne) in
    elim (Bool-cases (ltb 1 f.ref)) [
      | inl more ↦
          let r : t ≡ modify s.table i (λ x. record x { ref = f.ref - 1 }) =
            ground (arith, sym (close_more s.table i f at (ground (arith, more))) ∙ e) in
          rw r (
            change-IsCounted s i f (λ x. record x { ref = f.ref - 1 }) (remove i s.held) v at
              (ground (arith, a, fewer, more)) (λ q. absurd (ground (arith, more, q))) others)
      | inr last ↦
          let one : f.ref ≡ 1 = ground (arith, last, a, h) in
          let r : t ≡ modify s.table i (λ x. record x { ref = 0; type = fd_none }) =
            ground (arith, sym (close_last s.table i f at one) ∙ e) in
          rw r (
            change-IsCounted s i f (λ x. record x { ref = 0; type = fd_none }) (remove i s.held) v
              at (ground (arith, a, fewer, one)) (λ q. refl) others)
    ]

set_up-IsCounted :
    (s : System) (i : ℕ) (g : File)
    → 0 < times i s.held
    → IsCounted s
    → IsCounted (record s { table = modify s.table i (set_fields g) })
set_up-IsCounted s i g h v =
    let (f, at) = v.present i h in
    let (a, b) = v.counts i f at in
    change-IsCounted s i f (set_fields g) s.held v at a (λ q. absurd (omega (arith, a, q)))
      (λ j ne. refl)

pub Reach-IsCounted : {s t : System} → IsCounted s → Reach s t → IsCounted t
Reach-IsCounted v here = v
Reach-IsCounted v (later {t} r (open_file i u e)) = open-IsCounted t i u e (Reach-IsCounted v r)
Reach-IsCounted v (later {t} r (set_up i g h)) = set_up-IsCounted t i g h (Reach-IsCounted v r)
Reach-IsCounted v (later {t} r (dup_file i u h e)) = dup-IsCounted t i u h e (Reach-IsCounted v r)
Reach-IsCounted v (later {t} r (close_file i c u h e)) =
    close-IsCounted t i c u h e (Reach-IsCounted v r)

sym_if_true : (b : Bool) (c d : Closing) → b ≡ true → c ≡ (if b then c else d)
sym_if_true b c d h = rw h refl

sym_if_false : (b : Bool) (c d : Closing) → b ≡ false → d ≡ (if b then c else d)
sym_if_false b c d h = rw h refl

-- From a table in which every count is the number of descriptors and a free entry has no type, in
-- every state that processes reach by opening, setting up, duplicating and closing files: closing a
-- descriptor does not panic; it closes the pipe or the inode exactly when that was the last
-- descriptor of the file, and else nothing.
pub fileclose_last :
    (s t : System) (i : ℕ)
    → IsCounted s
    → Reach s t
    → 0 < times i t.held
    → (f : File) × (u : List File) × (get_elem? t.table i ≡ some f)
      × (fileclose i t.table ≡ ok ((if times i t.held == 1 then closing f else nothing), u))
fileclose_last s t i v r h =
    let w = Reach-IsCounted v r in
    let (f, at) = w.present i h in
    let (a, b) = w.counts i f at in
    elim (Bool-cases (times i t.held == 1)) [
      | inl one ↦ (
        f,
        modify t.table i (λ x. record x { ref = 0; type = fd_none }),
        at,
        close_last t.table i f at (ground (arith, a, one))
            ∙ ap
                (λ (c : Closing).
                  ok (c, modify t.table i (λ x. record x { ref = 0; type = fd_none })))
                (sym_if_true (times i t.held == 1) (closing f) nothing one),
      )
      | inr more ↦ (
        f,
        modify t.table i (λ x. record x { ref = f.ref - 1 }),
        at,
        close_more t.table i f at (ground (arith, a, more, h))
            ∙ ap (λ (c : Closing). ok (c, modify t.table i (λ x. record x { ref = f.ref - 1 })))
                (sym_if_false (times i t.held == 1) (closing f) nothing more),
      )
    ]
