-- ===== src/Vm/Space.antt =====
-- Address spaces of xv6/vm.c: a page directory and the entries of its tables, as functions, with the
-- pages that they use.
use laboratorio_valen_el_noo.Base.{
  ℕ, zero, suc, ◌+◌, ◌-◌, ◌%◌, ◌≤◌, ◌<◌, ◌≡◌, ◌≢◌, refl, sym, ap, ◌∙◌, inl, inr, true, List, ◌∷◌,
  ◌==◌, ltb, if◌then◌else◌, arith, Bool-cases,
}
use laboratorio_valen_el_noo.Kalloc.{refused, kernbase, address_range, v2p}
use laboratorio_valen_el_noo.Vm.{p2v, pte_addr, pte, is_present}
use laboratorio_valen_el_noo.Vm.Own.{Fit, IsApart, IsSpare, place-IsApart, drop-IsApart, eq-IsApart}

-- The page that an entry refers to, or 0.
unfoldable pub frame : ℕ → ℕ
frame x = if is_present x then p2v (pte_addr x) else 0

-- Users of pages: the directory, its tables, and the user entries, which are those below KERNBASE.
abbrev pub user_entries : ℕ
user_entries = 524288

abbrev pub users : ℕ
users = 525313

abbrev pub own : ℕ → (ℕ → ℕ) → (ℕ → ℕ) → ℕ → ℕ
own d dir ent k =
    if k == 0 then d else if ltb k 1025 then frame (dir (k - 1)) else frame (ent (k - 1025))

-- The directory `dir` at page `d`, with the entries `ent`, uses pages that are apart.
pub record IsMap (kend d : ℕ) (dir ent : ℕ → ℕ) (free : List ℕ) : Type 0 where
  pub pages : IsApart kend users (own d dir ent) free
  pub tables : (i : ℕ) → i < 1024 → is_present (dir i) ≡ true → frame (dir i) ≢ 0
  pub frames : (m : ℕ) → m < user_entries → is_present (ent m) ≡ true → frame (ent m) ≢ 0
  pub root : d ≢ 0

-- An entry made for a page that fits refers to it.
pub frame-pte :
    (kend v perm : ℕ)
    → Fit kend v
    → perm < 4096
    → (frame (pte (v2p v) perm) ≡ v) × (is_present (pte (v2p v) perm) ≡ true)
unfolding v2p refused frame
frame-pte kend v perm (r, a, b) h =
    let whole : v % 4096 ≡ 0 = ground (arith, r) in
    let low : (v + address_range - kernbase) % address_range ≡ v - kernbase = omega arith in
    let p : is_present (pte (v - kernbase) perm) ≡ true = ground (arith, whole) in
    let q : pte_addr (pte (v - kernbase) perm) ≡ v - kernbase = omega arith in
    let e : p2v (v - kernbase) ≡ v = omega arith in
    (
      ap (λ x. frame (pte x perm)) low ∙ ground (arith, p, ap p2v q ∙ e),
      ap (λ x. is_present (pte x perm)) low ∙ p,
    )

pub frame_zero : frame 0 ≡ 0
unfolding frame
frame_zero = refl

pub own_eq :
    (d : ℕ) (dir ent dir1 ent1 : ℕ → ℕ) (k : ℕ)
    → k < users
    → ((j : ℕ) → k ≡ suc j → j < 1024 → dir1 j ≡ dir j)
    → ((m : ℕ) → k ≡ m + 1025 → m < user_entries → ent1 m ≡ ent m)
    → own d dir1 ent1 k ≡ own d dir ent k
own_eq d dir ent dir1 ent1 zero h p q = refl
own_eq d dir ent dir1 ent1 (suc j) h p q = elim (Bool-cases (ltb (suc j) 1025)) [
  | inl low ↦
      let k : suc j - 1 ≡ j = omega arith in
      let e = ap frame (ap dir1 k ∙ p j refl (ground (arith, low)) ∙ sym (ap dir k)) in
      ground (arith, low, e)
  | inr high ↦
      let k : 1025 ≤ suc j = ground (arith, high) in
      let e = ap frame (q (suc j - 1025) (omega arith) (omega arith)) in ground (arith, high, e)
]

pub spare_pos : {kend n v : ℕ} {o : ℕ → ℕ} {free : List ℕ} → IsSpare kend n o free v → v ≢ 0
spare_pos s z = let (_, p, _) = s.fits in omega arith

pub own_table : (d i : ℕ) (dir ent : ℕ → ℕ) → i < 1024 → own d dir ent (suc i) ≡ frame (dir i)
own_table d i dir ent h =
    let e : frame (dir (suc i - 1)) ≡ frame (dir i) = ap (λ x. frame (dir x)) (omega arith) in
    ground (arith, h, e)

pub own_frame : (d m : ℕ) (dir ent : ℕ → ℕ) → own d dir ent (m + 1025) ≡ frame (ent m)
own_frame d m dir ent =
    let e : frame (ent (m + 1025 - 1025)) ≡ frame (ent m) = ap (λ x. frame (ent x)) (omega arith) in
    ground (arith, e)

module _ (kend d : ℕ) (dir ent dir1 ent1 : ℕ → ℕ) (free : List ℕ)
    (a : IsMap kend d dir ent free) where
  -- A spare page becomes the table at an empty entry `i` of the directory.
  pub table-IsMap :
      (i v : ℕ)
      → IsSpare kend users (own d dir ent) free v
      → i < 1024
      → frame (dir1 i) ≡ v
      → ((j : ℕ) → j ≢ i → dir1 j ≡ dir j)
      → ((m : ℕ) → m < user_entries → ent1 m ≡ ent m)
      → IsMap kend d dir1 ent1 free
  table-IsMap i v s h at dirs ents = record {
    pages =
        place-IsApart kend users (own d dir ent) free v (suc i) (own d dir1 ent1) a.pages s
          (omega arith) (own_table d i dir1 ent1 h ∙ at)
          (λ k l ne.
            own_eq d dir ent dir1 ent1 k l (λ j e g. dirs j (λ z. ne (e ∙ ap suc z)))
              (λ m e g. ents m g));
    tables = λ j l p. elim (Bool-cases (j == i)) [
      | inl e ↦
          let q : j ≡ i = ground (arith, e) in
          λ z. spare_pos s (sym at ∙ ap (λ x. frame (dir1 x)) (sym q) ∙ z)
      | inr e ↦
          let q = dirs j (ground (arith, e)) in
          λ z. a.tables j l (ap is_present (sym q) ∙ p) (ap frame (sym q) ∙ z)
    ];
    frames = λ m l p.
        let e = ents m l in λ z. a.frames m l (ap is_present (sym e) ∙ p) (ap frame (sym e) ∙ z);
    root = a.root;
  }

  -- A spare page becomes the one of an empty user entry `m`.
  pub frame-IsMap :
      (m v : ℕ)
      → IsSpare kend users (own d dir ent) free v
      → m < user_entries
      → frame (ent1 m) ≡ v
      → ((j : ℕ) → dir1 j ≡ dir j)
      → ((l : ℕ) → l < user_entries → l ≢ m → ent1 l ≡ ent l)
      → IsMap kend d dir1 ent1 free
  frame-IsMap m v s h at dirs ents = record {
    pages =
        place-IsApart kend users (own d dir ent) free v (m + 1025) (own d dir1 ent1) a.pages s
          (omega arith) (own_frame d m dir1 ent1 ∙ at)
          (λ k l ne.
            own_eq d dir ent dir1 ent1 k l (λ j e g. dirs j)
              (λ i e g. ents i g (λ z. ne (e ∙ ap (λ x. x + 1025) z))));
    tables = λ j l p.
        let q = dirs j in λ z. a.tables j l (ap is_present (sym q) ∙ p) (ap frame (sym q) ∙ z);
    frames = λ i l p. elim (Bool-cases (i == m)) [
      | inl e ↦
          let q : i ≡ m = ground (arith, e) in
          λ z. spare_pos s (sym at ∙ ap (λ x. frame (ent1 x)) (sym q) ∙ z)
      | inr e ↦
          let q = ents i l (ground (arith, e)) in
          λ z. a.frames i l (ap is_present (sym q) ∙ p) (ap frame (sym q) ∙ z)
    ];
    root = a.root;
  }

  -- The page of a user entry `m` goes onto the free list.
  pub clear-IsMap :
      (m v : ℕ)
      → m < user_entries
      → is_present (ent m) ≡ true
      → frame (ent m) ≡ v
      → ent1 m ≡ 0
      → ((j : ℕ) → dir1 j ≡ dir j)
      → ((l : ℕ) → l < user_entries → l ≢ m → ent1 l ≡ ent l)
      → IsMap kend d dir1 ent1 (v ∷ free)
  clear-IsMap m v h here at gone dirs ents = record {
    pages =
        drop-IsApart kend users (own d dir ent) (own d dir1 ent1) free v (m + 1025) a.pages
          (omega arith) (own_frame d m dir ent ∙ at) (λ z. a.frames m h here (at ∙ z))
          (own_frame d m dir1 ent1 ∙ ap frame gone ∙ frame_zero)
          (λ k l ne.
            own_eq d dir ent dir1 ent1 k l (λ j e g. dirs j)
              (λ i e g. ents i g (λ z. ne (e ∙ ap (λ x. x + 1025) z))));
    tables = λ j l p.
        let q = dirs j in λ z. a.tables j l (ap is_present (sym q) ∙ p) (ap frame (sym q) ∙ z);
    frames = λ i l p. elim (Bool-cases (i == m)) [
      | inl e ↦
          let q : i ≡ m = ground (arith, e) in
          absurd (ground (arith, p, ap is_present (ap ent1 q ∙ gone)))
      | inr e ↦
          let q = ents i l (ground (arith, e)) in
          λ z. a.frames i l (ap is_present (sym q) ∙ p) (ap frame (sym q) ∙ z)
    ];
    root = a.root;
  }

  -- The same entries.
  pub eq-IsMap :
      ((j : ℕ) → dir1 j ≡ dir j)
      → ((l : ℕ) → l < user_entries → ent1 l ≡ ent l)
      → IsMap kend d dir1 ent1 free
  eq-IsMap dirs ents = record {
    pages =
        eq-IsApart kend users (own d dir ent) (own d dir1 ent1) free
          (λ k l. own_eq d dir ent dir1 ent1 k l (λ j e g. dirs j) (λ m e g. ents m g)) a.pages;
    tables = λ j l p.
        let q = dirs j in λ z. a.tables j l (ap is_present (sym q) ∙ p) (ap frame (sym q) ∙ z);
    frames = λ i l p.
        let q = ents i l in λ z. a.frames i l (ap is_present (sym q) ∙ p) (ap frame (sym q) ∙ z);
    root = a.root;
  }
