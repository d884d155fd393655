-- ===== src/Vm/Walk/Write.antt =====
-- Writes to pages that are not of an address space, and to entries of its tables.
use laboratorio_valen_el_noo.Base.{
  ℕ, suc, ◌+◌, ◌*◌, ◌/◌, ◌%◌, ◌<◌, ◌≡◌, ◌≢◌, sym, ap, ap₂, ◌∙◌, inl, inr, true, ◌==◌, arith,
  Bool-cases,
}
use laboratorio_valen_el_noo.Vm.{Vm, is_present, set_page, set_word}
use laboratorio_valen_el_noo.Vm.Own.{IsSpare}
use laboratorio_valen_el_noo.Vm.Space.{frame, own, own_table, own_frame, users, user_entries}
use laboratorio_valen_el_noo.Vm.Walk.{cell, entry, IsSpace}

-- Page `v` is not the directory, nor one of its tables.
pub record IsElsewhere (d : ℕ) (s : Vm) (v : ℕ) : Type 0 where
  pub not_root : v ≢ d
  pub not_table : (i : ℕ) → i < 1024 → is_present (s.words d i) ≡ true → frame (s.words d i) ≢ v

abbrev pub IsUnused : ℕ → Vm → ℕ → Type 0
IsUnused d s v = IsSpare s.kend users (own d (s.words d) (entry d s)) s.free v

module _ (d : ℕ) (s : Vm) (a : IsSpace d s) where
  pub spare-IsElsewhere : (v : ℕ) → IsUnused d s v → IsElsewhere d s v
  spare-IsElsewhere v u = record {
    not_root = λ e. u.unused 0 (omega arith) (sym e);
    not_table =
        λ i h p e. u.unused (suc i) (omega arith) (own_table d i (s.words d) (entry d s) h ∙ e);
  }

  -- The page of a user entry.
  pub frame-IsElsewhere :
      (m v : ℕ)
      → m < user_entries
      → is_present (entry d s m) ≡ true
      → frame (entry d s m) ≡ v
      → IsElsewhere d s v
  frame-IsElsewhere m v h p e =
      let at : own d (s.words d) (entry d s) (m + 1025) ≡ v =
        own_frame d m (s.words d) (entry d s) ∙ e in
      let full : own d (s.words d) (entry d s) (m + 1025) ≢ 0 =
        λ z. a.frames m h p (e ∙ sym at ∙ z) in
      record {
        not_root = λ r.
            absurd
              (omega (arith, a.pages.apart (m + 1025) 0 (omega arith) (omega arith) full (at ∙ r)));
        not_table = λ i l q t. absurd (
            omega (
              arith,
              a.pages.apart (m + 1025) (suc i) (omega arith) (omega arith) full
                  (at ∙ sym t ∙ sym (own_table d i (s.words d) (entry d s) l)),
            ));
      }

  pub table_ne_root : (i : ℕ) → i < 1024 → is_present (s.words d i) ≡ true → frame (s.words d i) ≢ d
  table_ne_root i h p e =
      let at = own_table d i (s.words d) (entry d s) h in
      absurd (
        omega (
          arith,
          a.pages.apart (suc i) 0 (omega arith) (omega arith) (λ z. a.tables i h p (sym at ∙ z))
              (at ∙ e),
        ))

  pub table_inj :
      (i j : ℕ)
      → i < 1024
      → j < 1024
      → is_present (s.words d i) ≡ true
      → frame (s.words d i) ≡ frame (s.words d j)
      → i ≡ j
  table_inj i j h l p e =
      let at = own_table d i (s.words d) (entry d s) h in
      let at1 = own_table d j (s.words d) (entry d s) l in
      omega (
        arith,
        a.pages.apart (suc i) (suc j) (omega arith) (omega arith) (λ z. a.tables i h p (sym at ∙ z))
            (at ∙ e ∙ sym at1),
      )

pub cell_eq :
    (f g : ℕ → ℕ → ℕ) (x y k : ℕ)
    → x ≡ y
    → (is_present y ≡ true → f (frame y) k ≡ g (frame y) k)
    → cell f x k ≡ cell g y k
cell_eq f g x y k e h = ap (λ z. cell f z k) e ∙ elim (Bool-cases (is_present y)) [
  | inl p ↦ ground (arith, p, h p)
  | inr p ↦ ground (arith, p)
]

-- A write to a page elsewhere.
pub set_page-root :
    (d v k : ℕ) (w : ℕ → ℕ) (s : Vm) → v ≢ d → (set_page v w s).words d k ≡ s.words d k
set_page-root d v k w s h = ground (arith, h)

pub set_page-entry :
    (d v m : ℕ) (w : ℕ → ℕ) (s : Vm)
    → IsElsewhere d s v
    → m < 1048576
    → entry d (set_page v w s) m ≡ entry d s m
unfolding entry
set_page-entry d v m w s h l =
    cell_eq (set_page v w s).words s.words _ (s.words d (m / 1024)) (m % 1024)
      (set_page-root d v (m / 1024) w s h.not_root)
      (λ p. let ne = h.not_table (m / 1024) (omega arith) p in ground (arith, ne))

-- A write to an entry of a table.
module _ (d i k x : ℕ) (s : Vm) (a : IsSpace d s) (h : i < 1024) (l : k < 1024)
    (p : is_present (s.words d i) ≡ true) where
  pub set_word-root : (j : ℕ) → (set_word (frame (s.words d i)) k x s).words d j ≡ s.words d j
  set_word-root j = let ne = table_ne_root d s a i h p in ground (arith, ne)

  pub set_word-entry :
      (m : ℕ) → m ≡ i * 1024 + k → entry d (set_word (frame (s.words d i)) k x s) m ≡ x
  unfolding entry
  set_word-entry m e =
      let q : m / 1024 ≡ i = omega arith in
      let r : m % 1024 ≡ k = omega arith in
      ap₂
        (λ b c.
          cell (set_word (frame (s.words d i)) k x s).words
            ((set_word (frame (s.words d i)) k x s).words d b) c)
        q r
      ∙ ap (λ y. cell (set_word (frame (s.words d i)) k x s).words y k) (set_word-root i)
      ∙ ground (arith, p)

  pub set_word-entry_ne :
      (m : ℕ)
      → m < 1048576
      → m ≢ i * 1024 + k
      → entry d (set_word (frame (s.words d i)) k x s) m ≡ entry d s m
  unfolding entry
  set_word-entry_ne m g ne =
      cell_eq (set_word (frame (s.words d i)) k x s).words s.words _ (s.words d (m / 1024))
        (m % 1024) (set_word-root (m / 1024))
        (λ q. elim (Bool-cases (m / 1024 == i)) [
          | inl e ↦
              let other : m % 1024 ≢ k =
                let e1 : m / 1024 ≡ i = ground (arith, e) in λ z. ne (omega arith) in
              ground (arith, other)
          | inr e ↦
              let e1 : m / 1024 ≢ i = ground (arith, e) in
              let apart : frame (s.words d (m / 1024)) ≢ frame (s.words d i) =
                λ z. e1 (table_inj d s a (m / 1024) i (omega arith) h q z) in
              ground (arith, apart)
        ])
