-- ===== src/Vm/Walk/Enter.antt =====
-- `walkpgdir` of xv6/vm.c enters a new table in the directory.
use laboratorio_valen_el_noo.Base.{
  ℕ, suc, ◌+◌, ◌/◌, ◌%◌, ◌≤◌, ◌<◌, ◌≡◌, ◌≢◌, sym, ap, ◌∙◌, inl, inr, true, false, List, length,
  ◌==◌, if◌then◌else◌, times, arith, Bool-cases,
}
use laboratorio_valen_el_noo.Kalloc.{v2p}
use laboratorio_valen_el_noo.Vm.{Vm, is_present, set_page, set_word}
use laboratorio_valen_el_noo.Vm.Space.{frame, frame-pte, own, own_table, own_eq, table-IsMap}
use laboratorio_valen_el_noo.Vm.Walk.{cell, entry, IsSpace}
use laboratorio_valen_el_noo.Vm.Walk.Write.{IsUnused, spare-IsElsewhere, table_ne_root, cell_eq}

-- What `walkpgdir` with `alloc` set leaves, at page number `n`, once it returns word `k` of page `p`.
pub record Walked (d n p k : ℕ) (s t : Vm) : Type 0 where
  pub present : is_present (t.words d (n / 1024)) ≡ true
  pub page : p ≡ frame (t.words d (n / 1024))
  pub index : k ≡ n % 1024
  pub space : IsSpace d t
  pub entries : (m : ℕ) → m < 1048576 → entry d t m ≡ entry d s m
  pub spare : (v : ℕ) → IsUnused d s v → IsUnused d t v
  pub kept : (v x : ℕ) → v ≢ d → times v s.free ≡ 0 → t.words v x ≡ s.words v x
  pub listed : (v : ℕ) → times v s.free ≡ 0 → times v t.free ≡ 0
  pub cost : length s.free ≤ length t.free + 1
  pub same_end : t.kend ≡ s.kend

-- A new table, zeroed, is entered in the directory.
abbrev pub entered : ℕ → ℕ → ℕ → Vm → Vm
entered d i v s = set_word d i (v2p v + 7) (set_page v (λ k. 0) s)

module _ (d n v : ℕ) (s : Vm) (a : IsSpace d s) (u : IsUnused d s v) (h : n < 1048576)
    (p : is_present (s.words d (n / 1024)) ≡ false) where
  entered-root : (j : ℕ) → j ≢ n / 1024 → (entered d (n / 1024) v s).words d j ≡ s.words d j
  entered-root j ne = let r = (spare-IsElsewhere d s a v u).not_root in ground (arith, ne, r)

  pub entered-root_here : (entered d (n / 1024) v s).words d (n / 1024) ≡ v2p v + 7
  entered-root_here = ground arith

  zero_at : (k : ℕ) → v ≢ d → (entered d (n / 1024) v s).words v k ≡ 0
  zero_at k r = ground (arith, r)

  no_cell : (k : ℕ) → cell s.words (s.words d (n / 1024)) k ≡ 0
  no_cell k = ground (arith, p)

  pub entered-entry : (m : ℕ) → m < 1048576 → entry d (entered d (n / 1024) v s) m ≡ entry d s m
  unfolding entry
  entered-entry m l =
      let e = spare-IsElsewhere d s a v u in
      let (is_v, there) = frame-pte s.kend v 7 u.fits (omega arith) in
      elim (Bool-cases (m / 1024 == n / 1024)) [
        | inl same ↦
            let q : m / 1024 ≡ n / 1024 = ground (arith, same) in
            let r : v ≢ d = e.not_root in
            ap
              (λ i.
                cell (entered d (n / 1024) v s).words ((entered d (n / 1024) v s).words d i)
                  (m % 1024))
              q
            ∙ ap (λ x. cell (entered d (n / 1024) v s).words x (m % 1024)) entered-root_here
            ∙ ap
                (λ b.
                  if b then (entered d (n / 1024) v s).words (frame (v2p v + 7)) (m % 1024) else 0)
                there
            ∙ ap (λ y. (entered d (n / 1024) v s).words y (m % 1024)) is_v
            ∙ zero_at (m % 1024) r
            ∙ sym (ap (λ i. cell s.words (s.words d i) (m % 1024)) q ∙ no_cell (m % 1024))
        | inr other ↦
            let q : m / 1024 ≢ n / 1024 = ground (arith, other) in
            cell_eq (entered d (n / 1024) v s).words s.words _ (s.words d (m / 1024)) (m % 1024)
              (entered-root (m / 1024) q)
              (λ g.
                let b = e.not_table (m / 1024) (omega arith) g in
                let c = table_ne_root d s a (m / 1024) (omega arith) g in ground (arith, b, c))
      ]

  pub entered-IsSpace : IsSpace d (entered d (n / 1024) v s)
  entered-IsSpace =
      let (is_v, there) = frame-pte s.kend v 7 u.fits (omega arith) in
      table-IsMap s.kend d (s.words d) (entry d s) ((entered d (n / 1024) v s).words d)
        (entry d (entered d (n / 1024) v s)) s.free a (n / 1024) v u (omega arith)
        (ap frame entered-root_here ∙ is_v) entered-root (λ m l. entered-entry m (omega arith))

  pub entered-IsUnused : (w : ℕ) → w ≢ v → IsUnused d s w → IsUnused d (entered d (n / 1024) v s) w
  entered-IsUnused w ne x = record {
    unused = λ i l e. elim (Bool-cases (i == suc (n / 1024))) [
      | inl same ↦
          let (is_v, _) = frame-pte s.kend v 7 u.fits (omega arith) in
          let q : i ≡ suc (n / 1024) = ground (arith, same) in
          let at =
            own_table d (n / 1024) ((entered d (n / 1024) v s).words d)
              (entry d (entered d (n / 1024) v s)) (omega arith) in
          ne (
            sym e
            ∙ ap (own d ((entered d (n / 1024) v s).words d) (entry d (entered d (n / 1024) v s))) q
            ∙ at
            ∙ ap frame entered-root_here
            ∙ is_v)
      | inr other ↦
          let q : i ≢ suc (n / 1024) = ground (arith, other) in
          x.unused i l (
            sym (
              own_eq d (s.words d) (entry d s) ((entered d (n / 1024) v s).words d)
                (entry d (entered d (n / 1024) v s)) i l
                (λ j g k. entered-root j (λ z. q (g ∙ ap suc z)))
                (λ m g k. entered-entry m (omega arith)))
            ∙ e)
    ];
    off_list = x.off_list;
    fits = x.fits;
  }

-- With the first page of the list taken off it.
abbrev pub popped : List ℕ → Vm → Vm
popped vs s = record s { free = vs }
