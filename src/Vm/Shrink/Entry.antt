-- ===== src/Vm/Shrink/Entry.antt =====
-- `free_entry` at a user entry of xv6/vm.c that is present.
use laboratorio_valen_el_noo.Base.{
  ℕ, ◌+◌, ◌*◌, ◌/◌, ◌%◌, ◌<◌, ◌≡◌, ◌≢◌, refl, sym, ap, ◌∙◌, inl, inr, true, ◌∷◌, ◌==◌, arith,
  Bool-cases,
}
use laboratorio_valen_el_noo.Vm.{Vm, is_present, set_page, set_word}
use laboratorio_valen_el_noo.Vm.Own.{Fit}
use laboratorio_valen_el_noo.Vm.Space.{frame, own, own_frame, own_eq, user_entries, spare_pos}
use laboratorio_valen_el_noo.Vm.Space.{frame_zero, clear-IsMap, eq-IsMap}
use laboratorio_valen_el_noo.Vm.Walk.{entry, IsSpace}
use laboratorio_valen_el_noo.Vm.Walk.Write.{
  IsElsewhere, frame-IsElsewhere, set_page-root, set_page-entry, set_word-root, set_word-entry,
  set_word-entry_ne,
}
use laboratorio_valen_el_noo.Kalloc.{junk}
use laboratorio_valen_el_noo.Vm.Shrink.{Freed}

-- What `free_entry` does at an entry that is present.
abbrev pub freed : ℕ → ℕ → Vm → Vm
freed d m s =
    set_word (frame (s.words d (m / 1024))) (m % 1024) 0
      (record (set_page (frame (entry d s m)) (λ k. junk) s) {
        free = frame (entry d s m) ∷ s.free;
      })

two_writes :
    (b c i v k : ℕ) (s : Vm)
    → v ≢ b
    → v ≢ c
    → (set_word b i 0 (set_page c (λ k. junk) s)).words v k ≡ s.words v k
two_writes b c i v k s ne ne1 = ground (arith, ne, ne1)

module _ (d m : ℕ) (s : Vm) (a : IsSpace d s) (h : m < user_entries)
    (table : is_present (s.words d (m / 1024)) ≡ true) (p : is_present (entry d s m) ≡ true) where
  abbrev pub page : ℕ
  page = frame (entry d s m)

  abbrev filled : Vm
  filled = set_page (frame (entry d s m)) (λ k. junk) s

  page-IsElsewhere : IsElsewhere d s (frame (entry d s m))
  page-IsElsewhere = frame-IsElsewhere d s a m (frame (entry d s m)) h p refl

  filled-root : (k : ℕ) → filled.words d k ≡ s.words d k
  filled-root k = set_page-root d page k (λ k. junk) s page-IsElsewhere.not_root

  filled-entry : (l : ℕ) → l < 1048576 → entry d filled l ≡ entry d s l
  filled-entry l g = set_page-entry d page l (λ k. junk) s page-IsElsewhere g

  filled-IsSpace : IsSpace d filled
  filled-IsSpace =
      eq-IsMap s.kend d (s.words d) (entry d s) (filled.words d) (entry d filled) s.free a
        filled-root (λ l g. filled-entry l (omega arith))

  -- With the entry cleared; the table is where it was.
  abbrev emptied : Vm
  emptied = set_word (frame (filled.words d (m / 1024))) (m % 1024) 0 filled

  other_page :
      (l : ℕ)
      → l < user_entries
      → l ≢ m
      → is_present (entry d s l) ≡ true
      → frame (entry d s l) ≢ page
  other_page l g ne r z =
      let at = own_frame d l (s.words d) (entry d s) in
      let at1 = own_frame d m (s.words d) (entry d s) in
      let e =
        a.pages.apart (l + 1025) (m + 1025) (omega arith) (omega arith)
          (λ y. a.frames l g r (sym at ∙ y)) (at ∙ z ∙ sym at1) in
      ne (omega arith)

  emptied-Freed : Freed d m s (record emptied { free = page ∷ s.free })
  unfolding entry
  emptied-Freed =
      let i_lt : m / 1024 < 1024 = omega arith in
      let k_lt : m % 1024 < 1024 = omega arith in
      let at : m ≡ m / 1024 * 1024 + m % 1024 = omega arith in
      let q = ap is_present (filled-root (m / 1024)) ∙ table in
      let root = set_word-root d (m / 1024) (m % 1024) 0 filled filled-IsSpace i_lt k_lt q in
      let same = set_word-entry_ne d (m / 1024) (m % 1024) 0 filled filled-IsSpace i_lt k_lt q in
      let set = set_word-entry d (m / 1024) (m % 1024) 0 filled filled-IsSpace i_lt k_lt q m at in
      let all : (l : ℕ) → l < 1048576 → l ≢ m → entry d emptied l ≡ entry d s l =
        λ l g ne. same l g (λ e. ne (e ∙ sym at)) ∙ filled-entry l g in
      record {
        space =
            clear-IsMap s.kend d (s.words d) (entry d s) (emptied.words d) (entry d emptied) s.free
              a m page h p refl set (λ j. root j ∙ filled-root j)
              (λ l g ne. all l (omega arith) ne);
        gone = set;
        others = all;
        contents = λ l k g ne r.
            let v1 = frame (entry d s l) in
            let e = frame-IsElsewhere d s a l v1 g r refl in
            let off : v1 ≢ frame (filled.words d (m / 1024)) = λ z.
              e.not_table (m / 1024) i_lt table (sym (z ∙ ap frame (filled-root (m / 1024)))) in
            two_writes (frame (filled.words d (m / 1024))) page (m % 1024) v1 k s off
              (other_page l g ne r);
        gain = omega arith;
        spare = λ v u. record {
          unused = λ i l z. elim (Bool-cases (i == m + 1025)) [
            | inl same ↦
                let q : i ≡ m + 1025 = ground (arith, same) in
                spare_pos u (
                  sym z
                  ∙ ap (own d (emptied.words d) (entry d emptied)) q
                  ∙ own_frame d m (emptied.words d) (entry d emptied)
                  ∙ ap frame set
                  ∙ frame_zero)
            | inr other ↦
                let q : i ≢ m + 1025 = ground (arith, other) in
                u.unused i l (
                  sym (
                    own_eq d (s.words d) (entry d s) (emptied.words d) (entry d emptied) i l
                      (λ j g k. root j ∙ filled-root j)
                      (λ c g k. all c (omega arith) (λ w. q (g ∙ ap (λ x. x + 1025) w))))
                  ∙ z)
          ];
          off_list =
              let ne : v ≢ page = λ w.
                u.unused (m + 1025) (omega arith) (own_frame d m (s.words d) (entry d s) ∙ sym w) in
              let off = u.off_list in ground (arith, off, ne);
          fits = u.fits;
        };
        same_end = refl;
      }

  table-Freed :
      (b : ℕ)
      → frame (filled.words d (m / 1024)) ≡ b
      → Freed d m s (record (set_word b (m % 1024) 0 filled) { free = page ∷ s.free })
  table-Freed b e = rw (sym e) emptied-Freed

  pub freed-Freed : Freed d m s (freed d m s)
  freed-Freed = table-Freed (frame (s.words d (m / 1024))) (ap frame (filled-root (m / 1024)))

  pub Fit-page : Fit s.kend (frame (entry d s m))
  Fit-page =
      let at = own_frame d m (s.words d) (entry d s) in
      rw (sym at) (a.pages.fit (m + 1025) (omega arith) (λ z. a.frames m h p (sym at ∙ z)))
