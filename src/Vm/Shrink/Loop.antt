-- ===== src/Vm/Shrink/Loop.antt =====
-- The loop of `deallocuvm` of xv6/vm.c.
use laboratorio_valen_el_noo.Base.{
  ℕ, zero, suc, ◌+◌, ◌*◌, ◌/◌, ◌%◌, ◌≤◌, ◌<◌, ◌≡◌, refl, ap, ◌∙◌, ◌⊎◌, inl, inr, true, false, ◌∷◌,
  ◌==◌, ltb, leb, arith, Bool-cases,
}
use laboratorio_valen_el_noo.Kalloc.{kernbase, pgsize}
use laboratorio_valen_el_noo.Vm.{Vm, p2v, pte_addr, is_present, set_page, set_word}
use laboratorio_valen_el_noo.Vm.Own.{Fit}
use laboratorio_valen_el_noo.Vm.Space.{frame, user_entries}
use laboratorio_valen_el_noo.Vm.{
  done, add, kfree, free_entry, dealloc_at, dealloc_loop, deallocuvm, next_table,
}
use laboratorio_valen_el_noo.Vm.Walk.{entry, IsSpace}
use laboratorio_valen_el_noo.Vm.Walk.Whole.{walk_there, walkpgdir-none}
use laboratorio_valen_el_noo.Vm.Map.{present-entry}
use laboratorio_valen_el_noo.Kalloc.{junk, pg_round_up}
use laboratorio_valen_el_noo.Vm.Shrink.{Shrunk, Freed, Shrunk-none, Shrunk-skip, Shrunk-Freed}
use laboratorio_valen_el_noo.Vm.Shrink.Entry.{freed, freed-Freed, Fit-page}

frame_at : (x : ℕ) → is_present x ≡ true → p2v (pte_addr x) ≡ frame x
unfolding frame
frame_at x p = ground (arith, p)

free_entry_at :
    (v k x : ℕ) (s : Vm)
    → s.words v k ≡ x
    → is_present x ≡ true
    → Fit s.kend (frame x)
    → free_entry v k s
      ≡ done tt
          (set_word v k 0 (record (set_page (frame x) (λ k. junk) s) { free = frame x ∷ s.free }))
unfolding free_entry kfree
free_entry_at v k x s e p (r, b, c) =
    let p1 : is_present (s.words v k) ≡ true = ap is_present e ∙ p in
    let at : p2v (pte_addr (s.words v k)) ≡ frame x = ap (λ y. p2v (pte_addr y)) e ∙ frame_at x p in
    let whole : (pte_addr (s.words v k) == 0) ≡ false =
      let b0 : kernbase < p2v (pte_addr (s.words v k)) = omega (arith, at, b) in
      ground (arith, b0) in
    rw (free_entry, p1, whole, at, kfree, r) refl

free_entry_absent :
    (v k : ℕ) (s : Vm) → is_present (s.words v k) ≡ false → free_entry v k s ≡ done tt s
unfolding free_entry
free_entry_absent v k s p = rw (free_entry, p) refl

-- A round of the loop at a page number in the user part.
dealloc_round_table :
    (fuel d a m oldsz : ℕ) (s : Vm)
    → IsSpace d s
    → a ≡ m * 4096
    → m < user_entries
    → ltb a oldsz ≡ true
    → is_present (s.words d (m / 1024)) ≡ true
    → (t : Vm) × (dealloc_loop (suc fuel) d oldsz a s ≡ dealloc_loop fuel d oldsz (a + 4096) t)
      × (((t ≡ s) × (is_present (entry d s m) ≡ false)) ⊎ Freed d m s t)
unfolding dealloc_loop dealloc_at
dealloc_round_table fuel d a m oldsz s v e h more table =
    let walk = walk_there d a m s v (omega arith) (omega arith) table false in
    let next : add a pgsize ≡ a + 4096 = omega arith in
    let at = present-entry d m s table in
    elim (Bool-cases (is_present (entry d s m))) [
      | inl p ↦ (
        freed d m s,
        rw
            (
              dealloc_loop,
              more,
              walk,
              dealloc_at,
              free_entry_at (frame (s.words d (m / 1024))) (m % 1024) (entry d s m) s at p
                  (Fit-page d m s v h table p),
              next,
            )
            refl,
        inr (freed-Freed d m s v h table p),
      )
      | inr p ↦ (
        s,
        rw
            (
              dealloc_loop,
              more,
              walk,
              dealloc_at,
              free_entry_absent _ _ s (ap is_present at ∙ p),
              next,
            )
            refl,
        inl (refl, p),
      )
    ]

dealloc_round_none :
    (fuel d a m oldsz : ℕ) (s : Vm)
    → a ≡ m * 4096
    → m < user_entries
    → ltb a oldsz ≡ true
    → is_present (s.words d (m / 1024)) ≡ false
    → dealloc_loop (suc fuel) d oldsz a s
      ≡ dealloc_loop fuel d oldsz ((m / 1024 + 1) * 1024 * 4096) s
unfolding dealloc_loop dealloc_at
dealloc_round_none fuel d a m oldsz s e h more table =
    let walk = walkpgdir-none d a m s (omega arith) table in
    let next : add (next_table a) pgsize ≡ (m / 1024 + 1) * 1024 * 4096 = omega arith in
    rw (dealloc_loop, more, walk, dealloc_at, next) refl

no_entry :
    (d m : ℕ) (s : Vm)
    → is_present (s.words d (m / 1024)) ≡ false
    → is_present (entry d s m) ≡ false
unfolding entry
no_entry d m s p = let e : entry d s m ≡ 0 = ground (arith, p) in ap is_present e

-- The page numbers below `oldsz`.
abbrev pub pages_to : ℕ → ℕ
pages_to sz = (sz + 4095) / 4096

dealloc_loop-Shrunk :
    (fuel d a m oldsz : ℕ) (s : Vm)
    → IsSpace d s
    → a ≡ m * 4096
    → oldsz ≤ kernbase
    → 0 < fuel
    → oldsz + 4096 ≤ a + fuel * 4096
    → (t : Vm) × (dealloc_loop fuel d oldsz a s ≡ done tt t) × Shrunk d m (pages_to oldsz) s t
unfolding dealloc_loop
dealloc_loop-Shrunk zero d a m oldsz s v e top pos room = absurd (omega arith)
dealloc_loop-Shrunk (suc fuel) d a m oldsz s v e top pos room = elim (Bool-cases (ltb a oldsz)) [
  | inr last ↦ (
    s,
    rw (dealloc_loop, last) refl,
    Shrunk-none d m (pages_to oldsz) s v (ground (arith, last, e)),
  )
  | inl more ↦
      let lt : a < oldsz = ground (arith, more) in
      let low : m < user_entries = omega arith in
      elim (Bool-cases (is_present (s.words d (m / 1024)))) [
        | inl table ↦
            let (t, run, effect) = dealloc_round_table fuel d a m oldsz s v e low more table in
            elim effect [
              | inl (same, absent) ↦
                  let (u, run1, r) =
                    dealloc_loop-Shrunk fuel d (a + 4096) (m + 1) oldsz s v (omega arith) top
                      (omega arith) (omega arith) in
                  (
                    u,
                    run ∙ ap (dealloc_loop fuel d oldsz (a + 4096)) same ∙ run1,
                    Shrunk-skip d m (m + 1) (pages_to oldsz) s u (omega arith) (omega arith)
                        (λ l g k q.
                          let is_m : l ≡ m = omega arith in
                          ap (λ x. is_present (entry d s x)) is_m ∙ absent)
                        r,
                  )
              | inr f ↦
                  let (u, run1, r) =
                    dealloc_loop-Shrunk fuel d (a + 4096) (m + 1) oldsz t f.space (omega arith) top
                      (omega arith) (omega arith) in
                  (
                    u,
                    run ∙ run1,
                    Shrunk-Freed d m (pages_to oldsz) s t u (omega arith) (omega arith) f r,
                  )
            ]
        | inr table ↦
            let (t, run, r) =
              dealloc_loop-Shrunk fuel d ((m / 1024 + 1) * 1024 * 4096) ((m / 1024 + 1) * 1024)
                oldsz s v refl top (omega arith) (omega arith) in
            (
              t,
              dealloc_round_none fuel d a m oldsz s e low more table ∙ run,
              Shrunk-skip d m ((m / 1024 + 1) * 1024) (pages_to oldsz) s t (omega arith)
                  (omega arith)
                  (λ l g k q. no_entry d l s (
                    let same : l / 1024 ≡ m / 1024 = omega arith in
                    ap (λ i. is_present (s.words d i)) same ∙ table))
                  r,
            )
      ]
]

-- In the user part, `deallocuvm` from `oldsz` down to `newsz` does not panic and returns `newsz`: no
-- entry from the first page past `newsz` up to `oldsz` is present afterwards, the free list is no
-- shorter, the pages in use stay apart from each other and from the free ones, and every other entry,
-- and the contents of its page, are as before.
pub deallocuvm-Shrunk :
    (d oldsz newsz : ℕ) (s : Vm)
    → IsSpace d s
    → oldsz ≤ kernbase
    → newsz < oldsz
    → (t : Vm) × (deallocuvm d oldsz newsz s ≡ done newsz t)
      × Shrunk d (pages_to newsz) (pages_to oldsz) s t
unfolding deallocuvm pg_round_up
deallocuvm-Shrunk d oldsz newsz s v top h =
    let more : leb oldsz newsz ≡ false = ground (arith, h) in
    let (t, run, r) =
      dealloc_loop-Shrunk (oldsz / pgsize + 2) d (pg_round_up newsz) (pages_to newsz) oldsz s v
        (omega arith) top (omega arith) (omega arith) in
    (t, rw (deallocuvm, more, run) refl, r)
