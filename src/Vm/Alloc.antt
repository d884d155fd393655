-- ===== src/Vm/Alloc.antt =====
-- The loop of `allocuvm` of xv6/vm.c, and its two ways out.
use laboratorio_valen_el_noo.Base.{
  ℕ, zero, suc, ◌+◌, ◌-◌, ◌*◌, ◌/◌, ◌≤◌, ◌<◌, ◌≡◌, refl, sym, ap, ◌∙◌, ◌⊎◌, inl, inr, Bool, true,
  false, List, [], ◌∷◌, length, ltb, leb, arith, Bool-cases,
}
use laboratorio_valen_el_noo.Kalloc.{kernbase, address_range, v2p, pgsize}
use laboratorio_valen_el_noo.Vm.{Vm, is_present, kalloc}
use laboratorio_valen_el_noo.Vm.{Call, done, ◌>>=◌, mappages, add, kfree}
use laboratorio_valen_el_noo.Vm.Walk.{entry, IsSpace}
use laboratorio_valen_el_noo.Kalloc.{pg_round_up}
use laboratorio_valen_el_noo.Vm.{give_up, alloc_page, alloc_loop, allocuvm, pte_wu}
use laboratorio_valen_el_noo.Vm.Map.{mappages-Maps}
use laboratorio_valen_el_noo.Vm.Shrink.{Shrunk}
use laboratorio_valen_el_noo.Vm.Shrink.Loop.{deallocuvm-Shrunk, pages_to}
use laboratorio_valen_el_noo.Vm.Grow.{
  Grown, zeroed, zeroed-entry, zeroed-IsSpace, zeroed-IsUnused, Grown-more,
}
use laboratorio_valen_el_noo.Vm.Grow.Restore.{
  Restored, Shrunk-Restored, Restored-Grown, given, given-Restored,
}

-- What a call comes to: the pages are there, or memory has run out and all is as before.
abbrev pub Allocs : ℕ → ℕ → ℕ → Vm → Call ℕ → Type 0
Allocs d oldsz newsz s r =
    ((t : Vm) × (r ≡ done newsz t) × Grown d (pages_to oldsz) (pages_to newsz) s t)
    ⊎ ((t : Vm) × (r ≡ done 0 t)
        × Restored d (pages_to oldsz) (pages_to newsz) s t
        × (length s.free < 2 * (pages_to newsz - pages_to oldsz)))

Allocs-eq :
    (d oldsz newsz : ℕ) (s : Vm) (r q : Call ℕ)
    → r ≡ q
    → Allocs d oldsz newsz s q
    → Allocs d oldsz newsz s r
Allocs-eq d oldsz newsz s r q e h = rw (e) h

round_empty :
    (fuel d oldsz newsz a : ℕ) (s : Vm)
    → ltb a newsz ≡ true
    → s.free ≡ []
    → alloc_loop (suc fuel) d oldsz newsz a s ≡ give_up d oldsz newsz s
unfolding alloc_loop alloc_page kalloc
round_empty fuel d oldsz newsz a s more e = simp (alloc_loop, more, kalloc, e, alloc_page) refl

-- What follows the call of `mappages`.
abbrev after_map : ℕ → ℕ → ℕ → ℕ → ℕ → ℕ → Bool → Vm → Call ℕ
after_map fuel d oldsz newsz a v mapped t = elim mapped [
  | true ↦ alloc_loop fuel d oldsz newsz (add a pgsize) t
  | false ↦ give_up d oldsz newsz t >>= λ r u. kfree v u >>= λ _ w. done r w
]

round_page :
    (fuel d oldsz newsz a v : ℕ) (vs : List ℕ) (s : Vm)
    → ltb a newsz ≡ true
    → s.free ≡ v ∷ vs
    → alloc_loop (suc fuel) d oldsz newsz a s
      ≡ (mappages d a pgsize (v2p v) pte_wu (zeroed v vs s) >>= after_map fuel d oldsz newsz a v)
unfolding alloc_loop alloc_page kalloc
round_page fuel d oldsz newsz a v vs s more e = simp (alloc_loop, more, kalloc, e, alloc_page) refl

give_up-Shrunk :
    (d oldsz newsz : ℕ) (s : Vm)
    → IsSpace d s
    → newsz < kernbase
    → oldsz < newsz
    → (t : Vm) × (give_up d oldsz newsz s ≡ done 0 t)
      × Shrunk d (pages_to oldsz) (pages_to newsz) s t
unfolding give_up
give_up-Shrunk d oldsz newsz s a top h =
    let (t, run, r) = deallocuvm-Shrunk d newsz oldsz s a (omega arith) h in
    (t, ap (λ (c : Call ℕ). c >>= λ _ u. done 0 u) run, r)

module _ (d oldsz newsz : ℕ) (s0 : Vm) (top : newsz < kernbase)
    (absent : (m : ℕ)
      → pages_to oldsz ≤ m
      → m < pages_to newsz
      → is_present (entry d s0 m) ≡ false) where
  -- No page is left for the user.
  ends_empty :
      (fuel a m : ℕ) (s : Vm)
      → a ≡ m * 4096
      → pages_to oldsz ≤ m
      → ltb a newsz ≡ true
      → Grown d (pages_to oldsz) m s0 s
      → s.free ≡ []
      → Allocs d oldsz newsz s0 (alloc_loop (suc fuel) d oldsz newsz a s)
  ends_empty fuel a m s e low more g none_left =
      let lt : a < newsz = ground (arith, more) in
      let (t, run, r) = give_up-Shrunk d oldsz newsz s g.space top (omega arith) in
      inr (
        t,
        round_empty fuel d oldsz newsz a s more none_left ∙ run,
        Restored-Grown d (pages_to oldsz) m (pages_to newsz) s0 s t (omega arith) (omega arith) g
            (Shrunk-Restored d (pages_to oldsz) (pages_to newsz) s t r),
        omega (arith, g.cost, ap (length {A = ℕ}) none_left),
      )

  -- No page is left for a table.
  ends_table :
      (fuel a m v : ℕ) (vs : List ℕ) (s : Vm)
      → a ≡ m * 4096
      → pages_to oldsz ≤ m
      → ltb a newsz ≡ true
      → Grown d (pages_to oldsz) m s0 s
      → s.free ≡ v ∷ vs
      → vs ≡ []
      → mappages d a pgsize (v2p v) pte_wu (zeroed v vs s) ≡ done false (zeroed v vs s)
      → Allocs d oldsz newsz s0 (alloc_loop (suc fuel) d oldsz newsz a s)
  ends_table fuel a m v vs s e low more g is_free one run =
      let lt : a < newsz = ground (arith, more) in
      let (u, run1, r) =
        give_up-Shrunk d oldsz newsz (zeroed v vs s) (zeroed-IsSpace d v vs s is_free g.space) top
          (omega arith) in
      let (back, w) =
        given-Restored d (pages_to oldsz) (pages_to newsz) v vs s u is_free (omega arith) g.space
          r in
      inr (
        given v u,
        round_page fuel d oldsz newsz a v vs s more is_free
            ∙ ap (λ (c : Call Bool). c >>= after_map fuel d oldsz newsz a v) run
            ∙ ap (λ (c : Call ℕ). c >>= λ r u. kfree v u >>= λ _ w. done r w) run1
            ∙ ap (λ (c : Call Unit). c >>= λ _ w. done 0 w) back,
        Restored-Grown d (pages_to oldsz) m (pages_to newsz) s0 s (given v u) (omega arith)
            (omega arith) g w,
        omega (arith, g.cost, ap (length {A = ℕ}) is_free, ap (length {A = ℕ}) one),
      )

  from_list :
      (fuel a m : ℕ) (s : Vm)
      → a ≡ m * 4096
      → pages_to oldsz ≤ m
      → ltb a newsz ≡ true
      → newsz + 4096 ≤ a + suc fuel * 4096
      → Grown d (pages_to oldsz) m s0 s
      → ((b l : ℕ) (t : Vm)
          → b ≡ l * 4096
          → pages_to oldsz ≤ l
          → l ≤ pages_to newsz
          → newsz + 4096 ≤ b + fuel * 4096
          → Grown d (pages_to oldsz) l s0 t
          → Allocs d oldsz newsz s0 (alloc_loop fuel d oldsz newsz b t))
      → (free : List ℕ) → s.free ≡ free
      → Allocs d oldsz newsz s0 (alloc_loop (suc fuel) d oldsz newsz a s)
  from_list fuel a m s e low more room g again [] is_free =
      ends_empty fuel a m s e low more g is_free
  from_list fuel a m s e low more room g again (v ∷ vs) is_free =
      let lt : a < newsz = ground (arith, more) in
      let s1 = zeroed v vs s in
      let gone : is_present (entry d s1 m) ≡ false =
        ap is_present (
          zeroed-entry d v vs s is_free g.space m (omega arith)
          ∙ g.others m (omega arith) (inr (omega arith)))
        ∙ absent m low (omega arith) in
      elim (mappages-Maps d m v a pte_wu s1 (zeroed-IsSpace d v vs s is_free g.space)
        (zeroed-IsUnused d v vs s is_free g.space) (omega arith) e (omega arith) gone) [
          | inl (run, one) ↦ ends_table fuel a m v vs s e low more g is_free one run
          | inr (t, run, r) ↦
              let next : add a pgsize ≡ a + 4096 = omega arith in
              Allocs-eq d oldsz newsz s0 _ _
                (round_page fuel d oldsz newsz a v vs s more is_free
                  ∙ ap (λ (c : Call Bool). c >>= after_map fuel d oldsz newsz a v) run
                  ∙ ap (λ x. alloc_loop fuel d oldsz newsz x t) next)
                (again (a + 4096) (m + 1) t (omega arith) (omega arith) (omega arith) (omega arith)
                  (Grown-more d (pages_to oldsz) m v vs s0 s t is_free low (omega arith) g r))
        ]

  alloc_loop-Allocs :
      (fuel a m : ℕ) (s : Vm)
      → a ≡ m * 4096
      → pages_to oldsz ≤ m
      → m ≤ pages_to newsz
      → newsz + 4096 ≤ a + fuel * 4096
      → Grown d (pages_to oldsz) m s0 s
      → Allocs d oldsz newsz s0 (alloc_loop fuel d oldsz newsz a s)
  unfolding alloc_loop
  alloc_loop-Allocs zero a m s e low high room g = absurd (omega arith)
  alloc_loop-Allocs (suc fuel) a m s e low high room g = elim (Bool-cases (ltb a newsz)) [
    | inr last ↦
        let q : m ≡ pages_to newsz = ground (arith, last, e, high) in
        inl (s, rw (alloc_loop, last) refl, rw (sym q) g)
    | inl more ↦ from_list fuel a m s e low more room g (alloc_loop-Allocs fuel) s.free refl
  ]

Grown-none : (d lo : ℕ) (s : Vm) → IsSpace d s → Grown d lo lo s s
Grown-none d lo s a = record {
  space = a;
  mapped = λ m l h. absurd (omega arith);
  others = λ l h o. refl;
  contents = λ l k h o p. refl;
  cost = omega arith;
  same_end = refl;
}

-- `allocuvm` from `oldsz` up to `newsz`, with none of the entries in between present, never panics. It
-- returns 0, and leaves every entry as it was, if `newsz` is not below KERNBASE or memory runs out, with
-- fewer free pages than twice those wanted; or it returns `newsz`, each entry in between is present
-- for user mode, with a page of zeros, and every other entry, and the contents of its page, are as
-- before.
pub allocuvm-Allocs :
    (d oldsz newsz : ℕ) (s : Vm)
    → IsSpace d s
    → oldsz ≤ newsz
    → newsz < address_range
    → ((m : ℕ) → pages_to oldsz ≤ m → m < pages_to newsz → is_present (entry d s m) ≡ false)
    → ((kernbase ≤ newsz) × (allocuvm d oldsz newsz s ≡ done 0 s))
      ⊎ ((newsz < kernbase) × Allocs d oldsz newsz s (allocuvm d oldsz newsz s))
unfolding allocuvm pg_round_up
allocuvm-Allocs d oldsz newsz s a h wide absent = elim (Bool-cases (leb kernbase newsz)) [
  | inl large ↦ inl (ground (arith, large), rw (allocuvm, large) refl)
  | inr small ↦
      let top : newsz < kernbase = ground (arith, small) in
      let grows : ltb newsz oldsz ≡ false = ground (arith, h) in
      inr (
        top,
        Allocs-eq d oldsz newsz s _ _ (rw (allocuvm, small, grows) refl) (
            alloc_loop-Allocs d oldsz newsz s top absent (newsz / pgsize + 2) (pg_round_up oldsz)
              (pages_to oldsz) s (omega arith) (omega arith) (omega arith) (omega arith)
              (Grown-none d (pages_to oldsz) s a)),
      )
]
