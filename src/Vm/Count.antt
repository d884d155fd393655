-- ===== src/Vm/Count.antt =====
-- `sys_pgcnt` of xv6/sysproc.c counts the pages of a process that user mode may reach.
use laboratorio_valen_el_noo.Base.{
  ℕ, zero, suc, ◌+◌, ◌-◌, ◌*◌, ◌/◌, ◌%◌, ◌≤◌, ◌<◌, ◌≡◌, refl, sym, ap, ap₂, ◌∙◌, ◌⊎◌, inl, inr,
  Bool, true, false, ltb, leb, if◌then◌else◌, arith, Bool-cases,
}
use laboratorio_valen_el_noo.Kalloc.{address_range}
use laboratorio_valen_el_noo.Vm.{Vm, p2v, pte_addr, is_present, is_user}
use laboratorio_valen_el_noo.Vm.Space.{frame}
use laboratorio_valen_el_noo.Vm.{done}
use laboratorio_valen_el_noo.Vm.Walk.{cell, entry, IsSpace}
use laboratorio_valen_el_noo.Vm.{allocuvm}
use laboratorio_valen_el_noo.Vm.Shrink.Loop.{pages_to}
use laboratorio_valen_el_noo.Vm.{entries, count_table, count_directory, sys_pgcnt}
use laboratorio_valen_el_noo.Vm.Alloc.{allocuvm-Allocs}
use laboratorio_valen_el_noo.Base.{to_ℕ, ◌&&◌}

abbrev pub is_user_page : ℕ → Bool
is_user_page x = is_present x && is_user x

-- How many of the entries below `n` are present for user mode.
pub user_pages : ℕ → (ℕ → ℕ) → ℕ
user_pages zero ent = 0
user_pages (suc n) ent = user_pages n ent + to_ℕ (is_user_page (ent n))

user_pages-count_table :
    (n : ℕ) (w ent : ℕ → ℕ) → ((k : ℕ) → k < n → w k ≡ ent k) → count_table n w ≡ user_pages n ent
unfolding count_table user_pages
user_pages-count_table zero w ent h = refl
user_pages-count_table (suc n) w ent h =
    let rest = user_pages-count_table n w ent (λ k l. h k (omega arith)) in
    ground (arith, rest, h n (omega arith))

user_pages_absent :
    (n : ℕ) (ent : ℕ → ℕ) → ((k : ℕ) → k < n → is_present (ent k) ≡ false) → user_pages n ent ≡ 0
unfolding user_pages
user_pages_absent zero ent h = refl
user_pages_absent (suc n) ent h =
    let rest = user_pages_absent n ent (λ k l. h k (omega arith)) in
    ground (arith, rest, h n (omega arith))

user_pages_split :
    (n a : ℕ) (ent : ℕ → ℕ)
    → user_pages (a + n) ent ≡ user_pages a ent + user_pages n (λ k. ent (a + k))
unfolding user_pages
user_pages_split zero a ent =
    let e : a + 0 ≡ a = omega arith in
    let z : user_pages a ent ≡ user_pages a ent + 0 = omega arith in
    ap (λ x. user_pages x ent) e ∙ z
user_pages_split (suc n) a ent =
    let e : a + suc n ≡ suc (a + n) = omega arith in
    ap (λ x. user_pages x ent) e ∙ omega (arith, user_pages_split n a ent)

present-cell :
    (d i k m : ℕ) (s : Vm)
    → k < 1024
    → m ≡ i * 1024 + k
    → is_present (s.words d i) ≡ true
    → s.words (p2v (pte_addr (s.words d i))) k ≡ entry d s m
unfolding entry frame
present-cell d i k m s h e p =
    let q : m / 1024 ≡ i = omega arith in
    let r : m % 1024 ≡ k = omega arith in
    sym (ap₂ (λ x y. cell s.words (s.words d x) y) q r ∙ ground (arith, p))

absent-cell :
    (d i k m : ℕ) (s : Vm)
    → k < 1024
    → m ≡ i * 1024 + k
    → is_present (s.words d i) ≡ false
    → is_present (entry d s m) ≡ false
unfolding entry
absent-cell d i k m s h e p =
    let q : m / 1024 ≡ i = omega arith in
    let z : entry d s m ≡ 0 =
      ap (λ x. cell s.words (s.words d x) (m % 1024)) q ∙ ground (arith, p) in
    ap is_present z

-- The part of a table, or of no table.
directory_step :
    (i d : ℕ) (s : Vm)
    → (if is_present (s.words d i)
        then count_table entries (s.words (p2v (pte_addr (s.words d i))))
        else 0)
      ≡ user_pages 1024 (λ k. entry d s (i * 1024 + k))
directory_step i d s = elim (Bool-cases (is_present (s.words d i))) [
  | inl p ↦
      let e =
        user_pages-count_table entries (s.words (p2v (pte_addr (s.words d i))))
          (λ k. entry d s (i * 1024 + k)) (λ k h. present-cell d i k (i * 1024 + k) s h refl p) in
      ground (arith, p, e)
  | inr p ↦
      let e =
        user_pages_absent entries (λ k. entry d s (i * 1024 + k))
          (λ k h. absent-cell d i k (i * 1024 + k) s h refl p) in
      ground (arith, p, e)
]

count_directory-user_pages :
    (i d : ℕ) (s : Vm) → count_directory i d s ≡ user_pages (i * 1024) (entry d s)
unfolding count_directory user_pages
count_directory-user_pages zero d s = refl
count_directory-user_pages (suc i) d s =
    let e : suc i * 1024 ≡ i * 1024 + 1024 = omega arith in
    ap₂ (λ x y. x + y) (count_directory-user_pages i d s) (directory_step i d s)
    ∙ sym (ap (λ x. user_pages x (entry d s)) e ∙ user_pages_split 1024 (i * 1024) (entry d s))

-- `sys_pgcnt` is the number of page numbers whose entry is present for user mode.
sys_pgcnt-user_pages : (d : ℕ) (s : Vm) → sys_pgcnt d s ≡ user_pages 1048576 (entry d s)
unfolding sys_pgcnt
sys_pgcnt-user_pages d s = count_directory-user_pages entries d s

-- The part below `n` of the range from `lo` to below `hi`.
abbrev pub overlap : ℕ → ℕ → ℕ → ℕ
overlap n lo hi = if ltb n lo then 0 else if ltb n hi then n - lo else hi - lo

user_pages_more :
    (n lo hi : ℕ) (f g : ℕ → ℕ)
    → lo ≤ hi
    → ((m : ℕ) → m < n → lo ≤ m → m < hi → (is_present (f m) ≡ false) × (is_user_page (g m) ≡ true))
    → ((m : ℕ) → m < n → (m < lo) ⊎ (hi ≤ m) → is_user_page (g m) ≡ is_user_page (f m))
    → user_pages n g ≡ user_pages n f + overlap n lo hi
unfolding user_pages
user_pages_more zero lo hi f g h new old = ground (arith, h)
user_pages_more (suc n) lo hi f g h new old =
    let rest =
      user_pages_more n lo hi f g h (λ m l. new m (omega arith)) (λ m l. old m (omega arith)) in
    elim (Bool-cases (ltb n lo)) [
      | inl low ↦
          let e = old n (omega arith) (inl (ground (arith, low))) in ground (arith, rest, e, low, h)
      | inr low ↦ elim (Bool-cases (ltb n hi)) [
        | inl mid ↦
            let (p, q) = new n (omega arith) (ground (arith, low)) (ground (arith, mid)) in
            ground (arith, rest, p, q, low, mid, h)
        | inr high ↦
            let e = old n (omega arith) (inr (ground (arith, high))) in
            ground (arith, rest, e, low, high, h)
      ]
    ]

user_pages_same :
    (n : ℕ) (f g : ℕ → ℕ)
    → ((m : ℕ) → m < n → is_user_page (g m) ≡ is_user_page (f m))
    → user_pages n g ≡ user_pages n f
unfolding user_pages
user_pages_same zero f g h = refl
user_pages_same (suc n) f g h =
    let rest = user_pages_same n f g (λ m l. h m (omega arith)) in
    ground (arith, rest, h n (omega arith))

-- When a process grows by `allocuvm` from `oldsz` to `newsz`, with none of the entries in between
-- present, its `sys_pgcnt` goes up by the number of pages from one size to the other if the call
-- returns `newsz`, and stays as it was if the call returns 0; the call does no other thing.
pub sys_pgcnt-allocuvm :
    (d oldsz newsz : ℕ) (s : Vm)
    → IsSpace d s
    → oldsz ≤ newsz
    → newsz < address_range
    → ((m : ℕ) → pages_to oldsz ≤ m → m < pages_to newsz → is_present (entry d s m) ≡ false)
    → (t : Vm) × (((allocuvm d oldsz newsz s ≡ done newsz t)
          × (sys_pgcnt d t ≡ sys_pgcnt d s + (pages_to newsz - pages_to oldsz)))
        ⊎ ((allocuvm d oldsz newsz s ≡ done 0 t) × (sys_pgcnt d t ≡ sys_pgcnt d s)))
sys_pgcnt-allocuvm d oldsz newsz s a h wide absent =
    elim (allocuvm-Allocs d oldsz newsz s a h wide absent) [
      | inl (_, run) ↦ (s, inr (run, refl))
      | inr (top, inl (t, run, g)) ↦
          let more =
            user_pages_more 1048576 (pages_to oldsz) (pages_to newsz) (entry d s) (entry d t)
              (omega arith)
              (λ m l p q. let (x, y, _) = g.mapped m p q in (absent m p q, ground (arith, x, y)))
              (λ m l o. ap is_user_page (g.others m l o)) in
          (
            t,
            inl (
              run,
              sys_pgcnt-user_pages d t
                  ∙ more
                  ∙ ap₂ (λ x y. x + y) (sym (sys_pgcnt-user_pages d s)) (ground (arith, top, h)),
            ),
          )
      | inr (top, inr (t, run, r, _)) ↦
          let same = user_pages_same 1048576 (entry d s) (entry d t) (λ m l.
            elim (Bool-cases (leb (pages_to oldsz) m && ltb m (pages_to newsz))) [
              | inl within ↦
                  let p = absent m (ground (arith, within)) (ground (arith, within)) in
                  let q = r.cleared m (ground (arith, within)) (ground (arith, within)) in
                  ground (arith, p, q)
              | inr out ↦ ap is_user_page (r.others m l (ground (arith, out)))
            ]) in
          (t, inr (run, sys_pgcnt-user_pages d t ∙ same ∙ sym (sys_pgcnt-user_pages d s)))
    ]
