-- ===== src/Vm/Sample.antt =====
-- An address space with one user page, for the tests: its directory, a table, and three free pages.
use laboratorio_valen_el_noo.Base.{
  ℕ, ◌-◌, ◌%◌, ◌≤◌, ◌<◌, ◌≡◌, refl, List, [], ◌∷◌, ◌==◌, if◌then◌else◌, arith,
}
use laboratorio_valen_el_noo.Kalloc.{refused, v2p}
use laboratorio_valen_el_noo.Vm.{Vm}
use laboratorio_valen_el_noo.Vm.Own.{Fit}
use laboratorio_valen_el_noo.Vm.Space.{frame, own}
use laboratorio_valen_el_noo.Vm.Walk.{entry, IsSpace}

abbrev pub root : ℕ
root = 2151677952

abbrev table : ℕ
table = 2151682048

abbrev page : ℕ
page = 2151686144

abbrev pub free_pages : List ℕ
free_pages = 2151690240 ∷ 2151694336 ∷ 2151698432 ∷ []

abbrev pub memory : ℕ → ℕ → ℕ
memory v k =
    if v == root
    then (if k == 0 then 4198407 else 0)
    else if v == table
    then (if k == 0 then 4202503 else 0)
    else 1

abbrev pub one_page : Vm
one_page = record { words = memory; free = free_pages; kend = 2149580800 }

pub one_entry : (m : ℕ) → entry root one_page m ≡ (if m == 0 then 4202503 else 0)
unfolding entry frame
one_entry m = ground arith

own_one :
    (k : ℕ)
    → own root (one_page.words root) (entry root one_page) k
      ≡ (if k == 0 then root else if k == 1 then table else if k == 1025 then page else 0)
unfolding frame
own_one k = let e = one_entry (k - 1025) in ground (arith, e)

aligned-Fit : (v : ℕ) → v % 4096 ≡ 0 → 2149580800 ≤ v → v < 2382364672 → Fit 2149580800 v
unfolding refused v2p
aligned-Fit v h l g = (ground (arith, h, l, g), omega arith, omega arith)

frames_of : (frame 4198407 ≡ table) × (frame 4202503 ≡ page)
unfolding frame
frames_of = (refl, refl)

pub one_page-IsSpace : IsSpace root one_page
one_page-IsSpace = record {
  pages = record {
    apart = λ i j h k ne e. ground (arith, own_one i, own_one j, ne, e);
    busy = λ i h ne. ground (arith, own_one i, ne);
    once = λ v. ground arith;
    fit = λ i h ne.
        aligned-Fit (own root (one_page.words root) (entry root one_page) i)
          (ground (arith, own_one i, ne)) (ground (arith, own_one i, ne))
          (ground (arith, own_one i, ne));
    fit_free = λ v h. aligned-Fit v (ground (arith, h)) (ground (arith, h)) (ground (arith, h));
  };
  tables = λ i h p e. let (f, _) = frames_of in ground (arith, p, e, f);
  frames = λ m h p e. let (_, f) = frames_of in let q = one_entry m in ground (arith, p, e, f, q);
  root = omega arith;
}
