-- ===== src/Kalloc/Tests.antt =====
-- The allocator of xv6/kalloc.c with three pages.
use laboratorio_valen_el_noo.Base.{
  times, ℕ, ◌+◌, ◌*◌, ◌≤◌, ◌<◌, ◌≡◌, ◌≢◌, refl, some, List, [], ◌∷◌, ◌==◌, if◌then◌else◌, arith,
  to_ℕ,
}
use laboratorio_valen_el_noo.Kalloc.{Kmem, refused, kfree, kalloc, freerange, v2p, kernbase}
use laboratorio_valen_el_noo.Kalloc.Owners.{
  System, Reach, here, later, take_page, IsPartition, pages_exclusive,
}
use laboratorio_valen_el_noo.Kalloc.Range.{in_range, freerange_lem}

abbrev empty : Kmem
empty = record { freelist = 0; word = λ a. 0 }

empty-IsPartition : IsPartition (kernbase + 4096) [] (record { kmem = empty; held = [] })
empty-IsPartition = record {
  free = [];
  linked = refl;
  split = λ x. refl;
  once = λ x. omega arith;
  fit = λ x h. absurd (omega arith);
}

-- 4096 is a page too low to be in the range; the range starts inside a page.
freerange_lem_example :
    (l : Kmem) × (freerange (kernbase + 4096) (kernbase + 4100) (kernbase + 20479) empty ≡ some l)
    × (qs : List ℕ) × IsPartition (kernbase + 4096) qs (record { kmem = l; held = [] })
    × ((x : ℕ) → times x qs ≡ 0 + to_ℕ (in_range (kernbase + 4100) (kernbase + 20479) x))
freerange_lem_example =
    freerange_lem (kernbase + 4096) (kernbase + 4100) (kernbase + 20479) [] [] empty (omega arith)
      (omega arith) (omega arith) (omega arith) (λ x h. refl) empty-IsPartition

-- The pages 1 and 2 above the kernel; page 2 is free and leads to page 1.
abbrev page : ℕ → ℕ
page n = kernbase + 4096 * n

abbrev two_free : System
two_free = record {
  kmem = record { freelist = page 2; word = λ a. if a == page 2 then page 1 else 0 };
  held = [];
}

two_free-IsPartition : IsPartition (page 1) (page 2 ∷ page 1 ∷ []) two_free
unfolding refused v2p
two_free-IsPartition = record {
  free = page 2 ∷ page 1 ∷ [];
  linked = (refl, omega arith, (refl, omega arith, refl));
  split = λ x. omega arith;
  once = λ x. ground arith;
  fit = λ x h. ground (arith, h);
}

abbrev one_taken : System
one_taken = record {
  kmem = record { freelist = page 1; word = λ a. if a == page 2 then page 1 else 0 };
  held = page 2 ∷ [];
}

takes_one : Reach (page 1) two_free one_taken
unfolding kalloc
takes_one = later here (take_page (page 2) one_taken.kmem refl (λ e. ground arith))

pages_exclusive_example :
    ((x : ℕ) → times x one_taken.held ≤ 1)
    × ((kalloc one_taken.kmem).0 ≡ 0
        → (x : ℕ) → times x one_taken.held ≡ times x (page 2 ∷ page 1 ∷ []))
    × ((kalloc one_taken.kmem).0 ≢ 0
        → (times (kalloc one_taken.kmem).0 one_taken.held ≡ 0)
          × (times (kalloc one_taken.kmem).0 (page 2 ∷ page 1 ∷ []) ≡ 1))
    × ((v : ℕ)
        → 0 < times v one_taken.held
        → (k : Kmem) × (kfree (page 1) v one_taken.kmem ≡ some k))
pages_exclusive_example =
    pages_exclusive (page 1) (page 2 ∷ page 1 ∷ []) two_free one_taken two_free-IsPartition
      takes_one
