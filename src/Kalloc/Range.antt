-- ===== src/Kalloc/Range.antt =====
-- `freerange` of xv6/kalloc.c hands over the pages of a range.
use laboratorio_valen_el_noo.Base.{
  times, ℕ, zero, suc, ◌+◌, ◌-◌, ◌%◌, ◌≤◌, ◌<◌, ◌≡◌, refl, ap, ◌∙◌, Bool, true, false, ◌&&◌, inl,
  inr, Option, some, List, ◌∷◌, leb, ◌==◌, arith, Bool-cases, to_ℕ,
}
use laboratorio_valen_el_noo.Kalloc.{
  junk, Kmem, put_word, refused, kfree, free_from, freerange, pg_round_up, pgsize, kernbase,
  phystop, address_range, v2p,
}
use laboratorio_valen_el_noo.Kalloc.Owners.{IsPartition, pushed-Linked}

-- The address of a page between `p` and `vend`.
abbrev pub in_range : ℕ → ℕ → ℕ → Bool
in_range p vend x = x % pgsize == 0 && (leb p x && leb (x + pgsize) vend)

abbrev freed : ℕ → Kmem → Kmem
freed v k = record { freelist = v; word = put_word v k.freelist (put_word v junk k.word) }

fits :
    (kend v : ℕ)
    → v % pgsize ≡ 0
    → kend ≤ v
    → kernbase ≤ v
    → v < kernbase + phystop
    → refused kend v ≡ false
unfolding refused v2p
fits kend v h k l m = ground arith

kfree_runs : (kend v : ℕ) (k : Kmem) → refused kend v ≡ false → kfree kend v k ≡ some (freed v k)
unfolding kfree
kfree_runs kend v k h = ground (arith, h)

-- A page that was not there before joins.
join-IsPartition :
    (kend v : ℕ) (ps held : List ℕ) (k : Kmem)
    → refused kend v ≡ false
    → 0 < v
    → times v ps ≡ 0
    → IsPartition kend ps (record { kmem = k; held = held })
    → IsPartition kend (v ∷ ps) (record { kmem = freed v k; held = held })
join-IsPartition kend v ps held k ok p new f = record {
  free = v ∷ f.free;
  linked = pushed-Linked k.word v k.freelist f.free (omega (arith, f.split v)) p f.linked;
  split = λ x. omega (arith, f.split x);
  once = λ x. ground (arith, f.once x, new);
  fit = λ x h. elim (Bool-cases (v == x)) [
    | inl same ↦ let e : v ≡ x = ground arith in rw (← e) (p, ok)
    | inr other ↦ f.fit x (ground (arith, h))
  ];
}

stops :
    (kend fuel p vend : ℕ) (k : Kmem)
    → leb ((p + pgsize) % address_range) vend ≡ false
    → free_from kend (suc fuel) p vend k ≡ some k
unfolding free_from
stops kend fuel p vend k h = rw (h, free_from) refl

goes_on :
    (kend fuel p vend : ℕ) (k : Kmem)
    → leb ((p + pgsize) % address_range) vend ≡ true
    → refused kend p ≡ false
    → free_from kend (suc fuel) p vend k
      ≡ free_from kend fuel ((p + pgsize) % address_range) vend (freed p k)
unfolding free_from
goes_on kend fuel p vend k h ok = rw (h, kfree_runs kend p k ok, free_from) refl

next_range :
    (p vend x : ℕ)
    → p % pgsize ≡ 0
    → p + pgsize ≤ vend
    → to_ℕ (in_range p vend x) ≡ to_ℕ (p == x) + to_ℕ (in_range (p + pgsize) vend x)
next_range p vend x h k = ground arith

-- What `free_from` and `freerange` come to: the pages in range join those there are.
abbrev pub Handed : ℕ → ℕ → ℕ → List ℕ → List ℕ → Option Kmem → Type 0
Handed kend p vend ps held result =
    (k : Kmem) × (result ≡ some k)
    × (qs : List ℕ) × IsPartition kend qs (record { kmem = k; held = held })
    × ((x : ℕ) → times x qs ≡ times x ps + to_ℕ (in_range p vend x))

free_from-Handed :
    (kend fuel p vend : ℕ) (ps held : List ℕ) (k : Kmem)
    → p % pgsize ≡ 0
    → kend ≤ p
    → kernbase ≤ p
    → vend ≤ kernbase + phystop
    → vend < fuel + p
    → 0 < fuel
    → p ≤ kernbase + phystop
    → ((x : ℕ) → p ≤ x → times x ps ≡ 0)
    → IsPartition kend ps (record { kmem = k; held = held })
    → Handed kend p vend ps held (free_from kend fuel p vend k)
free_from-Handed kend zero p vend ps held k a b c d e z m new f = absurd (omega arith)
free_from-Handed kend (suc fuel) p vend ps held k a b c d e z m new f =
    elim (Bool-cases (leb ((p + pgsize) % address_range) vend)) [
      | inr end ↦ (k, stops kend fuel p vend k end, ps, f, λ x. ground (arith, end))
      | inl more ↦
          let up : (p + pgsize) % address_range ≡ p + pgsize = ground (arith, more) in
          let under : p + pgsize ≤ vend = ground (arith, more) in
          let ok = fits kend p a b c (omega arith) in
          let (l, runs, qs, g, all) =
            free_from-Handed kend fuel (p + pgsize) vend (p ∷ ps) held (freed p k) (omega arith)
              (omega arith) (omega arith) d (omega arith) (omega arith) (omega arith)
              (λ x h. ground (arith, new x (omega arith)))
              (join-IsPartition kend p ps held k ok (omega arith) (new p (omega arith)) f) in
          (
            l,
            goes_on kend fuel p vend k more ok
                ∙ ap (λ q. free_from kend fuel q vend (freed p k)) up
                ∙ runs,
            qs,
            g,
            λ x. ground (arith, all x, next_range p vend x a (omega (arith, under))),
          )
    ]

-- The first page at `vstart` or after it.
round_up :
    (a : ℕ)
    → a ≤ kernbase + phystop
    → (pg_round_up a % pgsize ≡ 0) × (a ≤ pg_round_up a) × (pg_round_up a < a + pgsize)
unfolding pg_round_up
round_up a h = (omega arith, omega arith, omega arith)

same_range :
    (a p vend x : ℕ)
    → p % pgsize ≡ 0
    → a ≤ p
    → p < a + pgsize
    → in_range p vend x ≡ in_range a vend x
same_range a p vend x h k l = ground arith

-- `freerange` of a range between the end of the kernel and the end of the memory, in which no page
-- is known to the allocator yet, frees every page that lies wholly in the range and no other:
-- with the pages that were there they are shared out between the free list and the users.
pub freerange_lem :
    (kend vstart vend : ℕ) (ps held : List ℕ) (k : Kmem)
    → kend ≤ vstart
    → kernbase ≤ vstart
    → vstart ≤ kernbase + phystop - pgsize
    → vend ≤ kernbase + phystop
    → ((x : ℕ) → vstart ≤ x → times x ps ≡ 0)
    → IsPartition kend ps (record { kmem = k; held = held })
    → (l : Kmem) × (freerange kend vstart vend k ≡ some l)
      × (qs : List ℕ) × IsPartition kend qs (record { kmem = l; held = held })
      × ((x : ℕ) → times x qs ≡ times x ps + to_ℕ (in_range vstart vend x))
unfolding freerange
freerange_lem kend vstart vend ps held k a b c d new f =
    let (aligned, above, near) = round_up vstart (omega arith) in
    let p = pg_round_up vstart in
    let (l, runs, qs, g, all) =
      free_from-Handed kend (vend + 1) p vend ps held k aligned (omega arith) (omega arith) d
        (omega arith) (omega arith) (omega arith) (λ x h. new x (omega arith)) f in
    (
      l,
      runs,
      qs,
      g,
      λ x. all x ∙ ap (λ n. times x ps + to_ℕ n) (same_range vstart p vend x aligned above near),
    )
