-- ===== src/Bio/Unique.antt =====
-- No block is in two buffers of xv6/bio.c, and a buffer in use keeps its block.
use laboratorio_valen_el_noo.Base.{
  ℕ, zero, suc, ◌+◌, ◌-◌, ◌%◌, ◌^◌, ◌≤◌, ◌<◌, ◌≡◌, ◌≢◌, ◌⊎◌, inl, inr, refl, sym, ap, ◌∙◌, Bool,
  true, false, ◌&&◌, none, some, List, [], ◌∷◌, ◌==◌, get_elem?, modify, find_index,
  find_index-some, find_index-none, count, count-modify, arith, Option-cases, Bool-cases, to_ℕ,
  get_elem?-modify_self, get_elem?-modify_ne,
}
use laboratorio_valen_el_noo.Bio.{
  remove_at, released, brelse, binit, Buf, caches, unused, find_last, recycle, bget,
}

-- The buffers that hold a block.
abbrev pub copies : ℕ → ℕ → List Buf → ℕ
copies dev blockno bs = count (caches dev blockno) bs

find_last-some :
    (p : Buf → Bool) (bs : List Buf) (i : ℕ)
    → find_last p bs ≡ some i
    → (b : Buf) × (get_elem? bs i ≡ some b) × (p b ≡ true)
find_last-some p [] i h = absurd (ground (arith, h))
find_last-some p (b ∷ bs) i h = elim (Option-cases (find_last p bs)) [
  | inl n ↦ elim (Bool-cases (p b)) [
    | inl t ↦ let e : i ≡ 0 = ground (arith, h, n) in rw e (b, refl, t)
    | inr f ↦ absurd (ground (arith, h, n))
  ]
  | inr (j, q) ↦
      let (a, g, t) = find_last-some p bs j q in
      let e : i ≡ suc j = ground (arith, h, q) in rw e (a, g, t)
]

find_last-none : (p : Buf → Bool) (bs : List Buf) → find_last p bs ≡ none → count p bs ≡ 0
find_last-none p [] h = refl
find_last-none p (b ∷ bs) h = elim (Option-cases (find_last p bs)) [
  | inl n ↦ ground (arith, h, n, find_last-none p bs n)
  | inr (j, q) ↦ absurd (ground (arith, h, q))
]

-- No block of a device is in two buffers. Device 0, which every buffer has at the start, is none.
abbrev pub IsUnique : List Buf → Type 0
IsUnique bs = (dev blockno : ℕ) → 0 < dev → copies dev blockno bs ≤ 1

binit-copies : (n dev blockno : ℕ) → 0 < dev → copies dev blockno (binit n) ≡ 0
unfolding binit
binit-copies zero dev blockno h = refl
binit-copies (suc n) dev blockno h = ground (arith, binit-copies n dev blockno h)

pub binit-IsUnique : (n : ℕ) → IsUnique (binit n)
binit-IsUnique n dev blockno h = omega (arith, binit-copies n dev blockno h)

-- What `bget` gives: the buffer holds the block and is in use; it held the block before, or was
-- unused; and the other buffers are as they were.
abbrev pub Got : ℕ → ℕ → List Buf → ℕ → List Buf → Type 0
Got dev blockno bs i cs =
    (a b : Buf) × (get_elem? bs i ≡ some a)
    × (get_elem? cs i ≡ some b)
    × (caches dev blockno b ≡ true)
    × (0 < b.refcnt)
    × ((caches dev blockno a ≡ true) ⊎ (unused a ≡ true))
    × ((j : ℕ) → j ≢ i → get_elem? cs j ≡ get_elem? bs j)

hit-IsUnique :
    (bs : List Buf) (i : ℕ) (a : Buf)
    → get_elem? bs i ≡ some a
    → IsUnique bs
    → IsUnique (modify bs i (λ b. record b { refcnt = b.refcnt + 1 }))
hit-IsUnique bs i a e u d n h =
    omega
      (arith, u d n h, count-modify (caches d n) bs i (λ b. record b { refcnt = b.refcnt + 1 }) a e)

miss-IsUnique :
    (dev blockno : ℕ) (bs : List Buf) (i : ℕ) (a : Buf)
    → get_elem? bs i ≡ some a
    → copies dev blockno bs ≡ 0
    → IsUnique bs
    → IsUnique (modify bs i (recycle dev blockno))
miss-IsUnique dev blockno bs i a e z u d n h =
    let change = count-modify (caches d n) bs i (recycle dev blockno) a e in
    elim (Bool-cases (dev == d && blockno == n)) [
      | inr other ↦ ground (arith, u d n h, change, other)
      | inl same ↦
          let p : dev ≡ d = ground (arith, same) in
          let q : blockno ≡ n = ground (arith, same) in
          let none_there : copies d n bs ≡ 0 = rw (← p, ← q) z in
          ground (arith, change, none_there, same)
    ]

-- `bget` on a cache in which no block is in two buffers, if it does not panic: that stays so, and it
-- returns the buffer of the block. It panics only if no buffer holds the block and all are in use.
pub bget_lem :
    (dev blockno : ℕ) (bs : List Buf)
    → IsUnique bs
    → ((bget dev blockno bs ≡ none) × (copies dev blockno bs ≡ 0) × (count unused bs ≡ 0))
      ⊎ ((i : ℕ) × (cs : List Buf) × (bget dev blockno bs ≡ some (i, cs))
          × IsUnique cs
          × Got dev blockno bs i cs)
unfolding bget
bget_lem dev blockno bs u = elim (Option-cases (find_index (caches dev blockno) bs)) [
  | inr (i, e) ↦
      let (a, g, t) = find_index-some (caches dev blockno) bs i e in
      let f : Buf → Buf = λ b. record b { refcnt = b.refcnt + 1 } in
      inr (
        i,
        modify bs i f,
        rw (e, bget) refl,
        hit-IsUnique bs i a g u,
        (
          a,
          f a,
          g,
          get_elem?-modify_self bs i f a g,
          t,
          omega arith,
          inl t,
          λ j ne. get_elem?-modify_ne bs i j f (λ q. ne (sym q)),
        ),
      )
  | inl miss ↦
      let z = find_index-none (caches dev blockno) bs miss in
      elim (Option-cases (find_last unused bs)) [
        | inl full ↦ inl (rw (miss, full, bget) refl, z, find_last-none unused bs full)
        | inr (i, e) ↦
            let (a, g, t) = find_last-some unused bs i e in
            let f : Buf → Buf = recycle dev blockno in
            inr (
              i,
              modify bs i f,
              rw (miss, e, bget) refl,
              miss-IsUnique dev blockno bs i a g z u,
              (
                a,
                f a,
                g,
                get_elem?-modify_self bs i f a g,
                ground arith,
                omega arith,
                inr t,
                λ j ne. get_elem?-modify_ne bs i j f (λ q. ne (sym q)),
              ),
            )
      ]
]

count-remove_at :
    (p : Buf → Bool) (bs : List Buf) (i : ℕ) (a : Buf)
    → get_elem? bs i ≡ some a
    → count p (remove_at bs i) + to_ℕ (p a) ≡ count p bs
count-remove_at p [] i a h = absurd (ground (arith, h))
count-remove_at p (b ∷ bs) zero a h = ground (arith, h)
count-remove_at p (b ∷ bs) (suc i) a h = omega (arith, count-remove_at p bs i a h)

brelse-IsUnique :
    (i : ℕ) (bs : List Buf) (a : Buf)
    → get_elem? bs i ≡ some a
    → IsUnique bs
    → IsUnique (brelse i bs)
unfolding brelse released
brelse-IsUnique i bs a e u d n h =
    let c = record a { refcnt = (a.refcnt + 2 ^ 32 - 1) % 2 ^ 32 } in
    rw (e, released)
      (ground (
        arith,
        u d n h,
        count-remove_at (caches d n) bs i a e,
        count-modify (caches d n) bs i (λ x. c) a e,
      ))

get_elem?-remove_at_low :
    (bs : List Buf) (i j : ℕ) → j < i → get_elem? (remove_at bs i) j ≡ get_elem? bs j
get_elem?-remove_at_low [] i j h = refl
get_elem?-remove_at_low (b ∷ bs) zero j h = absurd (omega (arith, h))
get_elem?-remove_at_low (b ∷ bs) (suc i) zero h = refl
get_elem?-remove_at_low (b ∷ bs) (suc i) (suc j) h =
    get_elem?-remove_at_low bs i j (omega (arith, h))

get_elem?-remove_at_high :
    (bs : List Buf) (i j : ℕ) → i ≤ j → get_elem? (remove_at bs i) j ≡ get_elem? bs (suc j)
get_elem?-remove_at_high [] i j h = refl
get_elem?-remove_at_high (b ∷ bs) zero j h = refl
get_elem?-remove_at_high (b ∷ bs) (suc i) zero h = absurd (omega (arith, h))
get_elem?-remove_at_high (b ∷ bs) (suc i) (suc j) h =
    get_elem?-remove_at_high bs i j (omega (arith, h))

-- The buffer `a` at place `i` has one user less. With users left it stays at its place; without, it is
-- the first, and the others are behind it in their order.
abbrev pub Dropped : ℕ → Buf → List Buf → List Buf → Type 0
Dropped i a bs cs =
    ((1 < a.refcnt)
      × (get_elem? cs i ≡ some (record a { refcnt = a.refcnt - 1 }))
      × ((j : ℕ) → j ≢ i → get_elem? cs j ≡ get_elem? bs j))
    ⊎ ((a.refcnt ≡ 1)
        × (get_elem? cs 0 ≡ some (record a { refcnt = 0 }))
        × ((j : ℕ) → j < i → get_elem? cs (suc j) ≡ get_elem? bs j)
        × ((j : ℕ) → i < j → get_elem? cs j ≡ get_elem? bs j))

released_last :
    (i : ℕ) (a : Buf) (bs : List Buf)
    → a.refcnt ≡ 1
    → released i (some a) bs ≡ record a { refcnt = 0 } ∷ remove_at bs i
unfolding released
released_last i a bs one =
    let z : (a.refcnt + 2 ^ 32 - 1) % 2 ^ 32 ≡ 0 = omega (arith, one) in rw (z) refl

released_used :
    (i : ℕ) (a : Buf) (bs : List Buf)
    → 1 < a.refcnt
    → a.refcnt < 4294967296
    → released i (some a) bs ≡ modify bs i (λ x. record a { refcnt = a.refcnt - 1 })
unfolding released
released_used i a bs many small =
    let e : (a.refcnt + 2 ^ 32 - 1) % 2 ^ 32 ≡ a.refcnt - 1 = omega (arith, many, small) in
    let f : (a.refcnt - 1 == 0) ≡ false = ground (arith, many) in rw (e) (rw (f) refl)

brelse_at :
    (i : ℕ) (a : Buf) (bs : List Buf)
    → get_elem? bs i ≡ some a
    → brelse i bs ≡ released i (some a) bs
unfolding brelse
brelse_at i a bs e = ap (λ o. released i o bs) e

-- `brelse` of a buffer in use, in a cache in which no block is in two buffers: that stays so, and the
-- buffer has one user less, keeps its block, and stays at its place if it has users left; if not, it
-- becomes the most recently used, the first of the list, and the others keep their order. No other
-- buffer changes.
pub brelse_lem :
    (i : ℕ) (bs : List Buf) (a : Buf)
    → IsUnique bs
    → get_elem? bs i ≡ some a
    → 0 < a.refcnt
    → a.refcnt < 4294967296
    → IsUnique (brelse i bs) × Dropped i a bs (brelse i bs)
brelse_lem i bs a u e busy small = (
  brelse-IsUnique i bs a e u,
  elim (Bool-cases (a.refcnt == 1)) [
    | inl last ↦
        let one : a.refcnt ≡ 1 = ground (arith, last) in
        let same = brelse_at i a bs e ∙ released_last i a bs one in
        inr (
          one,
          ap (λ (l : List Buf). get_elem? l 0) same,
          λ j h. ap (λ (l : List Buf). get_elem? l (suc j)) same ∙ get_elem?-remove_at_low bs i j h,
          λ j h. ap (λ (l : List Buf). get_elem? l j) same ∙ behind j h,
        )
    | inr users ↦
        let many : 1 < a.refcnt = ground (arith, users, busy) in
        let same = brelse_at i a bs e ∙ released_used i a bs many small in
        let f : Buf → Buf = λ x. record a { refcnt = a.refcnt - 1 } in
        inl (
          many,
          ap (λ (l : List Buf). get_elem? l i) same ∙ get_elem?-modify_self bs i f a e,
          λ j ne.
              ap (λ (l : List Buf). get_elem? l j) same
              ∙ get_elem?-modify_ne bs i j f (λ q. ne (sym q)),
        )
  ],
)
  where
    behind :
        (j : ℕ) → i < j → get_elem? (record a { refcnt = 0 } ∷ remove_at bs i) j ≡ get_elem? bs j
    behind zero h = absurd (omega (arith, h))
    behind (suc j) h = get_elem?-remove_at_high bs i j (omega (arith, h))
