-- ===== src/Fs/Free.antt =====
-- `balloc` and `bfree` of xv6/fs.c on the free map.
use laboratorio_valen_el_noo.Base.{
  ℕ, zero, suc, ◌+◌, ◌*◌, ◌≤◌, ◌<◌, ◌≡◌, refl, sym, ap, ◌∙◌, ◌⊎◌, inl, inr, Bool, true, false, not,
  Option, none, some, ◌==◌, ltb, to_ℕ, arith, Bool-cases,
}
use laboratorio_valen_el_noo.Log.{update}
use laboratorio_valen_el_noo.Fs.{
  Disk, ok, panic, find_bit, find_free, take_free, balloc, bzero, bpb,
}

-- How many of the blocks below `n` are free.
abbrev pub free_below : ℕ → (ℕ → Bool) → ℕ
free_below zero used = 0
free_below (suc n) used = free_below n used + to_ℕ (not (used n))

-- What a search from `b` over `n` blocks finds: the first that is free, if there is one.
abbrev pub Found : ℕ → ℕ → Disk → Option ℕ → Type 0
Found n b d (some x) =
    (b ≤ x)
    × (x < b + n)
    × (x < d.size)
    × (d.used x ≡ false)
    × ((y : ℕ) → b ≤ y → y < x → d.used y ≡ true)
Found n b d none = (y : ℕ) → b ≤ y → y < b + n → y < d.size → d.used y ≡ true

-- A search over `n` blocks that finds none, and one over the next `m`.
join-Found :
    (n m b c e : ℕ) (d : Disk) (o : Option ℕ)
    → c ≡ b + n
    → e ≡ n + m
    → Found n b d none
    → Found m c d o
    → Found e b d o
join-Found n m b c e d none p q h k = λ y l r t. elim (Bool-cases (ltb y c)) [
  | inl low ↦ h y l (ground (arith, low, p)) t
  | inr high ↦ k y (ground (arith, high)) (omega arith) t
]
join-Found n m b c e d (some x) p q h (l, r, t, u, before) = (
  omega arith,
  omega arith,
  t,
  u,
  λ y g i. elim (Bool-cases (ltb y c)) [
    | inl low ↦ h y g (ground (arith, low, p)) (omega arith)
    | inr high ↦ before y (ground (arith, high)) i
  ],
)

-- A round of the inner loop, with the results of its two tests.
bit_at-Found :
    (n b : ℕ) (d : Disk) (t u : Bool) (rest : Option ℕ)
    → ltb b d.size ≡ t
    → d.used b ≡ u
    → Found n (b + 1) d rest
    → Found (suc n) b d (elim t [ false ↦ none | true ↦ elim u [ false ↦ some b | true ↦ rest ] ])
bit_at-Found n b d false u rest h k r = λ y l i g. absurd (ground (arith, h))
bit_at-Found n b d true false rest h k r =
    (omega arith, omega arith, ground (arith, h), k, λ y l i. absurd (omega arith))
bit_at-Found n b d true true rest h k r =
    join-Found 1 n b (b + 1) (suc n) d rest refl (omega arith)
      (λ y l i g. let e : b ≡ y = omega arith in ap d.used (sym e) ∙ k) r

find_bit-Found : (n b : ℕ) (d : Disk) → Found n b d (find_bit n b d)
unfolding find_bit
find_bit-Found zero b d = λ y h k l. absurd (omega arith)
find_bit-Found (suc n) b d =
    bit_at-Found n b d (ltb b d.size) (d.used b) _ refl refl (find_bit-Found n (b + 1) d)

-- A round of the outer loop over blocks of `w` bits.
block_at-Found :
    (w n b : ℕ) (d : Disk) (t : Bool) (o rest : Option ℕ)
    → ltb b d.size ≡ t
    → Found w b d o
    → Found (n * w) (b + w) d rest
    → Found
        (suc n * w)
        b
        d
        (elim t [ false ↦ none | true ↦ elim o [ some x ↦ some x | none ↦ rest ] ])
block_at-Found w n b d false o rest h k r = λ y l i g. absurd (ground (arith, h))
block_at-Found w n b d true none rest h k r =
    join-Found w (n * w) b (b + w) (suc n * w) d rest refl (omega arith) k r
block_at-Found w n b d true (some x) rest h (l, r, t, u, before) k = (l, omega arith, t, u, before)

find_free-Found : (n b : ℕ) (d : Disk) → Found (n * bpb) b d (find_free n b d)
unfolding find_free
find_free-Found zero b d = λ y h k l. absurd (omega arith)
find_free-Found (suc n) b d =
    block_at-Found bpb n b d (ltb b d.size) (find_bit bpb b d) _ refl (find_bit-Found bpb b d)
      (find_free-Found n (b + bpb) d)

-- The disk with block `b` taken.
abbrev pub with_block : ℕ → Disk → Disk
with_block b d = record d { used = update d.used b true; bytes = update d.bytes b (λ x. 0) }

-- The first free block, if there is one.
abbrev pub Allocates : Disk → Type 0
Allocates d =
    ((balloc d ≡ panic) × ((y : ℕ) → y < d.size → d.used y ≡ true))
    ⊎ ((b : ℕ) × (balloc d ≡ ok (b, with_block b d))
        × (b < d.size)
        × (d.used b ≡ false)
        × ((y : ℕ) → y < b → d.used y ≡ true))

taken-Allocates :
    (d : Disk) (o : Option ℕ)
    → find_free (d.size + 1) 0 d ≡ o
    → Found ((d.size + 1) * bpb) 0 d o
    → Allocates d
unfolding balloc take_free bzero
taken-Allocates d none e f =
    inl (ap (λ (x : Option ℕ). take_free x d) e, λ y h. f y (omega arith) (omega arith) h)
taken-Allocates d (some b) e (l, r, t, u, before) =
    inr (b, ap (λ (x : Option ℕ). take_free x d) e, t, u, λ y h. before y (omega arith) h)

-- `balloc` panics, with every block of the disk in use, or returns the first free block: it is then
-- in use and full of zeros, and nothing else of the disk has changed.
pub balloc-Allocates : (d : Disk) → Allocates d
balloc-Allocates d = taken-Allocates d _ refl (find_free-Found (d.size + 1) 0 d)

free_below-update :
    (n b : ℕ) (used : ℕ → Bool)
    → used b ≡ false
    → free_below n (update used b true) + to_ℕ (ltb b n) ≡ free_below n used
free_below-update zero b used h = ground arith
free_below-update (suc n) b used h = elim (Bool-cases (n == b)) [
  | inl same ↦
      let e : used n ≡ used b = ap used (ground (arith, same)) in
      ground (arith, free_below-update n b used h, same, e, h)
  | inr other ↦ ground (arith, free_below-update n b used h, other)
]

none_free : (n : ℕ) (used : ℕ → Bool) → ((y : ℕ) → y < n → used y ≡ true) → free_below n used ≡ 0
none_free zero used h = refl
none_free (suc n) used h =
    ground (arith, none_free n used (λ y l. h y (omega arith)), h n (omega arith))

-- While a block is free `balloc` does not panic, and takes one.
pub balloc-ok :
    (d : Disk)
    → 0 < free_below d.size d.used
    → (b : ℕ) × (balloc d ≡ ok (b, with_block b d))
      × (b < d.size)
      × (d.used b ≡ false)
      × (free_below d.size (with_block b d).used + 1 ≡ free_below d.size d.used)
balloc-ok d h = elim (balloc-Allocates d) [
  | inl (e, full) ↦ absurd (omega (arith, none_free d.size d.used full))
  | inr (b, e, l, u, before) ↦ (b, e, l, u, ground (arith, free_below-update d.size b d.used u, l))
]
