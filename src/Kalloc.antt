-- ===== src/Kalloc.antt =====
-- xv6/kalloc.c: the allocator of pages. The free list runs through the free pages themselves:
-- `word v` is the first word of the page at address `v`. The end of the kernel, which the linker
-- sets, is an argument.
pub mod Owners
pub mod Range
mod Tests
use laboratorio_valen_el_noo.Base.{
  ℕ, zero, suc, ◌+◌, ◌-◌, ◌*◌, ◌/◌, ◌%◌, ◌^◌, Bool, true, false, ◌||◌, not, Option, none, some, ltb,
  leb, ◌==◌, if◌then◌else◌,
}

abbrev pub pgsize : ℕ
pgsize = 4096

abbrev pub kernbase : ℕ
kernbase = 2147483648

abbrev pub phystop : ℕ
phystop = 234881024

abbrev pub address_range : ℕ
address_range = 2 ^ 32

-- `kmem`; the lock is held where its fields are used.
pub record Kmem : Type 0 where
  pub freelist : ℕ
  pub word : ℕ → ℕ

abbrev pub put_word : ℕ → ℕ → (ℕ → ℕ) → ℕ → ℕ
put_word v x f a = if a == v then x else f a

-- `V2P`
unfoldable pub v2p : ℕ → ℕ
v2p v = (v + address_range - kernbase) % address_range

-- The test of `kfree` for a panic.
unfoldable pub refused : ℕ → ℕ → Bool
refused kend v = not (v % pgsize == 0) || ltb v kend || leb phystop (v2p v)

-- The first word after `memset(v, 1, PGSIZE)`: 0x01010101.
abbrev pub junk : ℕ
junk = 16843009

pub kfree : ℕ → ℕ → Kmem → Option Kmem
kfree kend v k =
    if refused kend v
    then none
    else some (record { freelist = v; word = put_word v k.freelist (put_word v junk k.word) })

-- The address of a page, or 0.
pub kalloc : Kmem → ℕ × Kmem
kalloc k = (k.freelist, if k.freelist == 0 then k else record k { freelist = k.word k.freelist })

-- `PGROUNDUP`
unfoldable pub pg_round_up : ℕ → ℕ
pg_round_up a = ((a + pgsize - 1) % address_range) / pgsize * pgsize

-- The loop of `freerange` from page `p` on, with at most `fuel` rounds; `none` is a panic of `kfree`,
-- or no fuel left.
pub free_from : ℕ → ℕ → ℕ → ℕ → Kmem → Option Kmem
free_from kend zero p vend k = none
free_from kend (suc fuel) p vend k = elim (leb ((p + pgsize) % address_range) vend) [
  | false ↦ some k
  | true ↦ elim (kfree kend p k) [
    | none ↦ none
    | some l ↦ free_from kend fuel ((p + pgsize) % address_range) vend l
  ]
]

-- Each round but the last goes up by a page, so that `vend` rounds and one more are enough.
pub freerange : ℕ → ℕ → ℕ → Kmem → Option Kmem
freerange kend vstart vend k = free_from kend (vend + 1) (pg_round_up vstart) vend k
