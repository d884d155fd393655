-- ===== src/Bio.antt =====
-- xv6/bio.c: which block each buffer of the cache holds. The list from `head.next` on, most recently
-- used first, is a list of buffers; each carries its index in `bcache.buf`. The sleep locks and the
-- data are left to the callers. Fewer than 2 ^ 32 threads use a buffer.
pub mod Unique
mod Tests
use laboratorio_valen_el_noo.Base.{
  ℕ, zero, suc, ◌+◌, ◌-◌, ◌%◌, ◌^◌, Bool, false, ◌&&◌, not, Option, none, some, List, [], ◌∷◌, ◌==◌,
  if◌then◌else◌, get_elem?, modify, find_index,
}

-- `struct buf`; B_VALID and B_DIRTY of its flags.
pub record Buf : Type 0 where
  pub index : ℕ
  pub dev : ℕ
  pub blockno : ℕ
  pub refcnt : ℕ
  pub valid : Bool
  pub dirty : Bool

abbrev pub caches : ℕ → ℕ → Buf → Bool
caches dev blockno b = b.dev == dev && b.blockno == blockno

abbrev pub unused : Buf → Bool
unused b = b.refcnt == 0 && not b.dirty

-- The last buffer that passes the test: the scan along `prev`.
abbrev pub find_last : (Buf → Bool) → List Buf → Option ℕ
find_last p [] = none
find_last p (b ∷ bs) = elim (find_last p bs) [
  | some i ↦ some (suc i)
  | none ↦ if p b then some 0 else none
]

abbrev pub recycle : ℕ → ℕ → Buf → Buf
recycle dev blockno b = record b {
  dev = dev;
  blockno = blockno;
  valid = false;
  dirty = false;
  refcnt = 1;
}

-- `bget`: the place of the buffer in the list; `none` is the panic.
pub bget : ℕ → ℕ → List Buf → Option (ℕ × List Buf)
bget dev blockno bs = elim (find_index (caches dev blockno) bs) [
  | some i ↦ some (i, modify bs i (λ b. record b { refcnt = b.refcnt + 1 }))
  | none ↦ elim (find_last unused bs) [
    | some i ↦ some (i, modify bs i (recycle dev blockno))
    | none ↦ none
  ]
]

abbrev pub remove_at : List Buf → ℕ → List Buf
remove_at [] i = []
remove_at (b ∷ bs) zero = bs
remove_at (b ∷ bs) (suc i) = b ∷ remove_at bs i

-- `brelse` of the buffer at place `i`, after the test of its lock: a buffer that nobody uses any
-- more moves to the front.
pub released : ℕ → Option Buf → List Buf → List Buf
released i none bs = bs
released i (some b) bs =
    let c = record b { refcnt = (b.refcnt + 2 ^ 32 - 1) % 2 ^ 32 } in
    if c.refcnt == 0 then c ∷ remove_at bs i else modify bs i (λ x. c)

pub brelse : ℕ → List Buf → List Buf
brelse i bs = released i (get_elem? bs i) bs

-- `binit`, with zero in every field, as the kernel finds them.
pub binit : ℕ → List Buf
binit zero = []
binit (suc n) =
    record { index = n; dev = 0; blockno = 0; refcnt = 0; valid = false; dirty = false } ∷ binit n
