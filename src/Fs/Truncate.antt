-- ===== src/Fs/Truncate.antt =====
-- `itrunc` of xv6/fs.c: the blocks of a file are given back.

pub mod GivenBack
pub mod Loops
pub mod Whole
use laboratorio_valen_el_noo.Base.{ℕ, zero, suc, ◌+◌, ◌≤◌, ◌<◌, ◌≡◌, ◌≢◌, Bool, true, false, ◌==◌}
use laboratorio_valen_el_noo.Strings.{Bytes}
use laboratorio_valen_el_noo.Fs.{
  Disk, Locked, Result, ok, ◌>>=◌, bfree, iupdate, addr, set_addr, get_word, ndirect, nindirect,
}

-- The loop over the direct entries: `n` rounds from entry `i` on.
pub trunc_direct : ℕ → ℕ → Locked → Result Locked
trunc_direct zero i s = ok s
trunc_direct (suc n) i s = elim (addr s i == 0) [
  | true ↦ trunc_direct n (i + 1) s
  | false ↦ bfree (addr s i) s.disk >>= λ d.
      trunc_direct n (i + 1) (record { ip = set_addr i 0 s.ip; disk = d })
]

-- The loop over the entries of the indirect block, whose bytes are `a`.
pub trunc_entries : ℕ → ℕ → Bytes → Disk → Result Disk
trunc_entries zero j a d = ok d
trunc_entries (suc n) j a d = elim (get_word a j == 0) [
  | true ↦ trunc_entries n (j + 1) a d
  | false ↦ bfree (get_word a j) d >>= trunc_entries n (j + 1) a
]

pub trunc_indirect : Locked → Result Locked
trunc_indirect s = elim (addr s ndirect == 0) [
  | true ↦ ok s
  | false ↦
      trunc_entries nindirect 0 (s.disk.bytes (addr s ndirect)) s.disk
      >>= bfree (addr s ndirect)
      >>= λ d. ok (record { ip = set_addr ndirect 0 s.ip; disk = d })
]

abbrev pub reset_size : Locked → Locked
reset_size s = iupdate (record s { ip = record s.ip { copy = record s.ip.copy { size = 0 } } })

pub itrunc : Locked → Result Locked
itrunc s = trunc_direct ndirect 0 s >>= trunc_indirect >>= λ t. ok (reset_size t)

-- In `v` the blocks `o i`, for `i` from `lo` to below `hi`, are free, and all others are as in `u`.
pub record Released (o : ℕ → ℕ) (lo hi : ℕ) (u v : ℕ → Bool) : Type 0 where
  pub freed : (i : ℕ) → lo ≤ i → i < hi → o i ≢ 0 → v (o i) ≡ false
  pub kept : (b : ℕ) → ((i : ℕ) → lo ≤ i → i < hi → o i ≢ 0 → o i ≢ b) → v b ≡ u b

-- The blocks `o i` below `hi` are in use, and different from each other.
pub record IsOwned (o : ℕ → ℕ) (hi : ℕ) (u : ℕ → Bool) : Type 0 where
  pub busy : (i : ℕ) → i < hi → o i ≢ 0 → u (o i) ≡ true
  pub apart : (i j : ℕ) → i < hi → j < hi → o i ≢ 0 → o i ≡ o j → i ≡ j
