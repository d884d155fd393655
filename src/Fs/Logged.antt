-- ===== src/Fs/Logged.antt =====
-- `writei` of xv6/fs.c with its calls of `log_write`, those in `balloc`, `bmap` and `iupdate` with them.
-- `bget` is taken to find a buffer each time.
pub mod Room
pub mod Whole
pub mod Refused
mod Tests
use laboratorio_valen_el_noo.Base.{
  ℕ, zero, suc, ◌+◌, ◌-◌, ◌*◌, ◌/◌, ◌%◌, Bool, true, false, ◌&&◌, ◌||◌, List, [], ◌∷◌, ◌++◌, ◌==◌,
  ltb, if◌then◌else◌,
}
use laboratorio_valen_el_noo.Strings.{Bytes}
use laboratorio_valen_el_noo.Log.{Log, Dev, log_write}
use laboratorio_valen_el_noo.Log.{Result as LogResult, ok as logged, panic as too_big}
use laboratorio_valen_el_noo.Fs.{
  Locked, Result, ok, panic, out_of_fuel, ◌>>=◌, addr, get_word, ndirect, bsize, bpb, maxfile, bmap,
  chunk, copied, set_bytes, Io, io_failed, io_driver, io_done, device, t_dev, add, grown,
}

-- `bmapstart` and `inodestart` of the superblock.
pub record Layout : Type 0 where
  pub bmapstart : ℕ
  pub inodestart : ℕ

-- BBLOCK, and IBLOCK with 8 inodes to a block.
abbrev pub bitmap_block : Layout → ℕ → ℕ
bitmap_block lay b = b / bpb + lay.bmapstart

abbrev pub inode_block : Layout → ℕ → ℕ
inode_block lay i = i / 8 + lay.inodestart

-- The log in memory, and the cache.
abbrev pub Journal : Type 0
Journal = Log × Dev

pub from_log : LogResult Journal → Result Journal
from_log (logged j) = ok j
from_log too_big = panic

-- Calls of `log_write` on some blocks.
pub log_blocks : List ℕ → Journal → Result Journal
log_blocks [] j = ok j
log_blocks (b ∷ bs) j = from_log (log_write b j.0 j.1) >>= log_blocks bs

-- Those of `balloc` and `bzero` when `balloc` returns `b`.
abbrev pub new_blocks : Layout → ℕ → List ℕ
new_blocks lay b = bitmap_block lay b ∷ b ∷ []

-- The entry of the indirect block is empty before the call.
abbrev pub is_missing : ℕ → ℕ → Locked → Bool
is_missing a k s = addr s ndirect == 0 || get_word (s.disk.bytes a) k == 0

-- Those of `bmap`, which returns a block and the file `p`.
pub bmap_blocks : Layout → ℕ → Locked → ℕ × Locked → List ℕ
bmap_blocks lay bn s p =
    if ltb bn ndirect
    then (if addr s bn == 0 then new_blocks lay p.0 else [])
    else (if addr s ndirect == 0 then new_blocks lay (addr p.1 ndirect) else [])
      ++ (if is_missing (addr p.1 ndirect) (bn - ndirect) s
          then new_blocks lay p.0 ++ (addr p.1 ndirect ∷ [])
          else [])

pub write_loop : Layout → ℕ → ℕ → Bytes → ℕ → ℕ → Locked → Journal → Result (Locked × Journal)
write_loop lay zero n src tot off s j = out_of_fuel
write_loop lay (suc fuel) n src tot off s j = elim (ltb tot n) [
  | false ↦ ok (s, j)
  | true ↦ bmap (off / bsize) s >>= λ p.
      log_blocks (bmap_blocks lay (off / bsize) s p ++ (p.0 ∷ [])) j
      >>= write_loop lay fuel n src (tot + chunk (n - tot) off) (off + chunk (n - tot) off)
          (record p.1 {
            disk =
                set_bytes p.0
                  (copied (chunk (n - tot) off) (off % bsize) tot src (p.1.disk.bytes p.0))
                  p.1.disk;
          })
]

-- That of `iupdate`, if the size grows.
pub size_blocks : Layout → ℕ → ℕ → Locked → List ℕ
size_blocks lay n off s =
    if ltb 0 n && ltb s.ip.copy.size off then inode_block lay s.ip.inum ∷ [] else []

pub writei : (ℕ → Bool) → Layout → Bytes → ℕ → ℕ → Locked → Journal → Result (Io (Locked × Journal))
writei present lay src off n s j =
    if s.ip.copy.type == t_dev
    then (if device present s.ip.copy.major then ok (io_driver s.ip.copy.major) else ok io_failed)
    else if ltb s.ip.copy.size off || ltb (add off n) off
    then ok io_failed
    else if ltb (maxfile * bsize) (add off n)
    then ok io_failed
    else write_loop lay (n + 1) n src 0 off s j >>= λ r.
        log_blocks (size_blocks lay n (off + n) r.0) r.1 >>= λ k.
        ok (io_done n (grown n (off + n) r.0, k))
