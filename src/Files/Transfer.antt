-- ===== src/Files/Transfer.antt =====
-- `fileread` and `filewrite` of xv6/file.c, over the contents of files of xv6/fs.c. The log is left out:
-- a transaction writes 1536 bytes at most.
pub mod Chunks
use laboratorio_valen_el_noo.Base.{
  ℕ, zero, suc, ◌+◌, ◌-◌, ◌*◌, ◌/◌, Bool, true, false, ◌==◌, ltb, if◌then◌else◌, ℤ, pos, minus_one,
}
use laboratorio_valen_el_noo.Strings.{Bytes}
use laboratorio_valen_el_noo.Log.{max_op_blocks}
use laboratorio_valen_el_noo.Files.{File, fd_none, fd_pipe, fd_inode}
use laboratorio_valen_el_noo.Fs.{
  Locked, Result, ok, panic, out_of_fuel, ◌>>=◌, Io, io_failed, io_driver, io_done, readi,
  writei_data,
}

-- What a call comes to: its value, the open file and what it has moved; or the call of a pipe or a driver.
pub data End (A : Type 0) : Type 0 where
  returns : ℤ → File → A → End A
  on_pipe : ℕ → End A
  on_driver : ℤ → End A

abbrev pub advance : ℕ → File → File
advance r f = record f { off = f.off + r }

pub read_end_of : File → Locked → Bytes → Io (Bytes × Locked) → Result (End (Bytes × Locked))
read_end_of f s dst io_failed = ok (returns minus_one f (dst, s))
read_end_of f s dst (io_driver m) = ok (on_driver m)
read_end_of f s dst (io_done r p) = ok (returns (pos r) (advance r f) p)

pub fileread : (ℕ → Bool) → Bytes → ℕ → File → Locked → Result (End (Bytes × Locked))
fileread present dst n f s = elim f.readable [
  | false ↦ ok (returns minus_one f (dst, s))
  | true ↦ elim f.type [
    | fd_pipe ↦ ok (on_pipe f.pipe)
    | fd_inode ↦ readi present dst f.off n s >>= read_end_of f s dst
    | fd_none ↦ panic
  ]
]

-- `max` of `filewrite`: the bytes of one transaction.
abbrev pub most : ℕ
most = (max_op_blocks - 1 - 1 - 2) / 2 * 512

abbrev pub portion : ℕ → ℕ
portion left = if ltb most left then most else left

abbrev pub ended : ℕ → ℕ → File → Locked → End Locked
ended i n f s = returns (if i == n then pos n else minus_one) f s

-- A round of the loop after `writei`; `again` is the loop.
pub after_chunk :
    (ℕ → File → Locked → Result (End Locked))
    → ℕ
    → ℕ
    → ℕ
    → File
    → Locked
    → Io Locked
    → Result (End Locked)
after_chunk again n i n1 f s io_failed = ok (ended i n f s)
after_chunk again n i n1 f s (io_driver m) = ok (on_driver m)
after_chunk again n i n1 f s (io_done r t) =
    if r == n1 then again (i + r) (advance r f) t else panic

pub write_chunks : ℕ → (ℕ → Bool) → Bytes → ℕ → ℕ → File → Locked → Result (End Locked)
write_chunks zero present src n i f s = out_of_fuel
write_chunks (suc fuel) present src n i f s = elim (ltb i n) [
  | false ↦ ok (ended i n f s)
  | true ↦
      writei_data present (λ x. src (i + x)) f.off (portion (n - i)) s
      >>= after_chunk (write_chunks fuel present src n) n i (portion (n - i)) f s
]

pub filewrite : (ℕ → Bool) → Bytes → ℕ → File → Locked → Result (End Locked)
filewrite present src n f s = elim f.writable [
  | false ↦ ok (returns minus_one f s)
  | true ↦ elim f.type [
    | fd_pipe ↦ ok (on_pipe f.pipe)
    | fd_inode ↦ write_chunks (n + 1) present src n 0 f s
    | fd_none ↦ panic
  ]
]
