-- ===== src/Fs/Dir.antt =====
-- Directories of xv6/fs.c: `namecmp` and `dirlookup`. The name is an object apart from the entry read.
pub mod Lookup
mod Tests
use laboratorio_valen_el_noo.Base.{
  ℕ, zero, suc, ◌+◌, ◌*◌, Bool, true, false, ◌&&◌, not, Option, none, some, ◌==◌, ltb, ℤ,
}
use laboratorio_valen_el_noo.Strings.{Bytes, strncmp}
use laboratorio_valen_el_noo.Strings.Compare.{is_zero}
use laboratorio_valen_el_noo.Fs.{
  Locked, Result, ok, panic, out_of_fuel, ◌>>=◌, Io, io_failed, io_driver, io_done, readi, add,
}
use laboratorio_valen_el_noo.Fs.Path.{dirsiz}

-- `T_DIR`, and the size of `struct dirent`
abbrev pub t_dir : ℕ
t_dir = 1

abbrev pub dirent_size : ℕ
dirent_size = 16

-- `struct dirent` as it is read: `inum` in two bytes, the low one first, then the name.
abbrev pub inum_of : Bytes → ℕ
inum_of de = de 0 + 256 * de 1

pub namecmp : ℕ → Bytes → ℕ → Bytes → ℤ
namecmp i s j t = strncmp dirsiz i s j t

pub is_entry : Bytes → Bytes → Bool
is_entry name de = not (inum_of de == 0) && is_zero (namecmp 0 name 2 de)

-- `if(readi(...) != sizeof(de)) panic`; a directory is not a device, so that no driver is called.
pub whole_entry : Io (Bytes × Locked) → Result (Bytes × Locked)
whole_entry io_failed = panic
whole_entry (io_driver m) = panic
whole_entry (io_done n r) = elim (n == dirent_size) [ true ↦ ok r | false ↦ panic ]

pub dir_loop : ℕ → (ℕ → Bool) → Bytes → ℕ → Bytes → Locked → Result (Option (ℕ × ℕ) × Locked)
dir_loop zero present name off de s = out_of_fuel
dir_loop (suc fuel) present name off de s = elim (ltb off s.ip.copy.size) [
  | false ↦ ok (none, s)
  | true ↦ readi present de off dirent_size s >>= whole_entry >>= λ r. elim (is_entry name r.0) [
    | true ↦ ok (some (off, inum_of r.0), r.1)
    | false ↦ dir_loop fuel present name (add off dirent_size) r.0 r.1
  ]
]

-- The offset that goes to `poff`, and the number that goes to `iget`.
pub dirlookup : (ℕ → Bool) → Bytes → Bytes → Locked → Result (Option (ℕ × ℕ) × Locked)
dirlookup present name de s = elim (s.ip.copy.type == t_dir) [
  | true ↦ dir_loop (s.ip.copy.size + 1) present name 0 de s
  | false ↦ panic
]
