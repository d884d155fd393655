-- ===== src/Fs.antt =====
-- xv6/fs.c: the blocks and the contents of files. `used b` is the bit of block `b` in the free map (bit
-- b % 8 of a byte of block BBLOCK(b, sb)), `bytes b` its bytes as `bread` returns them and `log_write`
-- takes them, and `inodes` the table of inodes on the disk (the one at IBLOCK(i, sb), i % IPB).

pub mod Free
pub mod Word
pub mod Slots
pub mod Fill
pub mod Bmap
pub mod Store
pub mod Write
pub mod Read
pub mod Guards
pub mod Content
pub mod Logged
pub mod Truncate
pub mod Path
pub mod Dir
pub mod Sample
mod Tests
use laboratorio_valen_el_noo.Base.{
  ℕ, zero, suc, ◌+◌, ◌-◌, ◌*◌, ◌/◌, ◌%◌, ◌^◌, Bool, true, false, ◌&&◌, ◌||◌, Option, none, some,
  ◌==◌, ltb, leb, if◌then◌else◌, ℤ, pos, negsuc,
}
use laboratorio_valen_el_noo.Log.{update}
use laboratorio_valen_el_noo.Strings.{Bytes}

-- NDIRECT, NINDIRECT, MAXFILE, BSIZE, BPB, NDEV, T_DEV
abbrev pub ndirect : ℕ
ndirect = 12

abbrev pub nindirect : ℕ
nindirect = 128

abbrev pub maxfile : ℕ
maxfile = ndirect + nindirect

abbrev pub bsize : ℕ
bsize = 512

abbrev pub bpb : ℕ
bpb = 4096

abbrev pub ndev : ℕ
ndev = 10

abbrev pub t_dev : ℕ
t_dev = 3

-- `struct dinode`
pub record Dinode : Type 0 where
  pub type : ℕ
  pub major : ℤ
  pub minor : ℤ
  pub nlink : ℤ
  pub size : ℕ
  pub addrs : ℕ → ℕ

-- `struct inode` while it is locked and valid: its number and its copy of the fields on the disk.
pub record Inode : Type 0 where
  pub inum : ℕ
  pub copy : Dinode

-- `size` is `sb.size`.
pub record Disk : Type 0 where
  pub size : ℕ
  pub used : ℕ → Bool
  pub bytes : ℕ → Bytes
  pub inodes : ℕ → Dinode

-- A locked inode, and the disk.
pub record Locked : Type 0 where
  pub ip : Inode
  pub disk : Disk

-- A call that returns, or panics. The last is for a model's loop that runs out of rounds.
pub data Result (A : Type 0) : Type 0 where
  ok : A → Result A
  panic : Result A
  out_of_fuel : Result A

infixl 5 ◌>>=◌
abbrev pub ◌>>=◌ : {A B : Type 0} → Result A → (A → Result B) → Result B
ok a >>= k = k a
panic >>= k = panic
out_of_fuel >>= k = out_of_fuel

abbrev pub set_bytes : ℕ → Bytes → Disk → Disk
set_bytes b v d = record d { bytes = update d.bytes b v }

pub bzero : ℕ → Disk → Disk
bzero b d = set_bytes b (λ x. 0) d

-- The loops of `balloc`: over the bits of a block of the free map from block `b` on, and over the
-- blocks of the map.
pub find_bit : ℕ → ℕ → Disk → Option ℕ
find_bit zero b d = none
find_bit (suc n) b d = elim (ltb b d.size) [
  | false ↦ none
  | true ↦ elim (d.used b) [ false ↦ some b | true ↦ find_bit n (b + 1) d ]
]

pub find_free : ℕ → ℕ → Disk → Option ℕ
find_free zero b d = none
find_free (suc n) b d = elim (ltb b d.size) [
  | false ↦ none
  | true ↦ elim (find_bit bpb b d) [ some x ↦ some x | none ↦ find_free n (b + bpb) d ]
]

abbrev pub mark : ℕ → Bool → Disk → Disk
mark b bit d = record d { used = update d.used b bit }

pub take_free : Option ℕ → Disk → Result (ℕ × Disk)
take_free none d = panic
take_free (some b) d = ok (b, bzero b (mark b true d))

pub balloc : Disk → Result (ℕ × Disk)
balloc d = take_free (find_free (d.size + 1) 0 d) d

pub bfree : ℕ → Disk → Result Disk
bfree b d = if d.used b then ok (mark b false d) else panic

-- `iupdate`
pub iupdate : Locked → Locked
iupdate s = record s { disk = record s.disk { inodes = update s.disk.inodes s.ip.inum s.ip.copy } }

abbrev pub addr : Locked → ℕ → ℕ
addr s i = s.ip.copy.addrs i

abbrev pub set_addr : ℕ → ℕ → Inode → Inode
set_addr i b p = record p { copy = record p.copy { addrs = update p.copy.addrs i b } }

-- `a[k]` in a block, with the least byte of a uint first.
pub get_word : Bytes → ℕ → ℕ
get_word a k = a (4 * k) + 256 * a (4 * k + 1) + 65536 * a (4 * k + 2) + 16777216 * a (4 * k + 3)

pub digit : ℕ → ℕ → ℕ
digit zero v = v % 256
digit (suc i) v = digit i (v / 256)

pub put_word : ℕ → ℕ → Bytes → Bytes
put_word k v a x = if x / 4 == k then digit (x % 4) v else a x

-- `bmap`, at an entry of `addrs` (the direct ones and the last), and at one of the indirect block `a`.
pub at_addr : ℕ → Locked → Result (ℕ × Locked)
at_addr i s = elim (addr s i == 0) [
  | true ↦ balloc s.disk >>= λ p. ok (p.0, record { ip = set_addr i p.0 s.ip; disk = p.1 })
  | false ↦ ok (addr s i, s)
]

abbrev pub set_entry : ℕ → ℕ → ℕ → Disk → Disk
set_entry a k b d = set_bytes a (put_word k b (d.bytes a)) d

pub at_entry : ℕ → ℕ → Locked → Result (ℕ × Locked)
at_entry a k s = elim (get_word (s.disk.bytes a) k == 0) [
  | true ↦ balloc s.disk >>= λ p. ok (p.0, record s { disk = set_entry a k p.0 p.1 })
  | false ↦ ok (get_word (s.disk.bytes a) k, s)
]

pub bmap : ℕ → Locked → Result (ℕ × Locked)
bmap bn s = elim (ltb bn ndirect) [
  | true ↦ at_addr bn s
  | false ↦ elim (ltb (bn - ndirect) nindirect) [
    | true ↦ at_addr ndirect s >>= λ p. at_entry p.0 (bn - ndirect) p.1
    | false ↦ panic
  ]
]

-- `memmove` of `m` bytes between two objects, from `s` of the one to `d` of the other.
abbrev pub copied : ℕ → ℕ → ℕ → Bytes → Bytes → Bytes
copied m d s from into x = if leb d x && ltb x (d + m) then from (s + (x - d)) else into x

-- The bytes of a round of `readi` or `writei`.
abbrev pub chunk : ℕ → ℕ → ℕ
chunk left off = if ltb left (bsize - off % bsize) then left else bsize - off % bsize

-- The loops of `writei` and `readi`, with the end in bytes `n`; that of `writei` without `log_write`.
pub data_loop : ℕ → ℕ → Bytes → ℕ → ℕ → Locked → Result Locked
data_loop zero n src tot off s = out_of_fuel
data_loop (suc fuel) n src tot off s = elim (ltb tot n) [
  | false ↦ ok s
  | true ↦ bmap (off / bsize) s >>= λ p.
      data_loop fuel n src (tot + chunk (n - tot) off) (off + chunk (n - tot) off) (record p.1 {
        disk =
            set_bytes p.0 (copied (chunk (n - tot) off) (off % bsize) tot src (p.1.disk.bytes p.0))
              p.1.disk;
      })
]

pub read_loop : ℕ → ℕ → Bytes → ℕ → ℕ → Locked → Result (Bytes × Locked)
read_loop zero n dst tot off s = out_of_fuel
read_loop (suc fuel) n dst tot off s = elim (ltb tot n) [
  | false ↦ ok (dst, s)
  | true ↦ bmap (off / bsize) s >>= λ p.
      read_loop fuel n (copied (chunk (n - tot) off) tot (off % bsize) (p.1.disk.bytes p.0) dst)
        (tot + chunk (n - tot) off) (off + chunk (n - tot) off) p.1
]

-- What `readi` and `writei` come to: -1, the call of a driver, or a count and the file after it.
pub data Io (A : Type 0) : Type 0 where
  io_failed : Io A
  io_driver : ℤ → Io A
  io_done : ℕ → A → Io A

-- The test of a device; `present m` is that `devsw[m]` has the function.
pub device : (ℕ → Bool) → ℤ → Bool
device present (pos m) = ltb m ndev && present m
device present (negsuc m) = false

-- `uint` addition
abbrev pub add : ℕ → ℕ → ℕ
add a b = (a + b) % 2 ^ 32

-- The size after `writei` of `n` bytes up to `off`.
pub grown : ℕ → ℕ → Locked → Locked
grown n off s =
    if ltb 0 n && ltb s.ip.copy.size off
    then iupdate (record s { ip = record s.ip { copy = record s.ip.copy { size = off } } })
    else s

-- `writei` as to the file: without its calls of `log_write`, which `Logged` has.
pub writei_data : (ℕ → Bool) → Bytes → ℕ → ℕ → Locked → Result (Io Locked)
writei_data present src off n s =
    if s.ip.copy.type == t_dev
    then (if device present s.ip.copy.major then ok (io_driver s.ip.copy.major) else ok io_failed)
    else if ltb s.ip.copy.size off || ltb (add off n) off
    then ok io_failed
    else if ltb (maxfile * bsize) (add off n)
    then ok io_failed
    else data_loop (n + 1) n src 0 off s >>= λ t. ok (io_done n (grown n (off + n) t))

pub cut : ℕ → ℕ → ℕ → ℕ
cut size off n = if ltb size (add off n) then size - off else n

pub readi : (ℕ → Bool) → Bytes → ℕ → ℕ → Locked → Result (Io (Bytes × Locked))
readi present dst off n s =
    if s.ip.copy.type == t_dev
    then (if device present s.ip.copy.major then ok (io_driver s.ip.copy.major) else ok io_failed)
    else if ltb s.ip.copy.size off || ltb (add off n) off
    then ok io_failed
    else read_loop (cut s.ip.copy.size off n + 1) (cut s.ip.copy.size off n) dst 0 off s >>= λ r.
        ok (io_done (cut s.ip.copy.size off n) r)
