-- ===== src/Fs/Sample.antt =====
-- A file of two blocks on a disk of forty, twenty of them in use, for the tests.
use laboratorio_valen_el_noo.Base.{
  ℕ, ◌+◌, ◌%◌, ◌<◌, ◌≡◌, refl, ap, ◌∙◌, Bool, ◌==◌, ltb, if◌then◌else◌, pos, arith,
}
use laboratorio_valen_el_noo.Strings.{Bytes}
use laboratorio_valen_el_noo.Fs.{Disk, Dinode, Locked}
use laboratorio_valen_el_noo.Fs.Slots.{slot, place, IsFile}
use laboratorio_valen_el_noo.Fs.Bmap.{free_blocks}
use laboratorio_valen_el_noo.Fs.Read.{HasBlocks}
use laboratorio_valen_el_noo.Fs.Dir.Lookup.{IsDir}

abbrev pub letters : Bytes
letters x = 97 + x % 26

abbrev pub zeros : Bytes
zeros x = 0

abbrev pub copy : Dinode
copy = record {
  type = 2;
  major = pos 0;
  minor = pos 0;
  nlink = pos 1;
  size = 520;
  addrs = λ i. if i == 0 then 10 else if i == 1 then 11 else 0;
}

abbrev pub disk : Disk
disk = record { size = 40; used = λ b. ltb b 20; bytes = λ b x. b; inodes = λ i. copy }

abbrev pub two_blocks : Locked
two_blocks = record { ip = record { inum = 5; copy = copy }; disk = disk }

abbrev pub present : ℕ → Bool
present m = m == 1

slot_two : (i : ℕ) → slot two_blocks i ≡ (if i == 0 then 10 else if i == 1 then 11 else 0)
unfolding slot
slot_two i = ground arith

pub two_blocks-IsFile : IsFile two_blocks
two_blocks-IsFile = record {
  owned = λ i h ne.
      (ground (arith, slot_two i, ne), ap disk.used (slot_two i) ∙ ground (arith, slot_two i, ne));
  apart = λ i j h k ne e. ground (arith, slot_two i, slot_two j, ne, e);
  boot = refl;
  small = omega arith;
}

pub two_blocks-HasBlocks : HasBlocks 520 two_blocks
two_blocks-HasBlocks bn h l e = ground (arith, slot_two (place bn), e, l)

pub twenty_free : free_blocks disk ≡ 20
twenty_free = refl

-- A directory of two entries, `.` with inode 1 and `a` with inode 7.
abbrev pub directory : Locked
directory = record {
  ip = record { inum = 1; copy = record copy { type = 1; size = 32 } };
  disk = record disk {
    bytes = λ b x.
        if x == 0
        then 1
        else if x == 2
        then 46
        else if x == 16
        then 7
        else if x == 18
        then 97
        else 0;
  };
}

abbrev pub name_a : Bytes
name_a x = if x == 0 then 97 else 0

slot-directory :
    (i : ℕ) → i < 12 → slot directory i ≡ (if i == 0 then 10 else if i == 1 then 11 else 0)
unfolding slot
slot-directory i h = ground (arith, h)

pub directory-IsDir : IsDir directory
directory-IsDir = record {
  blocks = λ bn h l e. ground (arith, slot-directory (place bn), e, l);
  small = omega arith;
  entries = refl;
  kind = refl;
}
