-- ===== src/Files/Tests.antt =====
-- The table of files at concrete states.
use laboratorio_valen_el_noo.Base.{
  pos, ℕ, zero, suc, ◌≡◌, refl, ◌<◌, true, false, some, List, [], ◌∷◌, ◌==◌, arith, get_elem?,
  times, if◌then◌else◌,
}
use laboratorio_valen_el_noo.Files.{fd_none, fd_inode, File, ok, nothing, closing, fileclose}
use laboratorio_valen_el_noo.Files.Transfer.{filewrite, returns, advance}
use laboratorio_valen_el_noo.Files.Transfer.Chunks.{filewrite-Written}
use laboratorio_valen_el_noo.Fs.Sample.{
  letters, two_blocks, present, two_blocks-IsFile, two_blocks-HasBlocks, twenty_free,
}
use laboratorio_valen_el_noo.Fs.{Locked}
use laboratorio_valen_el_noo.Fs
use laboratorio_valen_el_noo.Fs.Content.{Written}
use laboratorio_valen_el_noo.Files.Count.{System, here, IsCounted, fileclose_last}
use laboratorio_valen_el_noo.Files.Alloc.{Allocated, pipealloc-Allocated}

abbrev unused : File
unused = record {
  type = fd_none;
  ref = 0;
  readable = false;
  writable = false;
  pipe = 0;
  ip = 0;
  off = 0;
}

abbrev on_disk : File
on_disk = record {
  type = fd_inode;
  ref = 1;
  readable = true;
  writable = false;
  pipe = 0;
  ip = 7;
  off = 0;
}

-- An open file between two free entries.
abbrev three_files : List File
three_files = unused ∷ on_disk ∷ unused ∷ []

abbrev one_descriptor : System
one_descriptor = record { table = three_files; held = 1 ∷ [] }

entry_counts :
    (i : ℕ) (f : File)
    → get_elem? three_files i ≡ some f
    → (f.ref ≡ times i (1 ∷ [])) × (f.ref ≡ 0 → f.type ≡ fd_none)
entry_counts zero f h = ground (arith, h)
entry_counts (suc zero) f h = ground (arith, h)
entry_counts (suc (suc zero)) f h = ground (arith, h)
entry_counts (suc (suc (suc i))) f h = ground (arith, h)

present_at : (i : ℕ) → 0 < times i (1 ∷ []) → (f : File) × (get_elem? three_files i ≡ some f)
present_at zero h = ground (arith, h)
present_at (suc zero) h = (on_disk, refl)
present_at (suc (suc i)) h = ground (arith, h)

one_descriptor-IsCounted : IsCounted one_descriptor
one_descriptor-IsCounted = record { counts = entry_counts; present = present_at }

one_held : 0 < times 1 (1 ∷ [])
one_held = omega arith

three_files-IsClean :
    (i : ℕ) (f : File) → get_elem? three_files i ≡ some f → f.ref ≡ 0 → f.type ≡ fd_none
three_files-IsClean i f h = (entry_counts i f h).1

fileclose_last_example :
    (f : File) × (u : List File) × (get_elem? three_files 1 ≡ some f)
    × (fileclose 1 three_files ≡ ok ((if times 1 (1 ∷ []) == 1 then closing f else nothing), u))
fileclose_last_example =
    fileclose_last one_descriptor one_descriptor 1 one_descriptor-IsCounted here one_held

pipealloc-Allocated_example : Allocated (some 30) three_files
pipealloc-Allocated_example = pipealloc-Allocated (some 30) three_files three_files-IsClean

-- The file of two blocks, open for writing at its end.
abbrev log_file : File
log_file = record {
  type = fd_inode;
  ref = 1;
  readable = true;
  writable = true;
  pipe = 0;
  ip = 5;
  off = 520;
}

filewrite-Written_example :
    (t : Locked) × (filewrite present letters 2000 log_file two_blocks
      ≡ Fs.ok (returns (pos 2000) (advance 2000 log_file) t))
    × Written letters 520 2000 two_blocks t
filewrite-Written_example =
    filewrite-Written present letters 2000 log_file two_blocks refl refl two_blocks-IsFile
      two_blocks-HasBlocks (omega arith) (omega arith) (omega arith) (omega (arith, twenty_free))
