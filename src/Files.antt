-- ===== src/Files.antt =====
-- xv6/file.c: the table of open files, and the pipes of xv6/pipe.c that `pipealloc` opens on it. The
-- lock of the table is held throughout each function.
pub mod Count
pub mod Alloc
pub mod Transfer
mod Tests
use laboratorio_valen_el_noo.Base.{
  ℕ, zero, suc, ◌+◌, ◌-◌, Bool, true, false, Option, none, some, List, [], ◌∷◌, ◌==◌, ltb,
  if◌then◌else◌, get_elem?, modify, find_index, ◌++◌,
}

-- FD_NONE, FD_PIPE, FD_INODE
pub data Kind : Type 0 where
  fd_none fd_pipe fd_inode : Kind

-- `struct file`; pointers to a pipe or an inode are numbers.
pub record File : Type 0 where
  pub type : Kind
  pub ref : ℕ
  pub readable : Bool
  pub writable : Bool
  pub pipe : ℕ
  pub ip : ℕ
  pub off : ℕ

-- A call that returns, or panics.
pub data Result (A : Type 0) : Type 0 where
  ok : A → Result A
  panic : Result A

abbrev pub is_unused : File → Bool
is_unused f = f.ref == 0

-- `filealloc`: the index of the entry.
pub filealloc : List File → Option ℕ × List File
filealloc t = elim (find_index is_unused t) [
  | none ↦ (none, t)
  | some i ↦ (some i, modify t i (λ f. record f { ref = 1 }))
]

-- `filedup`, of the entry at `i`. Fewer than 2 ^ 31 - 1 references are held.
pub dup_entry : ℕ → Option File → List File → Result (List File)
dup_entry i none t = panic
dup_entry i (some f) t =
    if ltb f.ref 1 then panic else ok (modify t i (λ x. record x { ref = f.ref + 1 }))

pub filedup : ℕ → List File → Result (List File)
filedup i t = dup_entry i (get_elem? t i) t

-- What `fileclose` goes on to close: nothing, an end of a pipe, or an inode.
pub data Closing : Type 0 where
  nothing : Closing
  pipeclose : ℕ → Bool → Closing
  iput : ℕ → Closing

pub closing : File → Closing
closing f = elim f.type [
  | fd_none ↦ nothing
  | fd_pipe ↦ pipeclose f.pipe f.writable
  | fd_inode ↦ iput f.ip
]

pub close_entry : ℕ → Option File → List File → Result (Closing × List File)
close_entry i none t = panic
close_entry i (some f) t =
    if ltb f.ref 1
    then panic
    else if ltb 0 (f.ref - 1)
    then ok (nothing, modify t i (λ x. record x { ref = f.ref - 1 }))
    else ok (closing f, modify t i (λ x. record x { ref = 0; type = fd_none }))

pub fileclose : ℕ → List File → Result (Closing × List File)
fileclose i t = close_entry i (get_elem? t i) t

-- The ends of a pipe `p`, as `pipealloc` sets them.
abbrev pub read_end : ℕ → File → File
read_end p f = record f { type = fd_pipe; readable = true; writable = false; pipe = p }

abbrev pub write_end : ℕ → File → File
write_end p f = record f { type = fd_pipe; readable = false; writable = true; pipe = p }

-- What `pipealloc` comes to: the two entries, or -1 with what its calls of `fileclose` closed.
pub data Piped : Type 0 where
  opened : ℕ → ℕ → Piped
  failed : List Closing → Piped

-- `fileclose` of an entry that may be missing, on the way out.
pub close_after : Option ℕ → Result (List Closing × List File) → Result (List Closing × List File)
close_after none r = r
close_after (some i) panic = panic
close_after (some i) (ok (cs, t)) = elim (fileclose i t) [
  | panic ↦ panic
  | ok p ↦ ok (cs ++ (p.0 ∷ []), p.1)
]

pub bad : Option ℕ → Option ℕ → List File → Result (Piped × List File)
bad f0 f1 t = elim (close_after f1 (close_after f0 (ok ([], t)))) [
  | panic ↦ panic
  | ok p ↦ ok (failed p.0, p.1)
]

-- `pipealloc`, with the page that `kalloc` returns: once two entries are found, after one, and at the
-- start.
pub with_page : Option ℕ → ℕ → ℕ → List File → Result (Piped × List File)
with_page none i j t = bad (some i) (some j) t
with_page (some p) i j t = ok (opened i j, modify (modify t i (read_end p)) j (write_end p))

pub with_first : Option ℕ → ℕ → Option ℕ × List File → Result (Piped × List File)
with_first page i (none, t) = bad (some i) none t
with_first page i (some j, t) = with_page page i j t

pub pipe_files : Option ℕ → Option ℕ × List File → Result (Piped × List File)
pipe_files page (none, t) = bad none none t
pipe_files page (some i, t) = with_first page i (filealloc t)

pub pipealloc : Option ℕ → List File → Result (Piped × List File)
pipealloc page t = pipe_files page (filealloc t)
