-- ===== src/Pipe.antt =====
-- xv6/pipe.c: pipes. What runs between `acquire(&p->lock)` and the next `release` or `sleep` is one
-- function here, since nothing else changes the pipe meanwhile; a writer or a reader that sleeps
-- is a result, and it goes on by another call of the same function.
pub mod Inv
pub mod Stream
pub mod Fifo
mod Tests
use laboratorio_valen_el_noo.Base.{
  ℕ, zero, suc, ◌+◌, ◌%◌, ◌^◌, Bool, true, false, ◌&&◌, ◌||◌, not, Option, none, some, List, [],
  ◌∷◌, ◌==◌, if◌then◌else◌, get_or, set, ℤ, pos, minus_one,
}

-- PIPESIZE, and the range of a `uint`
abbrev pub pipesize : ℕ
pipesize = 512

abbrev pub uint_range : ℕ
uint_range = 2 ^ 32

-- `struct pipe`; bytes are only moved, so a byte is any number.
pub record Pipe : Type 0 where
  pub buf : List ℕ
  pub nread : ℕ
  pub nwrite : ℕ
  pub readopen : Bool
  pub writeopen : Bool

-- The channels `&p->nread` and `&p->nwrite`.
pub data Chan : Type 0 where
  readers writers : Chan

-- How a run of `pipewrite` or `piperead` ends: it returns, or it sleeps on a channel.
pub data Status : Type 0 where
  returned : ℤ → Status
  asleep : Chan → Status

-- The pipe that `pipealloc` sets up in the page it was given.
pub setup : List ℕ → Pipe
setup page = record { buf = page; nread = 0; nwrite = 0; readopen = true; writeopen = true }

-- `p->nwrite == p->nread + PIPESIZE`, in `uint` arithmetic
pub is_full : Pipe → Bool
is_full p = p.nwrite == (p.nread + pipesize) % uint_range

pub is_empty : Pipe → Bool
is_empty p = p.nread == p.nwrite

-- `p->data[p->nwrite++ % PIPESIZE] = x`
pub put : Pipe → ℕ → Pipe
put p x = record p { buf = set p.buf (p.nwrite % pipesize) x; nwrite = (p.nwrite + 1) % uint_range }

-- `p->data[p->nread++ % PIPESIZE]`
pub front : Pipe → ℕ
front p = get_or p.buf (p.nread % pipesize) 0

pub advance : Pipe → Pipe
advance p = record p { nread = (p.nread + 1) % uint_range }

-- A run of `pipewrite`: how it ends, the bytes that are left to write, the pipe, and the channels
-- that it wakes.
pub record WriteRun : Type 0 where
  pub status : Status
  pub rest : List ℕ
  pub pipe : Pipe
  pub woken : List Chan

-- The loop of `pipewrite` with `n` bytes in all, from its test `i < n` on.
pub pipewrite : Bool → ℕ → Pipe → List ℕ → WriteRun
pipewrite killed n p [] = record {
  status = returned (pos n);
  rest = [];
  pipe = p;
  woken = readers ∷ [];
}
pipewrite killed n p (x ∷ xs) = elim (is_full p) [
  | false ↦ pipewrite killed n (put p x) xs
  | true ↦
      if not p.readopen || killed
      then record { status = returned minus_one; rest = x ∷ xs; pipe = p; woken = [] }
      else record { status = asleep writers; rest = x ∷ xs; pipe = p; woken = readers ∷ [] }
]

-- The copying loop of `piperead`: the bytes read, and the pipe.
pub copy_out : ℕ → Pipe → List ℕ × Pipe
copy_out zero p = ([], p)
copy_out (suc n) p = elim (is_empty p) [
  | true ↦ ([], p)
  | false ↦ let (bytes, p') = copy_out n (advance p) in (front p ∷ bytes, p')
]

pub record ReadRun : Type 0 where
  pub status : Status
  pub bytes : List ℕ
  pub pipe : Pipe
  pub woken : List Chan

pub count_bytes : List ℕ → ℕ
count_bytes [] = 0
count_bytes (_ ∷ xs) = suc (count_bytes xs)

-- A run of `piperead` for at most `n` bytes.
pub piperead : Bool → ℕ → Pipe → ReadRun
piperead killed n p =
    if is_empty p && p.writeopen
    then (if killed
        then record { status = returned minus_one; bytes = []; pipe = p; woken = [] }
        else record { status = asleep readers; bytes = []; pipe = p; woken = [] })
    else (let (bytes, p') = copy_out n p in
        record {
          status = returned (pos (count_bytes bytes));
          bytes = bytes;
          pipe = p';
          woken = writers ∷ [];
        })

-- `pipeclose`: `none` once both ends are closed and the page is freed.
pub close_end : Bool → Pipe → Pipe
close_end true p = record p { writeopen = false }
close_end false p = record p { readopen = false }

pub pipeclose : Bool → Pipe → Option Pipe × List Chan
pipeclose writable p =
    let p' = close_end writable p in
    (
      if not p'.readopen && not p'.writeopen then none else some p',
      (if writable then readers else writers) ∷ [],
    )
