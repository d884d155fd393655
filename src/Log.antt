-- ===== src/Log.antt =====
-- xv6/log.c: the redo log of the file system, on a disk that may lose power between two block writes.
-- A block is its words (`uint`). `cache b` is what `bread` returns for block `b`; `power` is the
-- number of block writes that are still made, so that a run with `power = k` leaves the disk as a
-- loss of power after `k` writes does. One block write is atomic, as the log itself assumes.
pub mod Install
pub mod Crash
pub mod Atomic
pub mod Space
mod Tests
use laboratorio_valen_el_noo.Base.{
  ℕ, zero, suc, ◌+◌, ◌-◌, ◌*◌, Bool, true, false, ◌||◌, Option, none, some, List, [], ◌∷◌, ◌++◌,
  ltb, leb, ◌==◌, if◌then◌else◌, length, take, drop,
}

abbrev pub Block : Type 0
Block = List ℕ

-- MAXOPBLOCKS and LOGSIZE
abbrev pub max_op_blocks : ℕ
max_op_blocks = 10

abbrev pub log_size : ℕ
log_size = 30

abbrev pub update {ℓ} : {A : Type ℓ} → (ℕ → A) → ℕ → A → ℕ → A
update f b v x = if x == b then v else f x

pub record Dev : Type 0 where
  pub disk : ℕ → Block
  pub cache : ℕ → Block
  pub dirty : ℕ → Bool
  pub power : ℕ

-- `bwrite`: B_DIRTY is set, and cleared by the driver once the block is written.
bwrite_at : ℕ → ℕ → Dev → Dev
bwrite_at zero b d = d
bwrite_at (suc k) b d = record d {
  disk = update d.disk b (d.cache b);
  dirty = update d.dirty b false;
  power = k;
}

pub bwrite : ℕ → Dev → Dev
unfolding bwrite_at
bwrite b d = bwrite_at d.power b d

-- A change of the data of a buffer that stays in the cache.
pub fill : ℕ → Block → Dev → Dev
fill b v d = record d { cache = update d.cache b v }

-- `struct logheader` in a block: the count, then the block numbers.
pub put_header : List ℕ → Block → Block
put_header bs w = length bs ∷ bs ++ drop (suc (length bs)) w

pub get_header : Block → List ℕ
get_header [] = []
get_header (n ∷ w) = take n w

-- The loops of `install_trans` and `write_log`, from log block `s` on, over the blocks left.
pub install_from : ℕ → List ℕ → Dev → Dev
install_from s [] d = d
install_from s (b ∷ bs) d = install_from (suc s) bs (bwrite b (fill b (d.cache s) d))

pub write_log_from : ℕ → List ℕ → Dev → Dev
write_log_from s [] d = d
write_log_from s (b ∷ bs) d = write_log_from (suc s) bs (bwrite s (fill s (d.cache b) d))

-- `log` in memory: `blocks` is `lh.block[0 .. lh.n)`.
pub record Log : Type 0 where
  pub start : ℕ
  pub size : ℕ
  pub outstanding : ℕ
  pub committing : Bool
  pub blocks : List ℕ

pub install_trans : Log → Dev → Dev
install_trans l d = install_from (suc l.start) l.blocks d

pub write_log : Log → Dev → Dev
write_log l d = write_log_from (suc l.start) l.blocks d

pub read_head : Log → Dev → Log
read_head l d = record l { blocks = get_header (d.cache l.start) }

pub write_head : Log → Dev → Dev
write_head l d = bwrite l.start (fill l.start (put_header l.blocks (d.cache l.start)) d)

pub cleared : Log → Log
cleared l = record l { blocks = [] }

pub recover_from_log : Log → Dev → Log × Dev
recover_from_log l d =
    let l1 = read_head l d in (cleared l1, write_head (cleared l1) (install_trans l1 d))

-- `commit` with `lh.n > 0`, and with an empty log.
pub commit : Log → Dev → Log × Dev
commit l d =
    if ltb 0 (length l.blocks)
    then (cleared l, write_head (cleared l) (install_trans l (write_head l (write_log l d))))
    else (l, d)

-- The machine starts again: nothing is cached.
pub reboot : ℕ → Dev → Dev
reboot k d = record { disk = d.disk; cache = d.disk; dirty = λ _. false; power = k }

-- Recoveries that are cut short, the `i`-th after as many block writes as the list says.
pub recoveries : Log → List ℕ → Dev → Dev
recoveries l [] d = d
recoveries l (j ∷ js) d = recoveries l js (recover_from_log l (reboot j d)).1

pub mem : ℕ → List ℕ → Bool
mem b [] = false
mem b (x ∷ xs) = x == b || mem b xs

-- `begin_op`, from a test on: `none` is a sleep on the log.
pub begin_op : Log → Option Log
begin_op l =
    if l.committing
    then none
    else if ltb log_size (length l.blocks + (l.outstanding + 1) * max_op_blocks)
    then none
    else some (record l { outstanding = l.outstanding + 1 })

-- A call that returns, or panics.
pub data Result (A : Type 0) : Type 0 where
  ok : A → Result A
  panic : Result A

-- `end_op` up to `release`: whether this call commits. A process calls it in an operation of its
-- own, so `outstanding` is 1 at least.
pub end_op : Log → Result (Bool × Log)
end_op l =
    if l.committing
    then panic
    else if l.outstanding == 1
    then ok (true, record l { outstanding = l.outstanding - 1; committing = true })
    else ok (false, record l { outstanding = l.outstanding - 1 })

-- The rest of `end_op` when it commits.
pub end_commit : Log → Dev → Log × Dev
end_commit l d = let (l1, d1) = commit l d in (record l1 { committing = false }, d1)

-- `log_write` of the buffer of block `b`.
pub log_write : ℕ → Log → Dev → Result (Log × Dev)
log_write b l d =
    if leb log_size (length l.blocks) || leb (l.size - 1) (length l.blocks)
    then panic
    else if ltb l.outstanding 1
    then panic
    else ok (
      record l { blocks = if mem b l.blocks then l.blocks else l.blocks ++ (b ∷ []) },
      record d { dirty = update d.dirty b true },
    )
