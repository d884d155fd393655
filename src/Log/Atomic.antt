-- ===== src/Log/Atomic.antt =====
-- `commit` (xv6/log.c) is atomic, whenever the power fails, and however often recovery is cut short.
use laboratorio_valen_el_noo.Base.{
  ℕ, suc, ◌+◌, ◌≤◌, ◌<◌, ◌≡◌, refl, sym, ap, ◌∙◌, true, false, ◌⊎◌, inl, inr, List, [], ◌∷◌, ltb,
  if◌then◌else◌, length, arith, Bool-cases,
}
use mathlib.Core.Path.{subst}
use laboratorio_valen_el_noo.Log.{
  Block, Dev, Log, bwrite, fill, install_from, mem, get_header, install_trans, write_log, read_head,
  write_head, cleared, recover_from_log, recoveries, commit, reboot,
}
use laboratorio_valen_el_noo.Log.Install.{
  is_home, AllHome, Logged, Logged-ext, LogWritten, write_log_from-LogWritten, bwrite-fill_disk,
  bwrite-fill_power,
}
use laboratorio_valen_el_noo.Log.Crash.{
  Pending, outcome, Resumed, install_clear, write_head_on, write_head_off, write_head_cache,
  write_head_power,
}

-- Nothing is written without power.
install_from_off :
    (s : ℕ) (bs : List ℕ) (d : Dev)
    → d.power ≡ 0
    → ((x : ℕ) → (install_from s bs d).disk x ≡ d.disk x) × ((install_from s bs d).power ≡ 0)
unfolding install_from
install_from_off s [] d p = (λ x. refl, p)
install_from_off s (b ∷ bs) d p =
    let d1 : Dev = bwrite b (fill b (d.cache s) d) in
    let (e, q) =
      install_from_off (suc s) bs d1 (omega (arith, bwrite-fill_power b (d.cache s) d)) in
    (λ x. e x ∙ bwrite-fill_disk b (d.cache s) d x ∙ ground arith, q)

not_mem_of_empty : (x : ℕ) (bs : List ℕ) → ltb 0 (length bs) ≡ false → mem x bs ≡ false
unfolding mem
not_mem_of_empty x [] h = refl
not_mem_of_empty x (b ∷ bs) h = absurd (ground arith)

-- The state of the disk when `commit` stops.
record Stopped (l : Log) (d : Dev) (k : ℕ) (f : ℕ → Block) : Type 0 where
  left : List ℕ
  pending : Pending l.start (length l.blocks) d.cache left f
  decided :
      (x : ℕ)
      → is_home l.start (length l.blocks) x ≡ true
      → outcome d.cache left f x
        ≡ (if ltb (length l.blocks) k then outcome d.cache l.blocks d.disk x else d.disk x)

outside : (s n x : ℕ) → is_home s n x ≡ true → (x < suc s) ⊎ (suc s + n ≤ x)
outside s n x h = elim (Bool-cases (ltb x s)) [
  | inl t ↦ inl (ground arith)
  | inr t ↦ inr (ground arith)
]

write_log-LogWritten :
    (l : Log) (d : Dev)
    → AllHome l.start (length l.blocks) l.blocks
    → LogWritten (suc l.start) l.blocks d (write_log l d)
unfolding write_log
write_log-LogWritten l d home =
    write_log_from-LogWritten l.start (length l.blocks) (suc l.start) l.blocks d (omega arith)
      (omega arith) home

-- The four phases of a commit.
abbrev phases : Log → Dev → Dev
phases l d = write_head (cleared l) (install_trans l (write_head l (write_log l d)))

-- The power fails before the header is written.
commit_early :
    (l : Log) (d : Dev) (k : ℕ)
    → AllHome l.start (length l.blocks) l.blocks
    → get_header (d.disk l.start) ≡ []
    → ltb (length l.blocks) k ≡ false
    → Stopped l d k (phases l (record d { power = k })).disk
unfolding install_trans mem cleared
commit_early l d k home clean early =
    let w = write_log-LogWritten l (record d { power = k }) home in
    let d1 : Dev = write_log l (record d { power = k }) in
    let off : d1.power ≡ 0 = ground (arith, w.power) in
    let off2 : (write_head l d1).power ≡ 0 = omega (arith, write_head_power l d1) in
    let (i, off3) = install_from_off (suc l.start) l.blocks (write_head l d1) off2 in
    let same : (x : ℕ) → (phases l (record d { power = k })).disk x ≡ d1.disk x = λ x.
      write_head_off (cleared l) (install_trans l (write_head l d1)) off3 x
      ∙ i x
      ∙ write_head_off l d1 off x in
    record {
      left = [];
      pending = record {
        header = ap get_header (same l.start ∙ w.disk_same l.start (inl (omega arith))) ∙ clean;
        short = omega arith;
        home = tt;
        logged = tt;
      };
      decided =
          λ x h. same x ∙ w.disk_same x (outside l.start (length l.blocks) x h) ∙ rw early refl;
    }

-- The power fails later, or not at all.
commit_late :
    (l : Log) (d : Dev) (k : ℕ)
    → AllHome l.start (length l.blocks) l.blocks
    → ltb (length l.blocks) k ≡ true
    → Stopped l d k (phases l (record d { power = k })).disk
commit_late l d k home late =
    let w = write_log-LogWritten l (record d { power = k }) home in
    let d1 : Dev = write_log l (record d { power = k }) in
    let d2 : Dev = write_head l d1 in
    let on : 0 < d1.power = ground (arith, w.power) in
    let (hd, rest) = write_head_on l d1 on in
    let p : Pending l.start (length l.blocks) d.cache l.blocks d2.disk = record {
      header = hd;
      short = omega arith;
      home = home;
      logged =
          Logged-ext d.cache d1.disk d2.disk (suc l.start) l.blocks (λ x a b. rest x (ground arith))
            (w.on_disk (ground arith));
    } in
    let g : Logged d.cache (suc l.start) l.blocks d2.cache =
      Logged-ext d.cache d1.cache d2.cache (suc l.start) l.blocks
        (λ x a b. write_head_cache l d1 x (ground arith)) w.in_cache in
    let r = install_clear l (length l.blocks) d.cache d2 p g in
    record {
      left = r.left;
      pending = r.pending;
      decided = λ x h.
          let e : d2.disk x ≡ d.disk x =
            rest x (ground (arith, h)) ∙ w.disk_same x (outside l.start (length l.blocks) x h) in
          r.same x h ∙ ap (λ z. if mem x l.blocks then d.cache x else z) e ∙ rw late refl;
    }

commit-Stopped :
    (l : Log) (d : Dev) (k : ℕ)
    → AllHome l.start (length l.blocks) l.blocks
    → get_header (d.disk l.start) ≡ []
    → Stopped l d k (commit l (record d { power = k })).1.disk
unfolding commit mem
commit-Stopped l d k home clean = elim (Bool-cases (ltb 0 (length l.blocks))) [
  | inr empty ↦ rw empty (record {
    left = [];
    pending = record { header = clean; short = omega arith; home = tt; logged = tt };
    decided = λ x h. ground (arith, not_mem_of_empty x l.blocks empty);
  })
  | inl some ↦ rw some (elim (Bool-cases (ltb (length l.blocks) k)) [
    | inl late ↦ commit_late l d k home late
    | inr early ↦ commit_early l d k home clean early
  ])
]

-- One run of `recover_from_log` with power for `j` writes.
recover_lem :
    (l : Log) (n : ℕ) (target : ℕ → Block) (hs : List ℕ) (d : Dev) (j : ℕ)
    → Pending l.start n target hs d.disk
    → Resumed l.start n target hs d.disk (recover_from_log l (reboot j d)).1.disk j
unfolding recover_from_log read_head reboot
recover_lem l n target hs d j p =
    let l1 : Log = record l { blocks = get_header (d.disk l.start) } in
    subst
      (λ h.
        Resumed l.start n target h d.disk
          (write_head (cleared l1) (install_trans l1 (reboot j d))).disk j)
      p.header (install_clear l1 n target (reboot j d) (rw p.header p) (rw p.header p.logged))

recoveries_lem :
    (l : Log) (n : ℕ) (target : ℕ → Block) (hs : List ℕ) (js : List ℕ) (d : Dev)
    → Pending l.start n target hs d.disk
    → (left : List ℕ) × Pending l.start n target left (recoveries l js d).disk
      × ((x : ℕ)
          → is_home l.start n x ≡ true
          → outcome target left (recoveries l js d).disk x ≡ outcome target hs d.disk x)
unfolding recoveries
recoveries_lem l n target hs [] d p = (hs, p, λ x h. refl)
recoveries_lem l n target hs (j ∷ js) d p =
    let r = recover_lem l n target hs d j p in
    let (left, q, same) =
      recoveries_lem l n target r.left js (recover_from_log l (reboot j d)).1 r.pending in
    (left, q, λ x h. same x h ∙ r.same x h)

-- A commit of blocks that lie outside the log, begun with an empty log on disk and stopped by a loss
-- of power after any number `k` of block writes, then any number of recoveries stopped likewise,
-- then one that has the power for all its writes, leave the disk outside the log in one of two
-- states: as it was before, if `k` is at most the number of blocks, so that the header was
-- not written; and otherwise with every block of the transaction as it was in the cache, and
-- every other as it was. The log on disk is empty then.
pub commit_atomic :
    (l : Log) (d : Dev) (k : ℕ) (js : List ℕ) (j : ℕ)
    → AllHome l.start (length l.blocks) l.blocks
    → get_header (d.disk l.start) ≡ []
    → length l.blocks < j
    → let f =
        (recover_from_log l
          (reboot j (recoveries l js (commit l (record d { power = k })).1))).1.disk in
      ((x : ℕ)
        → is_home l.start (length l.blocks) x ≡ true
        → f x ≡ (
            if ltb (length l.blocks) k
            then (if mem x l.blocks then d.cache x else d.disk x)
            else d.disk x))
      × (get_header (f l.start) ≡ [])
unfolding mem
commit_atomic l d k js j home clean enough =
    let s = commit-Stopped l d k home clean in
    let e : Dev = (commit l (record d { power = k })).1 in
    let (left, p, same) = recoveries_lem l (length l.blocks) d.cache s.left js e s.pending in
    let r = recover_lem l (length l.blocks) d.cache left (recoveries l js e) j p in
    let none_left : r.left ≡ [] = r.finished (omega (arith, p.short)) in
    (
      λ x h.
          sym (
            ap (λ z. outcome d.cache z (recover_from_log l (reboot j (recoveries l js e))).1.disk x)
              none_left)
          ∙ r.same x h
          ∙ same x h
          ∙ s.decided x h,
      r.pending.header ∙ none_left,
    )
