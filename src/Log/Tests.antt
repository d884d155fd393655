-- ===== src/Log/Tests.antt =====
-- The log's theorems at concrete states, and a run of a commit that loses power.
use laboratorio_valen_el_noo.Base.{
  ℕ, ◌<◌, ◌⊎◌, ◌≡◌, refl, true, false, [], ◌∷◌, arith, ltb, if◌then◌else◌,
}
use laboratorio_valen_el_noo.Log.{
  Dev, Log, bwrite, bwrite_at, fill, install_from, write_log_from, mem, put_header, get_header,
  install_trans, write_log, read_head, write_head, cleared, recover_from_log, recoveries, commit,
  reboot, begin_op, log_write, ok, log_size, panic,
}
use laboratorio_valen_el_noo.Log.Install.{is_home}
use laboratorio_valen_el_noo.Log.Atomic.{commit_atomic}
use laboratorio_valen_el_noo.Log.Space.{
  System, here, later, begin, Fits, Reach-Fits, log_write-admitted, times,
}

-- A log of 30 blocks from block 2 on, with blocks 40 and 41 in the transaction.
abbrev two_blocks : Log
two_blocks = record {
  start = 2;
  size = 30;
  outstanding = 0;
  committing = true;
  blocks = 40 ∷ 41 ∷ [];
}

abbrev zeroed : Dev
zeroed = record { disk = λ _. 0 ∷ []; cache = λ b. b ∷ []; dirty = λ _. false; power = 0 }

-- Power for four block writes: the log, the header, and block 40; then for one, in recovery.
stopped : Dev
stopped = recoveries two_blocks (1 ∷ []) (commit two_blocks (record zeroed { power = 4 })).1

resumed : Dev
resumed = (recover_from_log two_blocks (reboot 9 stopped)).1

stopped_state : (stopped.disk 40 ≡ 40 ∷ []) × (stopped.disk 41 ≡ 0 ∷ [])
unfolding stopped recoveries commit write_log write_log_from write_head install_trans install_from
    bwrite bwrite_at fill put_header get_header read_head recover_from_log cleared reboot
stopped_state = (refl, refl)

resumed_state : (resumed.disk 40 ≡ 40 ∷ []) × (resumed.disk 41 ≡ 41 ∷ [])
unfolding resumed stopped recoveries commit write_log write_log_from write_head install_trans
    install_from bwrite bwrite_at fill put_header get_header read_head recover_from_log cleared
    reboot
resumed_state = (refl, refl)

commit_atomic_example :
    let f =
      (recover_from_log two_blocks (
        reboot 9 (
          recoveries two_blocks
            (1 ∷ [])
            (commit two_blocks (record zeroed { power = 4 })).1))).1.disk in
    ((x : ℕ)
      → is_home 2 2 x ≡ true
      → f x ≡ (if ltb 2 4 then (if mem x (40 ∷ 41 ∷ []) then x ∷ [] else 0 ∷ []) else 0 ∷ []))
    × (get_header (f 2) ≡ [])
unfolding get_header
commit_atomic_example =
    commit_atomic two_blocks zeroed 4 (1 ∷ []) 9 (refl, (refl, tt)) refl (omega arith)

abbrev idle : Log
idle = record { start = 2; size = 30; outstanding = 0; committing = false; blocks = [] }

abbrev quiet : System
quiet = record { log = idle; dev = zeroed; quotas = [] }

quiet-Fits : Fits quiet
quiet-Fits = record {
  counted = refl;
  capped = tt;
  room = omega arith;
  alone = λ h. cc;
  distinct = λ b. omega arith;
}

abbrev busy : System
busy = record { log = record idle { outstanding = 1 }; dev = zeroed; quotas = 10 ∷ [] }

busy-Fits : Fits busy
busy-Fits = record {
  counted = refl;
  capped = (omega arith, tt);
  room = omega arith;
  alone = λ h. cc;
  distinct = λ b. omega arith;
}

Reach-Fits_example : Fits busy
unfolding begin_op
Reach-Fits_example =
    Reach-Fits quiet-Fits (later here (begin (record idle { outstanding = 1 }) refl))

log_write-admitted_example :
    ((1 < log_size)
      × ((l : Log) × (d : Dev) × (log_write 40 busy.log busy.dev ≡ ok (l, d))
          × (times 40 l.blocks ≡ 1)
          × (d.dirty 40 ≡ true)))
    ⊎ ((1 ≡ log_size) × (log_write 40 busy.log busy.dev ≡ panic))
log_write-admitted_example = log_write-admitted busy 0 9 40 busy-Fits refl refl
