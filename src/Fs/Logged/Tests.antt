-- ===== src/Fs/Logged/Tests.antt =====
-- The theorems on `writei` of xv6/fs.c at a concrete file, with an empty log.
use laboratorio_valen_el_noo.Base.{ℕ, ◌+◌, ◌*◌, ◌≤◌, ◌<◌, ◌≡◌, ◌⊎◌, ◌↔◌, false, [], ◌∷◌, arith}
use laboratorio_valen_el_noo.Strings.{Bytes}
use laboratorio_valen_el_noo.Fs.{Locked, ok, io_done, io_failed, readi, bsize, maxfile}
use laboratorio_valen_el_noo.Fs.Bmap.{free_blocks}
use laboratorio_valen_el_noo.Fs.Write.{spans}
use laboratorio_valen_el_noo.Fs.Content.{Written}
use laboratorio_valen_el_noo.Fs.Logged.{Layout, Journal, writei}
use laboratorio_valen_el_noo.Fs.Logged.Room.{HasRoom}
use laboratorio_valen_el_noo.Fs.Logged.Whole.{writei-Written, readi-writei}
use laboratorio_valen_el_noo.Fs.Logged.Refused.{io_refused}
use laboratorio_valen_el_noo.Fs.Sample.{
  letters, zeros, disk, two_blocks, present, two_blocks-IsFile, two_blocks-HasBlocks,
}

-- The superblock of a small disk.
abbrev layout : Layout
layout = record { bmapstart = 58; inodestart = 32 }

abbrev journal : Journal
journal = (
  record { start = 2; size = 30; outstanding = 1; committing = false; blocks = [] },
  record { disk = λ _. 0 ∷ []; cache = λ _. 0 ∷ []; dirty = λ b. false; power = 1000 },
)

thirteen : HasRoom 13 journal
thirteen = record { under_way = omega arith; below = omega arith; on_disk = omega arith }

-- The log has room for any transaction of `filewrite`, of 1536 bytes at most.
transaction-HasRoom : (off n : ℕ) → n ≤ 1536 → HasRoom (6 * spans off n + 1) journal
transaction-HasRoom off n h =
    let four : spans off n ≤ 4 = ground (arith, h) in
    record { under_way = omega arith; below = omega (arith, four); on_disk = omega (arith, four) }

writei-Written_example :
    (t : Locked) × (k : Journal) × (writei present layout letters 520 600 two_blocks journal
      ≡ ok (io_done 600 (t, k)))
    × Written letters 520 600 two_blocks t
    × (free_blocks disk ≤ free_blocks t.disk + 2 * spans 520 600)
writei-Written_example =
    writei-Written present layout letters 520 600 two_blocks journal two_blocks-IsFile
      two_blocks-HasBlocks (omega arith) (omega arith) (omega arith) (omega arith) thirteen

readi-writei_example :
    (t : Locked) × (k : Journal) × (u : Bytes) × (writei present layout letters 520 600 two_blocks
        journal
      ≡ ok (io_done 600 (t, k)))
    × (readi present zeros 520 600 t ≡ ok (io_done 600 (u, t)))
    × ((x : ℕ) → x < 600 → u x ≡ letters x)
readi-writei_example =
    readi-writei present layout letters zeros 520 600 two_blocks journal two_blocks-IsFile
      two_blocks-HasBlocks (omega arith) (omega arith) (omega arith) (omega arith) (omega arith)
      thirteen

io_refused_example :
    ((readi present zeros 521 1 two_blocks ≡ ok io_failed) ↔ ((520 < 521) ⊎ (4294967296 ≤ 521 + 1)))
    × ((writei present layout zeros 521 1 two_blocks journal ≡ ok io_failed)
        ↔ ((520 < 521) ⊎ (maxfile * bsize < 521 + 1)))
io_refused_example =
    io_refused present layout zeros 521 1 two_blocks journal (omega arith) (omega arith)
      (omega arith)
