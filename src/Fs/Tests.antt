-- ===== src/Fs/Tests.antt =====
-- The theorems on blocks and contents of files at a concrete file.
use laboratorio_valen_el_noo.Base.{ℕ, ◌≡◌, arith}
use laboratorio_valen_el_noo.Strings.{Bytes}
use laboratorio_valen_el_noo.Fs.{Locked, ok, io_done, bmap, readi}
use laboratorio_valen_el_noo.Fs.Free.{Allocates, balloc-Allocates}
use laboratorio_valen_el_noo.Fs.Slots.{place, byte_at}
use laboratorio_valen_el_noo.Fs.Bmap.{Got, bmap-Got}
use laboratorio_valen_el_noo.Fs.Content.{readi_lem}
use laboratorio_valen_el_noo.Fs.Truncate.{itrunc}
use laboratorio_valen_el_noo.Fs.Truncate.Whole.{Truncated, itrunc-Truncated}
use laboratorio_valen_el_noo.Fs.{copied}
use laboratorio_valen_el_noo.Fs.Sample.{
  zeros, disk, two_blocks, present, two_blocks-IsFile, two_blocks-HasBlocks, twenty_free,
}

balloc-Allocates_example : Allocates disk
balloc-Allocates_example = balloc-Allocates disk

bmap-Got_example :
    (b : ℕ) × (t : Locked) × (bmap 20 two_blocks ≡ ok (b, t)) × Got 2 (place 20) b two_blocks t
bmap-Got_example =
    bmap-Got 20 two_blocks two_blocks-IsFile (omega arith) (omega (arith, twenty_free))

readi_lem_example :
    (u : Bytes) × (readi present zeros 500 40 two_blocks ≡ ok (io_done 20 (u, two_blocks)))
    × ((x : ℕ) → u x ≡ copied 20 0 500 (byte_at two_blocks) zeros x)
readi_lem_example =
    readi_lem present zeros 500 40 two_blocks two_blocks-HasBlocks (omega arith) (omega arith)
      (omega arith) (omega arith)

itrunc-Truncated_example : (t : Locked) × (itrunc two_blocks ≡ ok t) × Truncated two_blocks t
itrunc-Truncated_example = itrunc-Truncated two_blocks two_blocks-IsFile
