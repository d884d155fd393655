-- ===== src/Bio/Tests.antt =====
-- xv6/bio.c with three buffers.
use laboratorio_valen_el_noo.Base.{
  refl, ℕ, ◌≡◌, ◌⊎◌, none, some, List, [], ◌∷◌, count, true, false, arith,
}
use laboratorio_valen_el_noo.Bio.{Buf, unused, bget, brelse, released, binit}
use laboratorio_valen_el_noo.Bio.Unique.{
  IsUnique, Got, copies, binit-IsUnique, bget_lem, brelse_lem, Dropped,
}

bget_lem_example :
    ((bget 1 7 (binit 3) ≡ none) × (copies 1 7 (binit 3) ≡ 0) × (count unused (binit 3) ≡ 0))
    ⊎ ((i : ℕ) × (cs : List Buf) × (bget 1 7 (binit 3) ≡ some (i, cs))
        × IsUnique cs
        × Got 1 7 (binit 3) i cs)
bget_lem_example = bget_lem 1 7 (binit 3) (binit-IsUnique 3)

abbrev two : List Buf
two =
    record { index = 1; dev = 1; blockno = 7; refcnt = 0; valid = true; dirty = true }
    ∷ record { index = 0; dev = 1; blockno = 8; refcnt = 1; valid = true; dirty = false }
    ∷ []

two-IsUnique : IsUnique two
two-IsUnique dev blockno h = ground arith

to_front : brelse 1 two ≡ (
    record { index = 0; dev = 1; blockno = 8; refcnt = 0; valid = true; dirty = false }
    ∷ record { index = 1; dev = 1; blockno = 7; refcnt = 0; valid = true; dirty = true }
    ∷ [])
unfolding brelse released
to_front = refl

brelse_lem_example :
    IsUnique (brelse 1 two)
    × Dropped 1
        (record { index = 0; dev = 1; blockno = 8; refcnt = 1; valid = true; dirty = false })
        two
        (brelse 1 two)
brelse_lem_example =
    brelse_lem 1 two
      (record { index = 0; dev = 1; blockno = 8; refcnt = 1; valid = true; dirty = false })
      two-IsUnique refl (omega arith) (omega arith)
