-- ===== src/Fs/Logged/Room.antt =====
-- Room in the log (xv6/log.c) for the blocks that `writei` of xv6/fs.c logs.
use laboratorio_valen_el_noo.Base.{
  ◌&&◌, ℕ, zero, suc, ◌+◌, ◌-◌, ◌≤◌, ◌<◌, ◌≡◌, refl, ap, ◌∙◌, Bool, true, false, List, [], ◌∷◌,
  ◌++◌, ◌==◌, ltb, if◌then◌else◌, length, length-append, arith,
}
use laboratorio_valen_el_noo.Log.{log_write, log_size}
use laboratorio_valen_el_noo.Log.Space.{log_write_admits}
use laboratorio_valen_el_noo.Fs.{Locked, Result, ok, ◌>>=◌, addr, ndirect}
use laboratorio_valen_el_noo.Fs.Logged.{
  inode_block, Layout, Journal, from_log, log_blocks, new_blocks, is_missing, bmap_blocks,
  size_blocks,
}

-- An operation is under way, and `k` more blocks may be logged.
pub record HasRoom (k : ℕ) (j : Journal) : Type 0 where
  pub under_way : 0 < j.0.outstanding
  pub below : length j.0.blocks + k ≤ log_size
  pub on_disk : length j.0.blocks + k < j.0.size

pub HasRoom-less : (k m : ℕ) (j : Journal) → k ≤ m → HasRoom m j → HasRoom k j
HasRoom-less k m j h r = record {
  under_way = r.under_way;
  below = omega (arith, r.below, h);
  on_disk = omega (arith, r.on_disk, h);
}

log_write-HasRoom :
    (b k : ℕ) (j : Journal)
    → HasRoom (suc k) j
    → (j1 : Journal) × (from_log (log_write b j.0 j.1) ≡ ok j1) × HasRoom k j1
unfolding from_log
log_write-HasRoom b k (l, d) r =
    let (l1, d1, e, more, same_size, same_out) =
      log_write_admits b l d r.under_way (omega (arith, r.below)) (omega (arith, r.on_disk)) in
    (
      (l1, d1),
      ap from_log e,
      record {
        under_way = omega (arith, r.under_way, same_out);
        below = omega (arith, r.below, more);
        on_disk = omega (arith, r.on_disk, more, same_size);
      },
    )

pub log_blocks-HasRoom :
    (bs : List ℕ) (k m : ℕ) (j : Journal)
    → length bs + k ≤ m
    → HasRoom m j
    → (j1 : Journal) × (log_blocks bs j ≡ ok j1) × HasRoom k j1
unfolding log_blocks
log_blocks-HasRoom [] k m j h r = (j, refl, HasRoom-less k m j (omega (arith, h)) r)
log_blocks-HasRoom (b ∷ bs) k zero j h r = absurd (omega (arith, h))
log_blocks-HasRoom (b ∷ bs) k (suc m) j h r =
    let (j1, e, r1) = log_write-HasRoom b m j r in
    let (j2, run, r2) = log_blocks-HasRoom bs k m j1 (omega (arith, h)) r1 in
    (j2, ap (λ (c : Result Journal). c >>= log_blocks bs) e ∙ run, r2)

length-if : (b : Bool) (bs : List ℕ) (n : ℕ) → length bs ≤ n → length (if b then bs else []) ≤ n
length-if true bs n h = h
length-if false bs n h = omega arith

-- `bmap` logs five blocks at most.
pub length-bmap_blocks :
    (lay : Layout) (bn : ℕ) (s : Locked) (p : ℕ × Locked) → length (bmap_blocks lay bn s p) ≤ 5
unfolding bmap_blocks
length-bmap_blocks lay bn s p = at (ltb bn ndirect)
  where
    direct : List ℕ
    direct = if addr s bn == 0 then new_blocks lay p.0 else []

    first : List ℕ
    first = if addr s ndirect == 0 then new_blocks lay (addr p.1 ndirect) else []

    second : List ℕ
    second =
        if is_missing (addr p.1 ndirect) (bn - ndirect) s
        then new_blocks lay p.0 ++ (addr p.1 ndirect ∷ [])
        else []

    at : (b : Bool) → length (if b then direct else first ++ second) ≤ 5
    at true = length-if (addr s bn == 0) (new_blocks lay p.0) 5 (omega arith)
    at false =
        let one : length first ≤ 2 =
          length-if (addr s ndirect == 0) (new_blocks lay (addr p.1 ndirect)) 2 (omega arith) in
        let two : length second ≤ 3 =
          length-if (is_missing (addr p.1 ndirect) (bn - ndirect) s)
            (new_blocks lay p.0 ++ (addr p.1 ndirect ∷ [])) 3 (omega arith) in
        omega (arith, length-append first second, one, two)

pub length-size_blocks :
    (lay : Layout) (n off : ℕ) (s : Locked) → length (size_blocks lay n off s) ≤ 1
unfolding size_blocks
length-size_blocks lay n off s =
    length-if (ltb 0 n && ltb s.ip.copy.size off) (inode_block lay s.ip.inum ∷ []) 1 (omega arith)
