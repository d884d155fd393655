-- ===== src/Fs/Logged/Whole.antt =====
-- `writei` of xv6/fs.c within a transaction: it writes the file and does not fill the log.
use laboratorio_valen_el_noo.Base.{
  ℕ, zero, suc, ◌+◌, ◌-◌, ◌*◌, ◌/◌, ◌%◌, ◌≤◌, ◌<◌, ◌≡◌, ◌≢◌, refl, sym, ap, ◌∙◌, inl, inr, Bool,
  true, false, ◌||◌, [], ◌∷◌, ◌++◌, ltb, ◌==◌, length, length-append, arith, Bool-cases,
}
use laboratorio_valen_el_noo.Strings.{Bytes}
use laboratorio_valen_el_noo.Fs.{
  Locked, Result, ok, panic, out_of_fuel, ◌>>=◌, bmap, data_loop, copied, chunk, set_bytes, Io,
  io_done, io_failed, io_driver, grown, t_dev, maxfile, bsize, readi, writei_data, add,
}
use laboratorio_valen_el_noo.Fs.Slots.{IsFile}
use laboratorio_valen_el_noo.Fs.Bmap.{free_blocks}
use laboratorio_valen_el_noo.Fs.Write.{spans, chunk-bounds}
use laboratorio_valen_el_noo.Fs.Read.{HasBlocks}
use laboratorio_valen_el_noo.Fs.Guards.{data_passes}
use laboratorio_valen_el_noo.Fs.Content.{Written, writei_data-Written, readi-writei_data}
use laboratorio_valen_el_noo.Fs.Logged.{
  Layout, Journal, log_blocks, bmap_blocks, size_blocks, write_loop, writei,
}
use laboratorio_valen_el_noo.Fs.Logged.Room.{
  HasRoom, HasRoom-less, log_blocks-HasRoom, length-bmap_blocks, length-size_blocks,
}

bind_ok :
    {A B : Type 0} (r : Result A) (f : A → Result B) (b : B)
    → (r >>= f) ≡ ok b
    → (a : A) × (r ≡ ok a) × (f a ≡ ok b)
bind_ok (ok a) f b e = (a, refl, e)
bind_ok panic f b e = absurd (cc)
bind_ok out_of_fuel f b e = absurd (cc)

-- The file after a round, in which `bmap` returned `p`.
abbrev after_round : Bytes → ℕ → ℕ → ℕ → ℕ × Locked → Locked
after_round src m tot off p = record p.1 {
  disk = set_bytes p.0 (copied m (off % bsize) tot src (p.1.disk.bytes p.0)) p.1.disk;
}

module _ (lay : Layout) (fuel n tot off : ℕ) (src : Bytes) (s : Locked) where
  abbrev part : ℕ
  part = chunk (n - tot) off

  data_round :
      ltb tot n ≡ true
      → data_loop (suc fuel) n src tot off s ≡ (
          bmap (off / bsize) s >>= λ p.
          data_loop fuel n src (tot + part) (off + part) (after_round src part tot off p))
  unfolding data_loop
  data_round h = rw (data_loop, h) refl

  data_stop : ltb tot n ≡ false → data_loop (suc fuel) n src tot off s ≡ ok s
  unfolding data_loop
  data_stop h = rw (data_loop, h) refl

  loop_stop :
      (j : Journal) → ltb tot n ≡ false → write_loop lay (suc fuel) n src tot off s j ≡ ok (s, j)
  unfolding write_loop
  loop_stop j h = rw (write_loop, h) refl

  loop_round :
      (j j1 : Journal) (p : ℕ × Locked)
      → ltb tot n ≡ true
      → bmap (off / bsize) s ≡ ok p
      → log_blocks (bmap_blocks lay (off / bsize) s p ++ (p.0 ∷ [])) j ≡ ok j1
      → write_loop lay (suc fuel) n src tot off s j
        ≡ write_loop lay fuel n src (tot + part) (off + part) (after_round src part tot off p) j1
  unfolding write_loop
  loop_round j j1 p h e f = rw (write_loop, h, e) (rw (◌>>=◌, f) refl)

-- A round logs six blocks at most.
length-round :
    (lay : Layout) (bn : ℕ) (s : Locked) (p : ℕ × Locked)
    → length (bmap_blocks lay bn s p ++ (p.0 ∷ [])) ≤ 6
length-round lay bn s p =
    omega (arith, length-append (bmap_blocks lay bn s p) (p.0 ∷ []), length-bmap_blocks lay bn s p)

write_loop-data_loop :
    (lay : Layout) (fuel n tot off k : ℕ) (src : Bytes) (s t : Locked) (j : Journal)
    → data_loop fuel n src tot off s ≡ ok t
    → HasRoom (6 * spans off (n - tot) + k) j
    → (j1 : Journal) × (write_loop lay fuel n src tot off s j ≡ ok (t, j1)) × HasRoom k j1
unfolding data_loop
write_loop-data_loop lay zero n tot off k src s t j e r = absurd (cc)
write_loop-data_loop lay (suc fuel) n tot off k src s t j e r = elim (Bool-cases (ltb tot n)) [
  | inr end ↦
      let same : ok s ≡ ok t = sym (data_stop lay fuel n tot off src s end) ∙ e in
      (
        j,
        loop_stop lay fuel n tot off src s j end
            ∙ ap (λ (r : Result Locked). r >>= λ u. ok (u, j)) same,
        HasRoom-less k _ j (omega arith) r,
      )
  | inl more ↦
      let lt : tot < n = ground (arith, more) in
      let m = chunk (n - tot) off in
      let (_, _, _, _, fewer) = chunk-bounds (n - tot) off (omega arith) in
      let left : spans (off + m) (n - tot - m) ≡ spans (off + m) (n - (tot + m)) =
        ap (spans (off + m)) (omega arith) in
      let (p, at, rest) =
        bind_ok (bmap (off / bsize) s) _ t (sym (data_round lay fuel n tot off src s more) ∙ e) in
      let (j1, logs, r1) =
        log_blocks-HasRoom (bmap_blocks lay (off / bsize) s p ++ (p.0 ∷ []))
          (6 * spans (off + m) (n - (tot + m)) + k) (6 * spans off (n - tot) + k) j
          (omega (arith, length-round lay (off / bsize) s p, fewer, left)) r in
      let (j2, run, r2) =
        write_loop-data_loop lay fuel n (tot + m) (off + m) k src (after_round src m tot off p) t j1
          rest r1 in
      (j2, loop_round lay fuel n tot off src s j j1 p more at logs ∙ run, r2)
]

-- The guards of `writei`, passed.
writei_passes :
    (present : ℕ → Bool) (lay : Layout) (src : Bytes) (off n : ℕ) (s : Locked) (j : Journal)
    → s.ip.copy.type ≢ t_dev
    → off ≤ s.ip.copy.size
    → off + n ≤ maxfile * bsize
    → writei present lay src off n s j ≡ (
        write_loop lay (n + 1) n src 0 off s j >>= λ r.
        log_blocks (size_blocks lay n (off + n) r.0) r.1 >>= λ k.
        ok (io_done n (grown n (off + n) r.0, k)))
unfolding writei
writei_passes present lay src off n s j d h k =
    let e : add off n ≡ off + n = omega (arith, k) in
    let kind : (s.ip.copy.type == t_dev) ≡ false = ground (arith, d) in
    let first : (ltb s.ip.copy.size off || ltb (add off n) off) ≡ false = ground (arith, e, h) in
    let second : ltb (maxfile * bsize) (add off n) ≡ false = ground (arith, e, k) in
    rw (writei, kind, first, second) refl

-- A result with the log.
abbrev with_log : Journal → Io Locked → Io (Locked × Journal)
with_log j io_failed = io_failed
with_log j (io_driver m) = io_driver m
with_log j (io_done n t) = io_done n (t, j)

-- With room for the blocks that it logs, `writei` does what it does without the log.
writei-writei_data :
    (present : ℕ → Bool) (lay : Layout) (src : Bytes) (off n : ℕ) (s t : Locked) (j : Journal)
    → s.ip.copy.type ≢ t_dev
    → off ≤ s.ip.copy.size
    → off + n ≤ maxfile * bsize
    → HasRoom (6 * spans off n + 1) j
    → writei_data present src off n s ≡ ok (io_done n t)
    → (k : Journal) × (writei present lay src off n s j ≡ ok (io_done n (t, k)))
writei-writei_data present lay src off n s t j d h k room e =
    let (a, run, same) =
      bind_ok (data_loop (n + 1) n src 0 off s) (λ u. ok (io_done n (grown n (off + n) u)))
        (io_done n t) (sym (data_passes present src off n s d h k) ∙ e) in
    let z : spans off (n - 0) ≡ spans off n = ap (spans off) (omega arith) in
    let (j1, loop, r1) =
      write_loop-data_loop lay (n + 1) n 0 off 1 src s a j run
        (HasRoom-less _ _ j (omega (arith, z)) room) in
    let (j2, size, _) =
      log_blocks-HasRoom (size_blocks lay n (off + n) a) 0 1 j1
        (omega (arith, length-size_blocks lay n (off + n) a)) r1 in
    (
      j2,
      writei_passes present lay src off n s j d h k
          ∙ ap
              (λ (r : Result (Locked × Journal)). r >>= λ x.
                log_blocks (size_blocks lay n (off + n) x.0) x.1 >>= λ y.
                ok (io_done n (grown n (off + n) x.0, y)))
              loop
          ∙ ap (λ (r : Result Journal). r >>= λ y. ok (io_done n (grown n (off + n) a, y))) size
          ∙ ap (λ (r : Result (Io Locked)). r >>= λ x. ok (with_log j2 x)) same,
    )

-- On a file whose blocks are its own, in use and reach as far as its size, `writei` of `n` bytes at `off`,
-- no further than the size and within MAXFILE blocks, in a transaction whose log has room for six blocks
-- for each block that the bytes touch, and one, writes all `n` if the disk has two free blocks for each
-- block that the bytes touch: it does not panic, the bytes from `off` on are those of the source, no
-- other byte has changed, the size grows to the end of the bytes if it was less, and the file is again
-- one whose blocks are its own and reach as far as its size; at most those free blocks are taken.
pub writei-Written :
    (present : ℕ → Bool) (lay : Layout) (src : Bytes) (off n : ℕ) (s : Locked) (j : Journal)
    → IsFile s
    → HasBlocks s.ip.copy.size s
    → s.ip.copy.type ≢ t_dev
    → off ≤ s.ip.copy.size
    → off + n ≤ maxfile * bsize
    → 2 * spans off n ≤ free_blocks s.disk
    → HasRoom (6 * spans off n + 1) j
    → (t : Locked) × (k : Journal) × (writei present lay src off n s j ≡ ok (io_done n (t, k)))
      × Written src off n s t
      × (free_blocks s.disk ≤ free_blocks t.disk + 2 * spans off n)
writei-Written present lay src off n s j v has d h k room log =
    let (t, e, w, cost) = writei_data-Written present src off n s v has d h k room in
    let (j1, run) = writei-writei_data present lay src off n s t j d h k log e in
    (t, j1, run, w, cost)

-- What `writei` has written `readi` returns: after a `writei` of `n` bytes at `off` that the conditions
-- of `writei-Written` allow, on a file no longer than MAXFILE blocks, a `readi` of `n` bytes at `off`
-- returns `n`, leaves the file as it is, and gives the bytes of the source.
pub readi-writei :
    (present : ℕ → Bool) (lay : Layout) (src dst : Bytes) (off n : ℕ) (s : Locked) (j : Journal)
    → IsFile s
    → HasBlocks s.ip.copy.size s
    → s.ip.copy.size ≤ maxfile * bsize
    → s.ip.copy.type ≢ t_dev
    → off ≤ s.ip.copy.size
    → off + n ≤ maxfile * bsize
    → 2 * spans off n ≤ free_blocks s.disk
    → HasRoom (6 * spans off n + 1) j
    → (t : Locked) × (k : Journal) × (u : Bytes) × (writei present lay src off n s j
        ≡ ok (io_done n (t, k)))
      × (readi present dst off n t ≡ ok (io_done n (u, t)))
      × ((x : ℕ) → x < n → u x ≡ src x)
readi-writei present lay src dst off n s j v has top d h k room log =
    let (t, u, e, back, same) = readi-writei_data present src dst off n s v has top d h k room in
    let (j1, run) = writei-writei_data present lay src off n s t j d h k log e in
    (t, j1, u, run, back, same)
