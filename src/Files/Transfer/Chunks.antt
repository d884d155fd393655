-- ===== src/Files/Transfer/Chunks.antt =====
-- The transactions of `filewrite` (xv6/file.c) together write a file as one `writei` would.
use laboratorio_valen_el_noo.Base.{
  ℕ, zero, suc, ◌+◌, ◌-◌, ◌*◌, ◌/◌, ◌≤◌, ◌<◌, ◌≡◌, ◌≢◌, refl, sym, ap, ◌∙◌, inl, inr, Bool, true,
  false, ◌==◌, ltb, pos, arith, Bool-cases,
}
use laboratorio_valen_el_noo.Strings.{Bytes}
use laboratorio_valen_el_noo.Files.{File, fd_inode}
use laboratorio_valen_el_noo.Fs.{
  Locked, Result, ok, ◌>>=◌, Io, io_done, writei_data, t_dev, maxfile, bsize,
}
use laboratorio_valen_el_noo.Fs.Slots.{IsFile}
use laboratorio_valen_el_noo.Fs.Bmap.{free_blocks}
use laboratorio_valen_el_noo.Fs.Read.{HasBlocks}
use laboratorio_valen_el_noo.Fs.Write.{spans}
use laboratorio_valen_el_noo.Fs.Content.{Written, writei_data-Written}
use laboratorio_valen_el_noo.Files.Transfer.{
  End, returns, advance, most, portion, ended, after_chunk, write_chunks, filewrite,
}

-- Two writes, the second from where the first ends.
Written-trans :
    (src : Bytes) (i off m k l : ℕ) (s t u : Locked)
    → l ≡ m + k
    → Written (λ x. src (i + x)) off m s t
    → Written (λ x. src (i + m + x)) (off + m) k t u
    → Written (λ x. src (i + x)) off l s u
Written-trans src i off m k l s t u e a b = record {
  valid = b.valid;
  content = λ x g.
      let first = a.content x g in
      let second = b.content x g in
      let index : off + m ≤ x → src (i + m + (0 + (x - (off + m)))) ≡ src (i + (0 + (x - off))) =
        λ h. ap src (omega arith) in
      ground (arith, e, first, second, index);
  kind = b.kind ∙ a.kind;
  size = let p = a.size in let q = b.size in ground (arith, p, q, e);
  blocks = b.blocks;
}

-- From the start of the source.
Written-start :
    (src : Bytes) (off m n : ℕ) (s t : Locked)
    → m ≡ n
    → Written (λ x. src (0 + x)) off m s t
    → Written src off n s t
Written-start src off m n s t e a = record {
  valid = a.valid;
  content = λ x g.
      let first = a.content x g in
      let index : src (0 + (0 + (x - off))) ≡ src (0 + (x - off)) = ap src (omega arith) in
      ground (arith, e, first, index);
  kind = a.kind;
  size = let p = a.size in ground (arith, p, e);
  blocks = a.blocks;
}

abbrev pub transactions : ℕ → ℕ
transactions n = (n + most - 1) / most

portion-bounds :
    (left : ℕ)
    → 0 < left
    → (portion left ≤ left)
      × (0 < portion left)
      × (portion left ≤ most)
      × (transactions (left - portion left) + 1 ≤ transactions left)
portion-bounds left h = (ground arith, ground arith, ground arith, ground arith)

spans-portion : (off m : ℕ) → m ≤ most → spans off m ≤ 4
spans-portion off m h = ground (arith, h)

Written-refl :
    (src : Bytes) (off n : ℕ) (s : Locked)
    → n ≡ 0
    → IsFile s
    → HasBlocks s.ip.copy.size s
    → off ≤ s.ip.copy.size
    → Written src off n s s
Written-refl src off n s z v has h = record {
  valid = v;
  content = λ x g. ground (arith, z);
  kind = refl;
  size = ground (arith, z, h);
  blocks = has;
}

-- The room left for the transactions that follow one.
room_after : (a b c x y : ℕ) → a ≡ b → b + 1 ≤ c → 8 * c ≤ x → x ≤ y + 8 → 8 * a ≤ y
room_after a b c x y e l h k = omega arith

after_chunk-done :
    (again : ℕ → File → Locked → Result (End Locked)) (n i r : ℕ) (f : File) (s t : Locked)
    → after_chunk again n i r f s (io_done r t) ≡ again (i + r) (advance r f) t
unfolding after_chunk
after_chunk-done again n i r f s t = let all : (r == r) ≡ true = ground arith in rw (all) refl

-- A round that is not the last and writes its portion.
write_chunks_round :
    (fuel : ℕ) (present : ℕ → Bool) (src : Bytes) (n i : ℕ) (f : File) (s t : Locked)
    → ltb i n ≡ true
    → writei_data present (λ x. src (i + x)) f.off (portion (n - i)) s
      ≡ ok (io_done (portion (n - i)) t)
    → write_chunks (suc fuel) present src n i f s
      ≡ write_chunks fuel present src n (i + portion (n - i)) (advance (portion (n - i)) f) t
unfolding write_chunks
write_chunks_round fuel present src n i f s t more e =
    ap
      (λ (b : Bool). elim b [
        | false ↦ ok (ended i n f s)
        | true ↦
            writei_data present (λ x. src (i + x)) f.off (portion (n - i)) s
            >>= after_chunk (write_chunks fuel present src n) n i (portion (n - i)) f s
      ])
      more
    ∙ ap
        (λ (r : Result (Io Locked)).
          r >>= after_chunk (write_chunks fuel present src n) n i (portion (n - i)) f s)
        e
    ∙ after_chunk-done (write_chunks fuel present src n) n i (portion (n - i)) f s t

write_chunks-Written :
    (fuel : ℕ) (present : ℕ → Bool) (src : Bytes) (n i : ℕ) (f : File) (s : Locked)
    → IsFile s
    → HasBlocks s.ip.copy.size s
    → s.ip.copy.type ≢ t_dev
    → i ≤ n
    → n - i < fuel
    → f.off ≤ s.ip.copy.size
    → f.off + (n - i) ≤ maxfile * bsize
    → 8 * transactions (n - i) ≤ free_blocks s.disk
    → (g : File) × (t : Locked) × (write_chunks fuel present src n i f s ≡ ok (returns (pos n) g t))
      × (g ≡ advance (n - i) f)
      × Written (λ x. src (i + x)) f.off (n - i) s t
unfolding write_chunks
write_chunks-Written zero present src n i f s v has d l h k r room = absurd (omega arith)
write_chunks-Written (suc fuel) present src n i f s v has d l h k r room =
    elim (Bool-cases (ltb i n)) [
      | inr done ↦
          let z : n - i ≡ 0 = ground (arith, done) in
          let last : (i == n) ≡ true = ground (arith, done, l) in
          (
            f,
            s,
            rw (write_chunks, done, last) refl,
            ap (λ (o : ℕ). record f { off = o }) (omega (arith, z)),
            Written-refl _ f.off (n - i) s z v has k,
          )
      | inl more ↦
          let lt : i < n = ground (arith, more) in
          let m = portion (n - i) in
          let (part, pos_m, low, fewer) = portion-bounds (n - i) (omega arith) in
          let four = spans-portion f.off m low in
          let one : 1 ≤ transactions (n - i) = omega (arith, fewer) in
          let (t, e, w, cost) =
            writei_data-Written present (λ x. src (i + x)) f.off m s v has d k
              (omega (arith, part, r)) (omega (arith, four, one, room)) in
          let same : transactions (n - (i + m)) ≡ transactions (n - i - m) =
            ap transactions (omega arith) in
          let reach : f.off + m ≤ t.ip.copy.size = let z = w.size in ground (arith, z) in
          let (g, u, run, is_g, rest) =
            write_chunks-Written fuel present src n (i + m) (advance m f) t w.valid w.blocks
              (λ z. d (sym w.kind ∙ z)) (omega (arith, part, lt)) (omega (arith, pos_m, lt, h))
              reach (omega (arith, part, lt, r))
              (room_after _ _ _ _ _ same fewer room (omega (arith, cost, four))) in
          (
            g,
            u,
            write_chunks_round fuel present src n i f s t more e ∙ run,
            is_g ∙ ap (λ (o : ℕ). record f { off = o }) (omega (arith, part, lt)),
            Written-trans src i f.off m (n - (i + m)) (n - i) s t u (omega (arith, part, lt)) w
                rest,
          )
    ]

inode_write :
    (present : ℕ → Bool) (src : Bytes) (n : ℕ) (f : File) (s : Locked)
    → f.writable ≡ true
    → f.type ≡ fd_inode
    → filewrite present src n f s ≡ write_chunks (n + 1) present src n 0 f s
unfolding filewrite
inode_write present src n f s w kind = simp (filewrite, w, kind) refl

-- On a writable open file of an inode that is not a device, whose blocks are its own, in use and reach
-- as far as its size, and an offset no further than the size, `filewrite` of `n` bytes within MAXFILE
-- blocks returns `n` if the disk has eight free blocks for each transaction of at most 1536 bytes: in
-- all the transactions together the file is written as one `writei` would write it, and the offset
-- advances by `n`.
pub filewrite-Written :
    (present : ℕ → Bool) (src : Bytes) (n : ℕ) (f : File) (s : Locked)
    → f.writable ≡ true
    → f.type ≡ fd_inode
    → IsFile s
    → HasBlocks s.ip.copy.size s
    → s.ip.copy.type ≢ t_dev
    → f.off ≤ s.ip.copy.size
    → f.off + n ≤ maxfile * bsize
    → 8 * transactions n ≤ free_blocks s.disk
    → (t : Locked) × (filewrite present src n f s ≡ ok (returns (pos n) (advance n f) t))
      × Written src f.off n s t
unfolding filewrite
filewrite-Written present src n f s w kind v has d h k room =
    let z : n - 0 ≡ n = omega arith in
    let room0 : 8 * transactions (n - 0) ≤ free_blocks s.disk =
      omega (arith, ap transactions z, room) in
    let (g, t, run, is_g, done) =
      write_chunks-Written (n + 1) present src n 0 f s v has d (omega arith) (omega arith) h
        (omega arith) room0 in
    (
      t,
      inode_write present src n f s w kind
          ∙ run
          ∙ ap (λ (x : File). ok (returns (pos n) x t)) (is_g ∙ ap (λ (m : ℕ). advance m f) z),
      Written-start src f.off (n - 0) n s t z done,
    )
