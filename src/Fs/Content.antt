-- ===== src/Fs/Content.antt =====
-- `readi` and `writei` of xv6/fs.c as operations on the bytes of a file.
use laboratorio_valen_el_noo.Base.{
  ℕ, ◌+◌, ◌-◌, ◌*◌, ◌≤◌, ◌<◌, ◌≡◌, ◌≢◌, refl, sym, ap, ◌∙◌, inl, inr, Bool, true, false, ◌&&◌, ltb,
  if◌then◌else◌, arith, Bool-cases,
}
use laboratorio_valen_el_noo.Strings.{Bytes}
use laboratorio_valen_el_noo.Fs.{Locked, maxfile, bsize}
use laboratorio_valen_el_noo.Fs.{
  iupdate, readi, cut, copied, writei_data, grown, io_done, t_dev, Result, ok, ◌>>=◌,
}
use laboratorio_valen_el_noo.Fs.Slots.{slot, place, IsFile, byte_at}
use laboratorio_valen_el_noo.Fs.Bmap.{free_blocks}
use laboratorio_valen_el_noo.Fs.Store.{place_lt}
use laboratorio_valen_el_noo.Fs.Write.{spans, Wrote, Wrote-eq, data_loop-Wrote}
use laboratorio_valen_el_noo.Fs.Read.{HasBlocks, read_loop-copied}
use laboratorio_valen_el_noo.Fs.Guards.{data_passes, readi_passes, readable, cut_small}

-- The inode once its size is `e`.
abbrev sized : ℕ → Locked → Locked
sized e s = iupdate (record s { ip = record s.ip { copy = record s.ip.copy { size = e } } })

sized-slot : (e i : ℕ) (s : Locked) → slot (sized e s) i ≡ slot s i
unfolding slot iupdate
sized-slot e i s = refl

sized-byte_at : (e x : ℕ) (s : Locked) → byte_at (sized e s) x ≡ byte_at s x
unfolding slot iupdate
sized-byte_at e x s = refl

sized-IsFile : (e : ℕ) (s : Locked) → IsFile s → IsFile (sized e s)
unfolding slot iupdate
sized-IsFile e s v = record { owned = v.owned; apart = v.apart; boot = v.boot; small = v.small }

-- A file of `z` bytes once `n` more stand from `off` on.
abbrev pub extent : ℕ → ℕ → ℕ → ℕ
extent z off n = if ltb z (off + n) then off + n else z

-- What `writei` makes of a file: the bytes, the size, and the blocks, which reach as far as it.
pub record Written (src : Bytes) (off n : ℕ) (s t : Locked) : Type 0 where
  pub valid : IsFile t
  pub content : (x : ℕ) → x < maxfile * bsize → byte_at t x ≡ copied n off 0 src (byte_at s) x
  pub kind : t.ip.copy.type ≡ s.ip.copy.type
  pub size : t.ip.copy.size ≡ extent s.ip.copy.size off n
  pub blocks : HasBlocks t.ip.copy.size t

module _ (src : Bytes) (off n : ℕ) (s t : Locked) (has : HasBlocks s.ip.copy.size s)
    (h : off ≤ s.ip.copy.size) (w : Wrote src 0 off n s t) where
  has_more :
      (bn : ℕ) → bn < maxfile → bn * bsize < extent s.ip.copy.size off n → slot t (place bn) ≢ 0
  has_more bn g l z = elim (Bool-cases (ltb (bn * bsize) s.ip.copy.size)) [
    | inl old ↦
        let full = has bn g (ground (arith, old)) in
        full (sym (w.slots (place bn) (place_lt bn g).0 full) ∙ z)
    | inr new ↦
        let high : s.ip.copy.size ≤ bn * bsize = ground (arith, new) in
        let low : bn * bsize < off + n = ground (arith, l, high) in
        w.touched bn (omega arith) low (omega arith) z
  ]

  grown_at :
      (b : Bool)
      → (ltb 0 n && ltb t.ip.copy.size (off + n)) ≡ b
      → Written src off n s (if b then sized (off + n) t else t)
  unfolding iupdate
  grown_at true more =
      let e : off + n ≡ extent s.ip.copy.size off n = let z = w.size in ground (arith, more, z) in
      record {
        valid = sized-IsFile (off + n) t w.valid;
        content = λ x g. sized-byte_at (off + n) x t ∙ w.content x g;
        kind = w.kind;
        size = e;
        blocks = λ bn g l z.
            has_more bn g (omega (arith, e, l)) (sym (sized-slot (off + n) (place bn) t) ∙ z);
      }
  grown_at false same =
      let e : t.ip.copy.size ≡ extent s.ip.copy.size off n =
        let z = w.size in ground (arith, same, z, h) in
      record {
        valid = w.valid;
        content = w.content;
        kind = w.kind;
        size = e;
        blocks = λ bn g l. has_more bn g (omega (arith, e, l));
      }

  grown-Written : Written src off n s (grown n (off + n) t)
  unfolding grown
  grown-Written = grown_at _ refl

grown-free : (n e : ℕ) (s : Locked) → free_blocks (grown n e s).disk ≡ free_blocks s.disk
unfolding grown iupdate
grown-free n e s = elim (Bool-cases (ltb 0 n && ltb s.ip.copy.size e)) [
  | inl more ↦ rw (more) refl
  | inr same ↦ rw (same) refl
]

-- On a file whose blocks are its own, in use and reach as far as its size, `writei` of `n` bytes at `off`,
-- no further than the size and within MAXFILE blocks, writes all `n` if the disk has two free blocks
-- for each block that the bytes touch: the bytes from `off` on are those of the source, no other byte
-- has changed, the size grows to the end of the bytes if it was less, and the file is again one whose
-- blocks are its own and reach as far as its size; at most those free blocks are taken.
pub writei_data-Written :
    (present : ℕ → Bool) (src : Bytes) (off n : ℕ) (s : Locked)
    → IsFile s
    → HasBlocks s.ip.copy.size s
    → s.ip.copy.type ≢ t_dev
    → off ≤ s.ip.copy.size
    → off + n ≤ maxfile * bsize
    → 2 * spans off n ≤ free_blocks s.disk
    → (t : Locked) × (writei_data present src off n s ≡ ok (io_done n t))
      × Written src off n s t
      × (free_blocks s.disk ≤ free_blocks t.disk + 2 * spans off n)
writei_data-Written present src off n s v has d h k room =
    let z : n - 0 ≡ n = omega arith in
    let room0 : 2 * spans off (n - 0) ≤ free_blocks s.disk =
      omega (arith, ap (spans off) z, room) in
    let (t, e, w) =
      data_loop-Wrote (n + 1) n 0 off src s v (omega arith) (omega arith) (omega arith) room0 in
    (
      grown n (off + n) t,
      data_passes present src off n s d h k
          ∙ ap (λ (r : Result Locked). r >>= λ u. ok (io_done n (grown n (off + n) u))) e,
      grown-Written src off n s t has h (Wrote-eq src 0 off (n - 0) n s t z w),
      let kept = grown-free n (off + n) t in omega (arith, kept, ap (spans off) z, w.cost),
    )

-- On a file no longer than MAXFILE blocks whose blocks reach as far as its size, `readi` of `n` bytes at
-- `off`, no further than the size and with no wrap of `off + n`, copies the bytes from `off` on, up to
-- `n` or to the end of the file, returns their number, and changes neither the file nor the disk.
pub readi_lem :
    (present : ℕ → Bool) (dst : Bytes) (off n : ℕ) (s : Locked)
    → HasBlocks s.ip.copy.size s
    → s.ip.copy.size ≤ maxfile * bsize
    → s.ip.copy.type ≢ t_dev
    → off ≤ s.ip.copy.size
    → off + n < 4294967296
    → (u : Bytes) × (readi present dst off n s
        ≡ ok (io_done (readable s.ip.copy.size off n) (u, s)))
      × ((x : ℕ) → u x ≡ copied (readable s.ip.copy.size off n) 0 off (byte_at s) dst x)
readi_lem present dst off n s has top d h k =
    let m = cut s.ip.copy.size off n in
    let e : m ≡ readable s.ip.copy.size off n = cut_small s.ip.copy.size off n k in
    let fits : off + (m - 0) ≤ s.ip.copy.size = ground (arith, e, h) in
    let z : m - 0 ≡ m = omega arith in
    let (u, run, same) =
      read_loop-copied (m + 1) m 0 off dst s (omega arith) (omega arith) (omega arith)
        (λ bn g l. has bn g (omega arith)) in
    (
      u,
      readi_passes present dst off n s d h k
          ∙ ap (λ (r : Result (Bytes × Locked)). r >>= λ q. ok (io_done m q)) run
          ∙ ap (λ (c : ℕ). ok (io_done c (u, s))) e,
      λ x. same x ∙ ap (λ (c : ℕ). copied c 0 off (byte_at s) dst x) (z ∙ e),
    )

-- What `writei` has written `readi` returns: after a `writei` of `n` bytes at `off` that the conditions
-- of `writei-Written` allow, on a file no longer than MAXFILE blocks, a `readi` of `n` bytes at `off`
-- returns `n`, leaves the file as it is, and gives the bytes of the source.
pub readi-writei_data :
    (present : ℕ → Bool) (src dst : Bytes) (off n : ℕ) (s : Locked)
    → IsFile s
    → HasBlocks s.ip.copy.size s
    → s.ip.copy.size ≤ maxfile * bsize
    → s.ip.copy.type ≢ t_dev
    → off ≤ s.ip.copy.size
    → off + n ≤ maxfile * bsize
    → 2 * spans off n ≤ free_blocks s.disk
    → (t : Locked) × (u : Bytes) × (writei_data present src off n s ≡ ok (io_done n t))
      × (readi present dst off n t ≡ ok (io_done n (u, t)))
      × ((x : ℕ) → x < n → u x ≡ src x)
readi-writei_data present src dst off n s v has top d h k room =
    let (t, e, w, _) = writei_data-Written present src off n s v has d h k room in
    let full : readable t.ip.copy.size off n ≡ n = let e = w.size in ground (arith, e) in
    let fits : t.ip.copy.size ≤ maxfile * bsize = let e = w.size in ground (arith, e, top, k) in
    let reach : off ≤ t.ip.copy.size = let e = w.size in ground (arith, e, h) in
    let (u, run, same) =
      readi_lem present dst off n t w.blocks fits (λ z. d (sym w.kind ∙ z)) reach (omega arith) in
    (
      t,
      u,
      e,
      run ∙ ap (λ (c : ℕ). ok (io_done c (u, t))) full,
      λ x l.
          same x
          ∙ ap (λ (c : ℕ). copied c 0 off (byte_at t) dst x) full
          ∙ read_back t x l (w.content (off + x) (omega arith)),
    )
  where
    read_back :
        (t : Locked) (x : ℕ)
        → x < n
        → byte_at t (off + x) ≡ copied n off 0 src (byte_at s) (off + x)
        → copied n 0 off (byte_at t) dst x ≡ src x
    read_back t x l e =
        let here : byte_at t (off + (x - 0)) ≡ byte_at t (off + x) = ap (byte_at t) (omega arith) in
        let from : src (0 + (off + x - off)) ≡ src x = ap src (omega arith) in
        ground (arith, l, here, from, e)
