-- ===== src/Fs/Read.antt =====
-- `readi` of xv6/fs.c on a file whose blocks are allocated: its loop reads the bytes as one copy would.
use laboratorio_valen_el_noo.Base.{
  ℕ, zero, suc, ◌+◌, ◌-◌, ◌*◌, ◌/◌, ◌%◌, ◌≤◌, ◌<◌, ◌≡◌, ◌≢◌, refl, sym, ap, ap₂, ◌∙◌, inl, inr,
  true, false, ◌==◌, ltb, arith, Bool-cases,
}
use laboratorio_valen_el_noo.Strings.{Bytes}
use laboratorio_valen_el_noo.Fs.{Locked, addr, get_word, ndirect, nindirect, maxfile, bsize}
use laboratorio_valen_el_noo.Fs.{read_loop, copied, chunk, ok, at_addr, at_entry, bmap}
use laboratorio_valen_el_noo.Fs.Slots.{byte_in, entry_of, slot, place, byte_at}
use laboratorio_valen_el_noo.Fs.Fill.{entry_some, slot_direct, slot_entry}
use laboratorio_valen_el_noo.Fs.Store.{copied-copied}
use laboratorio_valen_el_noo.Fs.Write.{chunk-bounds}

-- The blocks of the first `l` bytes are allocated.
abbrev pub HasBlocks : ℕ → Locked → Type 0
HasBlocks l s = (bn : ℕ) → bn < maxfile → bn * bsize < l → slot s (place bn) ≢ 0

at_addr_present : (i : ℕ) (s : Locked) → addr s i ≢ 0 → at_addr i s ≡ ok (addr s i, s)
unfolding at_addr
at_addr_present i s ne =
    let full : (addr s i == 0) ≡ false = ground (arith, ne) in rw (at_addr, full) refl

at_entry_present :
    (a k : ℕ) (s : Locked)
    → get_word (s.disk.bytes a) k ≢ 0
    → at_entry a k s ≡ ok (get_word (s.disk.bytes a) k, s)
unfolding at_entry
at_entry_present a k s ne =
    let full : (get_word (s.disk.bytes a) k == 0) ≡ false = ground (arith, ne) in
    rw (at_entry, full) refl

-- At a block that is allocated `bmap` changes nothing.
bmap_present :
    (bn : ℕ) (s : Locked)
    → bn < maxfile
    → slot s (place bn) ≢ 0
    → bmap bn s ≡ ok (slot s (place bn), s)
unfolding bmap
bmap_present bn s h ne = elim (Bool-cases (ltb bn ndirect)) [
  | inl low ↦
      let e : slot s (place bn) ≡ addr s bn =
        ap (slot s) (ground (arith, low)) ∙ slot_direct s bn (ground (arith, low)) in
      let run : bmap bn s ≡ ok (addr s bn, s) =
        rw (bmap, low) (at_addr_present bn s (λ z. ne (e ∙ z))) in
      run ∙ ap (λ (x : ℕ). ok (x, s)) (sym e)
  | inr high ↦
      let below : ltb (bn - ndirect) nindirect ≡ true = ground (arith, h, high) in
      let e0 : slot s (place bn) ≡ entry_of (addr s ndirect) s.disk.bytes (bn - ndirect) =
        ap (slot s) (ground (arith, high))
        ∙ slot_entry s (13 + (bn - ndirect)) (omega arith)
        ∙ ap (entry_of (addr s ndirect) s.disk.bytes) (omega arith) in
      let a_ne : addr s ndirect ≢ 0 = λ z. ne (e0 ∙ ground (arith, z)) in
      let e = e0 ∙ entry_some (addr s ndirect) (bn - ndirect) s.disk.bytes _ a_ne refl in
      let run : bmap bn s ≡ ok (get_word (s.disk.bytes (addr s ndirect)) (bn - ndirect), s) =
        rw (bmap, high, below, at_addr_present ndirect s a_ne)
          (at_entry_present (addr s ndirect) (bn - ndirect) s (λ z. ne (e ∙ z))) in
      run ∙ ap (λ (x : ℕ). ok (x, s)) (sym e)
]

-- The bytes of a round, from the block and from the file.
copied_from :
    (m d off x : ℕ) (s : Locked) (dst : Bytes)
    → m ≤ bsize - off % bsize
    → slot s (place (off / bsize)) ≢ 0
    → copied m d (off % bsize) (s.disk.bytes (slot s (place (off / bsize)))) dst x
      ≡ copied m d off (byte_at s) dst x
copied_from m d off x s dst h ne =
    let y = off + (x - d) in
    let inside : x < d + m
        → d ≤ x
        → s.disk.bytes (slot s (place (off / bsize))) (off % bsize + (x - d)) ≡ byte_at s y =
      λ l g.
        let e : y / bsize ≡ off / bsize = omega arith in
        let r : y % bsize ≡ off % bsize + (x - d) = omega arith in
        sym (
          ap₂ (λ (c z : ℕ). byte_in c s.disk z) (ap (λ (c : ℕ). slot s (place c)) e) r
          ∙ ground (arith, ne)) in
    ground (arith, inside)

pub read_loop-copied :
    (fuel n tot off : ℕ) (dst : Bytes) (s : Locked)
    → tot ≤ n
    → n - tot < fuel
    → off + (n - tot) ≤ maxfile * bsize
    → HasBlocks (off + (n - tot)) s
    → (u : Bytes) × (read_loop fuel n dst tot off s ≡ ok (u, s))
      × ((x : ℕ) → u x ≡ copied (n - tot) tot off (byte_at s) dst x)
unfolding read_loop
read_loop-copied zero n tot off dst s l f k r = absurd (omega arith)
read_loop-copied (suc fuel) n tot off dst s l f k r = elim (Bool-cases (ltb tot n)) [
  | inr done ↦ (dst, rw (read_loop, done) refl, λ x. ground (arith, done, l))
  | inl more ↦
      let lt : tot < n = ground (arith, more) in
      let m = chunk (n - tot) off in
      let (block, pos, part, edge, _) = chunk-bounds (n - tot) off (omega arith) in
      let full = r (off / bsize) (omega arith) (omega arith) in
      let e = bmap_present (off / bsize) s (omega arith) full in
      let dst1 = copied m tot (off % bsize) (s.disk.bytes (slot s (place (off / bsize)))) dst in
      let (u, run, same) =
        read_loop-copied fuel n (tot + m) (off + m) dst1 s (omega (arith, part))
          (omega (arith, pos, part, lt)) (omega (arith, part))
          (λ bn h g. r bn h (omega (arith, part, g))) in
      (
        u,
        rw (read_loop, more, e) run,
        λ x.
            same x
            ∙ copied-copied m (n - (tot + m)) (n - tot) tot off x (byte_at s) dst dst1
                (omega (arith, part)) (copied_from m tot off x s dst block full),
      )
]
