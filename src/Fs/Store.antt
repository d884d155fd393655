-- ===== src/Fs/Store.antt =====
-- A round of `writei` of xv6/fs.c stores bytes in one block of the file.
use laboratorio_valen_el_noo.Base.{
  ℕ, ◌+◌, ◌-◌, ◌*◌, ◌/◌, ◌%◌, ◌≤◌, ◌<◌, ◌≡◌, ◌≢◌, sym, ap, ◌∙◌, inl, inr, ◌==◌, ltb, arith,
  Bool-cases,
}
use laboratorio_valen_el_noo.Strings.{Bytes}
use laboratorio_valen_el_noo.Fs.{Locked, addr, ndirect, maxfile, bsize}
use laboratorio_valen_el_noo.Fs.{set_bytes, copied}
use laboratorio_valen_el_noo.Fs.Slots.{byte_in, slot, place, IsFile, byte_at}
use laboratorio_valen_el_noo.Fs.Fill.{entry_kept, slot_direct, slot_entry}

-- The place of a block and the block of a place.
place_inj : (m n : ℕ) → place m ≡ place n → m ≡ n
place_inj m n e = ground (arith, e)

pub place_lt : (n : ℕ) → n < maxfile → (place n < 141) × (place n ≢ ndirect)
place_lt n h = ground arith

abbrev pub stored : ℕ → Bytes → Locked → Locked
stored b v s = record s { disk = set_bytes b v s.disk }

-- New bytes in block `b` of the file, which is block `bn`.
module _ (bn b : ℕ) (v : Bytes) (s : Locked) (valid : IsFile s) (h : bn < maxfile)
    (at : slot s (place bn) ≡ b) (nz : b ≢ 0) where
  not_indirect : addr s ndirect ≢ 0 → addr s ndirect ≢ b
  not_indirect ne e =
      let d = slot_direct s ndirect (omega arith) in
      let (p, q) = place_lt bn h in
      q (
        sym (valid.apart ndirect (place bn) (omega arith) p (λ z. ne (sym d ∙ z)) (d ∙ e ∙ sym at)))

  pub stored-slot : (i : ℕ) → slot (stored b v s) i ≡ slot s i
  stored-slot i = elim (Bool-cases (ltb i 13)) [
    | inl low ↦
        let l : i < 13 = ground (arith, low) in
        slot_direct (stored b v s) i l ∙ sym (slot_direct s i l)
    | inr high ↦
        let l : 13 ≤ i = ground (arith, high) in
        slot_entry (stored b v s) i l
        ∙ entry_kept (addr s ndirect) b (i - 13) v s.disk.bytes not_indirect
        ∙ sym (slot_entry s i l)
  ]

  pub stored-IsFile : IsFile (stored b v s)
  stored-IsFile = record {
    owned = λ i g ne.
        let e = stored-slot i in
        let (p, q) = valid.owned i g (λ z. ne (e ∙ z)) in
        (omega (arith, e, p), ap s.disk.used e ∙ q);
    apart = λ i j g g1 ne e.
        valid.apart i j g g1 (λ z. ne (stored-slot i ∙ z))
          (sym (stored-slot i) ∙ e ∙ stored-slot j);
    boot = valid.boot;
    small = valid.small;
  }

  in_other : (c r : ℕ) → (c ≢ 0 → c ≢ b) → byte_in c (stored b v s).disk r ≡ byte_in c s.disk r
  in_other c r ne = elim (Bool-cases (c == 0)) [
    | inl z ↦ ground (arith, z)
    | inr full ↦ let n : c ≢ b = ne (ground (arith, full)) in ground (arith, n)
  ]

  pub byte_here : (x : ℕ) → x / bsize ≡ bn → byte_at (stored b v s) x ≡ v (x % bsize)
  byte_here x e =
      let e1 : slot (stored b v s) (place (x / bsize)) ≡ b =
        stored-slot _ ∙ ap (λ (k : ℕ). slot s (place k)) e ∙ at in
      ap (λ (c : ℕ). byte_in c (stored b v s).disk (x % bsize)) e1 ∙ ground (arith, nz)

  pub byte_there :
      (x : ℕ) → x < maxfile * bsize → x / bsize ≢ bn → byte_at (stored b v s) x ≡ byte_at s x
  byte_there x g ne =
      let (p, _) = place_lt (x / bsize) (omega arith) in
      let other : slot s (place (x / bsize)) ≢ 0 → slot s (place (x / bsize)) ≢ b =
        λ full e. ne (place_inj _ _ (valid.apart _ _ p (place_lt bn h).0 full (e ∙ sym at))) in
      ap (λ (c : ℕ). byte_in c (stored b v s).disk (x % bsize)) (stored-slot (place (x / bsize)))
      ∙ in_other (slot s (place (x / bsize))) (x % bsize) other

-- The bytes of a round, in the block and in the file.
pub copied_block :
    (m off tot x : ℕ) (src f g : Bytes)
    → m ≤ bsize - off % bsize
    → x / bsize ≡ off / bsize
    → f (x % bsize) ≡ g x
    → copied m (off % bsize) tot src f (x % bsize) ≡ copied m off tot src g x
copied_block m off tot x src f g h e same =
    let index : off ≤ x → src (tot + (x % bsize - off % bsize)) ≡ src (tot + (x - off)) =
      λ k. ap src (omega arith) in
    ground (arith, index, same, h, e)

pub copied_apart :
    (m off tot x : ℕ) (src f : Bytes)
    → m ≤ bsize - off % bsize
    → x / bsize ≢ off / bsize
    → copied m off tot src f x ≡ f x
copied_apart m off tot x src f h ne = ground (arith, h, ne)

-- A copy in two parts.
pub copied-copied :
    (m k l off tot x : ℕ) (src f g : Bytes)
    → l ≡ m + k
    → g x ≡ copied m off tot src f x
    → copied k (off + m) (tot + m) src g x ≡ copied l off tot src f x
copied-copied m k l off tot x src f g e same =
    let index : off + m ≤ x → src (tot + m + (x - (off + m))) ≡ src (tot + (x - off)) =
      λ h. ap src (omega arith) in
    ground (arith, index, same, e)
