-- ===== src/Fs/Bmap.antt =====
-- `bmap` of xv6/fs.c on a file: what it returns and what it keeps.
use laboratorio_valen_el_noo.Base.{
  ℕ, ◌+◌, ◌-◌, ◌≤◌, ◌<◌, ◌≡◌, ◌≢◌, refl, sym, ap, ap₂, ◌∙◌, inl, inr, true, false, ◌==◌, ltb, arith,
  Bool-cases,
}
use laboratorio_valen_el_noo.Fs.Free.{with_block, free_below, balloc-ok}
use laboratorio_valen_el_noo.Fs.{Disk, Locked, addr, get_word, ndirect, nindirect, maxfile}
use laboratorio_valen_el_noo.Fs.{ok, at_addr, at_entry, bmap}
use laboratorio_valen_el_noo.Fs.Slots.{
  slot, place, IsFile, Filled, Extends, Filled-IsFile, Filled-Extends, new_pos,
}
use laboratorio_valen_el_noo.Fs.Fill.{
  entry_some, with_addr, with_entry, with_addr-Filled, with_entry-Filled, slot_direct, slot_entry,
}

abbrev pub free_blocks : Disk → ℕ
free_blocks d = free_below d.size d.used

-- Block `b` stands at place `i` of `t`, which extends `s` and took at most `n` free blocks.
pub record Got (n i b : ℕ) (s t : Locked) : Type 0 where
  pub at : slot t i ≡ b
  pub nonzero : b ≢ 0
  pub extends : Extends s t
  pub valid : IsFile t
  pub cost : free_blocks s.disk ≤ free_blocks t.disk + n

Extends-refl : (s : Locked) → Extends s s
Extends-refl s = record {
  slots = λ i h ne. refl;
  content = λ x h. refl;
  bound = refl;
  size = refl;
  kind = refl;
}

pub Extends-trans : {s t u : Locked} → Extends s t → Extends t u → Extends s u
Extends-trans a b = record {
  slots = λ i h ne. b.slots i h (λ e. ne (sym (a.slots i h ne) ∙ e)) ∙ a.slots i h ne;
  content = λ x h. b.content x h ∙ a.content x h;
  bound = b.bound ∙ a.bound;
  size = b.size ∙ a.size;
  kind = b.kind ∙ a.kind;
}

-- A fresh block at an empty place.
Filled-Got :
    (k b : ℕ) (s t : Locked)
    → IsFile s
    → k < 141
    → slot s k ≡ 0
    → b < s.disk.size
    → s.disk.used b ≡ false
    → free_below s.disk.size (with_block b s.disk).used + 1 ≡ free_below s.disk.size s.disk.used
    → Filled k b s t
    → Got 1 k b s t
Filled-Got k b s t v h z l u c w = record {
  at = w.at;
  nonzero = new_pos k b s t v h z l u w;
  extends = Filled-Extends k b s t v h z l u w;
  valid = Filled-IsFile k b s t v h z l u w;
  cost =
      let e : free_blocks t.disk ≡ free_below s.disk.size (with_block b s.disk).used =
        ap₂ free_below w.bound w.used in
      omega (arith, e, c);
}

pub indirect_ne :
    (s : Locked) (b : ℕ)
    → IsFile s
    → s.disk.used b ≡ false
    → addr s ndirect ≢ 0
    → addr s ndirect ≢ b
indirect_ne s b v u ne e =
    let d = slot_direct s ndirect (omega arith) in
    let (_, q) = v.owned ndirect (omega arith) (λ z. ne (sym d ∙ z)) in
    ground (arith, u, q, ap s.disk.used (d ∙ e))

at_addr-Got :
    (i : ℕ) (s : Locked)
    → IsFile s
    → i < 13
    → 0 < free_blocks s.disk
    → (b : ℕ) × (t : Locked) × (at_addr i s ≡ ok (b, t)) × Got 1 i b s t
unfolding at_addr
at_addr-Got i s v h f = elim (Bool-cases (addr s i == 0)) [
  | inl z ↦
      let (b, e, l, u, c) = balloc-ok s.disk f in
      let zero_at : addr s i ≡ 0 = ground (arith, z) in
      (
        b,
        with_addr i b s,
        rw (at_addr, z, e) refl,
        Filled-Got i b s (with_addr i b s) v (omega arith) (slot_direct s i h ∙ zero_at) l u c
            (with_addr-Filled i b s h zero_at (λ n. indirect_ne s b v u n)),
      )
  | inr full ↦ (
    addr s i,
    s,
    rw (at_addr, full) refl,
    record {
      at = slot_direct s i h;
      nonzero = ground (arith, full);
      extends = Extends-refl s;
      valid = v;
      cost = omega arith;
    },
  )
]

at_entry-Got :
    (k : ℕ) (s : Locked)
    → IsFile s
    → k < nindirect
    → addr s ndirect ≢ 0
    → 0 < free_blocks s.disk
    → (b : ℕ) × (t : Locked) × (at_entry (addr s ndirect) k s ≡ ok (b, t)) × Got 1 (13 + k) b s t
unfolding at_entry
at_entry-Got k s v h a f = elim (Bool-cases (get_word (s.disk.bytes (addr s ndirect)) k == 0)) [
  | inl z ↦
      let (b, e, l, u, c) = balloc-ok s.disk f in
      let zero_at : get_word (s.disk.bytes (addr s ndirect)) k ≡ 0 = ground (arith, z) in
      (
        b,
        with_entry k b s,
        rw (at_entry, z, e) refl,
        Filled-Got (13 + k) b s (with_entry k b s) v (omega arith) (at_place ∙ zero_at) l u c
            (with_entry-Filled k b s h (omega (arith, l, v.small)) a (indirect_ne s b v u a)),
      )
  | inr full ↦ (
    get_word (s.disk.bytes (addr s ndirect)) k,
    s,
    rw (at_entry, full) refl,
    record {
      at = at_place;
      nonzero = ground (arith, full);
      extends = Extends-refl s;
      valid = v;
      cost = omega arith;
    },
  )
]
  where
    at_place : slot s (13 + k) ≡ get_word (s.disk.bytes (addr s ndirect)) k
    at_place =
        slot_entry s (13 + k) (omega arith)
        ∙ entry_some (addr s ndirect) (13 + k - 13) s.disk.bytes _ a refl
        ∙ ap (get_word (s.disk.bytes (addr s ndirect))) (omega arith)

Got-more : {i j b : ℕ} {s t : Locked} → i ≡ j → Got 1 i b s t → Got 2 j b s t
Got-more {t = t} e g = record {
  at = ap (slot t) (sym e) ∙ g.at;
  nonzero = g.nonzero;
  extends = g.extends;
  valid = g.valid;
  cost = omega (arith, g.cost);
}

Got-trans : {i j k a b : ℕ} {s t u : Locked} → j ≡ k → Got 1 i a s t → Got 1 j b t u → Got 2 k b s u
Got-trans {u = u} e g h = record {
  at = ap (slot u) (sym e) ∙ h.at;
  nonzero = h.nonzero;
  extends = Extends-trans g.extends h.extends;
  valid = h.valid;
  cost = omega (arith, g.cost, h.cost);
}

-- For a block below MAXFILE, while two blocks of the disk are free, `bmap` returns a block of the
-- disk, the one at its place in the file from then on. The file stays well formed, keeps each block
-- that it had, its size and its bytes, and at most two free blocks are taken.
pub bmap-Got :
    (bn : ℕ) (s : Locked)
    → IsFile s
    → bn < maxfile
    → 2 ≤ free_blocks s.disk
    → (b : ℕ) × (t : Locked) × (bmap bn s ≡ ok (b, t)) × Got 2 (place bn) b s t
unfolding bmap
bmap-Got bn s v h f = elim (Bool-cases (ltb bn ndirect)) [
  | inl low ↦
      let (b, t, e, g) = at_addr-Got bn s v (ground (arith, low)) (omega arith) in
      (b, t, rw (bmap, low) e, Got-more (ground (arith, low)) g)
  | inr high ↦
      let below : ltb (bn - ndirect) nindirect ≡ true = ground (arith, h, high) in
      let (a, t, e, g) = at_addr-Got ndirect s v (omega arith) (omega arith) in
      let a_at : addr t ndirect ≡ a = sym (slot_direct t ndirect (omega arith)) ∙ g.at in
      let (b, u, e1, g1) =
        at_entry-Got (bn - ndirect) t g.valid (ground (arith, below))
          (λ z. g.nonzero (sym a_at ∙ z)) (omega (arith, g.cost, f)) in
      let run : at_entry a (bn - ndirect) t ≡ ok (b, u) =
        ap (λ (x : ℕ). at_entry x (bn - ndirect) t) (sym a_at) ∙ e1 in
      (b, u, rw (bmap, high, below, e, run) refl, Got-trans (ground (arith, high)) g g1)
]
