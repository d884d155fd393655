-- ===== src/Fs/Slots.antt =====
-- The blocks of a file in xv6/fs.c, numbered: those of `addrs`, the indirect block last, and then the
-- entries of the indirect block.
use laboratorio_valen_el_noo.Base.{
  ℕ, ◌+◌, ◌-◌, ◌*◌, ◌/◌, ◌%◌, ◌≤◌, ◌<◌, ◌≡◌, ◌≢◌, sym, ap, ◌∙◌, ◌⊎◌, inl, inr, Bool, true, false,
  ◌==◌, ltb, if◌then◌else◌, arith, Bool-cases,
}
use laboratorio_valen_el_noo.Log.{update}
use laboratorio_valen_el_noo.Strings.{Bytes}
use laboratorio_valen_el_noo.Fs.{Disk, Locked, addr, get_word, ndirect, maxfile, bsize}

-- An entry of the indirect block `a`; without that block it is 0.
abbrev pub entry_of : ℕ → (ℕ → Bytes) → ℕ → ℕ
entry_of a bytes k = if a == 0 then 0 else get_word (bytes a) k

-- The block at a number below 141, or 0.
unfoldable pub slot : Locked → ℕ → ℕ
slot s i = if ltb i 13 then addr s i else entry_of (addr s ndirect) s.disk.bytes (i - 13)

-- The number of block `bn` of the file.
abbrev pub place : ℕ → ℕ
place bn = if ltb bn ndirect then bn else bn + 1

-- The byte at `x`: 0 where no block is allocated.
abbrev pub byte_in : ℕ → Disk → ℕ → ℕ
byte_in b d r = if b == 0 then 0 else d.bytes b r

abbrev pub byte_at : Locked → ℕ → ℕ
byte_at s x = byte_in (slot s (place (x / bsize))) s.disk (x % bsize)

-- The blocks of a file are different blocks of the disk, in use; the boot block is in use, and a
-- block number fits in a uint.
pub record IsFile (s : Locked) : Type 0 where
  pub owned :
      (i : ℕ) → i < 141 → slot s i ≢ 0 → (slot s i < s.disk.size) × (s.disk.used (slot s i) ≡ true)
  pub apart : (i j : ℕ) → i < 141 → j < 141 → slot s i ≢ 0 → slot s i ≡ slot s j → i ≡ j
  pub boot : s.disk.used 0 ≡ true
  pub small : s.disk.size ≤ 4294967296

-- `t` is `s` with block `b`, which was free, at the empty place `k`.
pub record Filled (k b : ℕ) (s t : Locked) : Type 0 where
  pub at : slot t k ≡ b
  pub others : (i : ℕ) → i < 141 → i ≢ k → slot t i ≡ slot s i
  pub used : t.disk.used ≡ update s.disk.used b true
  pub bound : t.disk.size ≡ s.disk.size
  pub size : t.ip.copy.size ≡ s.ip.copy.size
  pub kind : t.ip.copy.type ≡ s.ip.copy.type
  pub fresh : (y : ℕ) → k ≢ ndirect → t.disk.bytes b y ≡ 0
  pub kept : (x y : ℕ) → x ≢ b → x ≢ slot s ndirect → t.disk.bytes x y ≡ s.disk.bytes x y

-- What the allocation of a block leaves as it is.
pub record Extends (s t : Locked) : Type 0 where
  pub slots : (i : ℕ) → i < 141 → slot s i ≢ 0 → slot t i ≡ slot s i
  pub content : (x : ℕ) → x < maxfile * bsize → byte_at t x ≡ byte_at s x
  pub bound : t.disk.size ≡ s.disk.size
  pub size : t.ip.copy.size ≡ s.ip.copy.size
  pub kind : t.ip.copy.type ≡ s.ip.copy.type

module _ (k b : ℕ) (s t : Locked) (v : IsFile s) (h : k < 141) (z : slot s k ≡ 0)
    (l : b < s.disk.size) (u : s.disk.used b ≡ false) (w : Filled k b s t) where
  slot-cases : (i : ℕ) → i < 141 → ((i ≡ k) × (slot t i ≡ b)) ⊎ ((i ≢ k) × (slot t i ≡ slot s i))
  slot-cases i g = elim (Bool-cases (i == k)) [
    | inl same ↦ let e : i ≡ k = ground (arith, same) in inl (e, ap (slot t) e ∙ w.at)
    | inr other ↦ let ne : i ≢ k = ground (arith, other) in inr (ne, w.others i g ne)
  ]

  used_kept : (x : ℕ) → s.disk.used x ≡ true → t.disk.used x ≡ true
  used_kept x g = ap (λ (f : ℕ → Bool). f x) w.used ∙ ground (arith, g)

  used_new : t.disk.used b ≡ true
  used_new = ap (λ (f : ℕ → Bool). f b) w.used ∙ ground arith

  pub old_ne : (i : ℕ) → i < 141 → slot s i ≢ 0 → slot s i ≢ b
  old_ne i g ne e = let (_, q) = v.owned i g ne in ground (arith, q, u, ap s.disk.used e)

  pub new_pos : b ≢ 0
  new_pos e = ground (arith, ap s.disk.used e, u, v.boot)

  pub Filled-IsFile : IsFile t
  Filled-IsFile = record {
    owned = λ i g ne. elim (slot-cases i g) [
      | inl (_, e) ↦ (omega (arith, w.bound), ap t.disk.used e ∙ used_new)
      | inr (_, e) ↦
          let (p, q) = v.owned i g (λ n. ne (e ∙ n)) in
          (omega (arith, w.bound, e, p), ap t.disk.used e ∙ used_kept (slot s i) q)
    ];
    apart = λ i j g g1 ne e. elim (slot-cases i g) [
      | inl (at_k, e1) ↦ elim (slot-cases j g1) [
        | inl (at_k1, _) ↦ at_k ∙ sym at_k1
        | inr (_, e2) ↦ absurd (old_ne j g1 (λ n. ne (e ∙ e2 ∙ n)) (sym e2 ∙ sym e ∙ e1))
      ]
      | inr (_, e1) ↦ elim (slot-cases j g1) [
        | inl (_, e2) ↦ absurd (old_ne i g (λ n. ne (e1 ∙ n)) (sym e1 ∙ e ∙ e2))
        | inr (_, e2) ↦ v.apart i j g g1 (λ n. ne (e1 ∙ n)) (sym e1 ∙ e ∙ e2)
      ]
    ];
    boot = used_kept 0 v.boot;
    small = omega (arith, w.bound, v.small);
  }

  same_block :
      (i y : ℕ) → i < 141 → i ≢ ndirect → byte_in (slot s i) t.disk y ≡ byte_in (slot s i) s.disk y
  same_block i y g ni = elim (Bool-cases (slot s i == 0)) [
    | inl zero_slot ↦ ground (arith, zero_slot)
    | inr full ↦
        let ne : slot s i ≢ 0 = ground (arith, full) in
        ground (
          arith,
          w.kept (slot s i) y (old_ne i g ne) (λ e. ni (v.apart i ndirect g (omega arith) ne e)),
        )
  ]

  -- A byte of a block at a place other than the indirect block's.
  byte_kept :
      (i y : ℕ) → i < 141 → i ≢ ndirect → byte_in (slot t i) t.disk y ≡ byte_in (slot s i) s.disk y
  byte_kept i y g ni = elim (slot-cases i g) [
    | inl (at_k, e) ↦
        ap (λ (c : ℕ). byte_in c t.disk y) e
        ∙ ground (arith, w.fresh y (λ n. ni (at_k ∙ n)))
        ∙ sym (ap (λ (c : ℕ). byte_in c s.disk y) (ap (slot s) at_k ∙ z))
    | inr (_, e) ↦ ap (λ (c : ℕ). byte_in c t.disk y) e ∙ same_block i y g ni
  ]

  place_lt : (n : ℕ) → n < 140 → (place n < 141) × (place n ≢ ndirect)
  place_lt n g = ground arith

  pub Filled-Extends : Extends s t
  Filled-Extends = record {
    slots = λ i g ne. w.others i g (λ e. ne (ap (slot s) e ∙ z));
    content = λ x g.
        let (p, q) = place_lt (x / bsize) (omega arith) in
        byte_kept (place (x / bsize)) (x % bsize) p q;
    bound = w.bound;
    size = w.size;
    kind = w.kind;
  }
