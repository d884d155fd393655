-- ===== src/Fs/Fill.antt =====
-- An allocation by `bmap` of xv6/fs.c fills a place of the file.
use laboratorio_valen_el_noo.Base.{
  ℕ, ◌+◌, ◌-◌, ◌≤◌, ◌<◌, ◌≡◌, ◌≢◌, refl, sym, ap, ◌∙◌, inl, inr, ◌==◌, ltb, arith, Bool-cases,
}
use laboratorio_valen_el_noo.Log.{update}
use laboratorio_valen_el_noo.Strings.{Bytes}
use laboratorio_valen_el_noo.Fs.Free.{with_block}
use laboratorio_valen_el_noo.Fs.Word.{get_word-put_word, get_word-put_word_ne}
use laboratorio_valen_el_noo.Fs.{
  put_word, set_addr, set_entry, Locked, addr, get_word, ndirect, nindirect,
}
use laboratorio_valen_el_noo.Fs.Slots.{slot, entry_of, Filled}

-- The two allocations of `bmap`.
abbrev pub with_addr : ℕ → ℕ → Locked → Locked
with_addr i b s = record { ip = set_addr i b s.ip; disk = with_block b s.disk }

abbrev pub with_entry : ℕ → ℕ → Locked → Locked
with_entry k b s = record s { disk = set_entry (addr s ndirect) k b (with_block b s.disk) }

pub slot_direct : (s : Locked) (i : ℕ) → i < 13 → slot s i ≡ addr s i
unfolding slot
slot_direct s i h = ground arith

word_zero : (k : ℕ) → get_word (λ x. 0) k ≡ 0
unfolding get_word
word_zero k = omega arith

pub slot_entry :
    (s : Locked) (i : ℕ) → 13 ≤ i → slot s i ≡ entry_of (addr s ndirect) s.disk.bytes (i - 13)
unfolding slot
slot_entry s i h = ground arith

entry_fresh : (b j : ℕ) (bytes : ℕ → Bytes) → entry_of b (update bytes b (λ x. 0)) j ≡ 0
entry_fresh b j bytes =
    let e : update bytes b (λ x. 0) b ≡ (λ x. 0) = ground arith in
    ground (arith, ap (λ (f : Bytes). get_word f j) e ∙ word_zero j)

pub entry_kept :
    (a b j : ℕ) (v : Bytes) (bytes : ℕ → Bytes)
    → (a ≢ 0 → a ≢ b)
    → entry_of a (update bytes b v) j ≡ entry_of a bytes j
entry_kept a b j v bytes ne = elim (Bool-cases (a == 0)) [
  | inl z ↦ ground (arith, z)
  | inr p ↦
      let n : a ≢ b = ne (ground (arith, p)) in
      let e : update bytes b v a ≡ bytes a = ground (arith, n) in
      ground (arith, p, ap (λ (f : Bytes). get_word f j) e)
]

pub with_addr-Filled :
    (i b : ℕ) (s : Locked)
    → i < 13
    → addr s i ≡ 0
    → (addr s ndirect ≢ 0 → addr s ndirect ≢ b)
    → Filled i b s (with_addr i b s)
with_addr-Filled i b s h z ne =
    let t = with_addr i b s in
    record {
      at = slot_direct t i h ∙ ground arith;
      others = λ j g n. elim (Bool-cases (ltb j 13)) [
        | inl low ↦
            let l : j < 13 = ground (arith, low) in
            slot_direct t j l ∙ ground (arith, n) ∙ sym (slot_direct s j l)
        | inr high ↦
            let l : 13 ≤ j = ground (arith, high) in
            slot_entry t j l
            ∙ elim (Bool-cases (ndirect == i)) [
              | inl last ↦
                  let e : i ≡ ndirect = ground (arith, last) in
                  let a : addr t ndirect ≡ b = ground (arith, e) in
                  ap (λ (c : ℕ). entry_of c t.disk.bytes (j - 13)) a
                  ∙ entry_fresh b (j - 13) s.disk.bytes
                  ∙ sym (ap (λ (c : ℕ). entry_of c s.disk.bytes (j - 13)) (sym (ap (addr s) e) ∙ z))
              | inr first ↦
                  let a : addr t ndirect ≡ addr s ndirect = ground (arith, first) in
                  ap (λ (c : ℕ). entry_of c t.disk.bytes (j - 13)) a
                  ∙ entry_kept (addr s ndirect) b (j - 13) (λ x. 0) s.disk.bytes ne
            ]
            ∙ sym (slot_entry s j l)
      ];
      used = refl;
      bound = refl;
      size = refl;
      kind = refl;
      fresh = λ y n. ground arith;
      kept = λ x y n _. ground arith;
    }

pub entry_some :
    (a j : ℕ) (bytes : ℕ → Bytes) (w : Bytes)
    → a ≢ 0
    → bytes a ≡ w
    → entry_of a bytes j ≡ get_word w j
entry_some a j bytes w z e = ground (arith, z, ap (λ (f : Bytes). get_word f j) e)

pub with_entry-Filled :
    (k b : ℕ) (s : Locked)
    → k < nindirect
    → b < 4294967296
    → addr s ndirect ≢ 0
    → addr s ndirect ≢ b
    → Filled (13 + k) b s (with_entry k b s)
with_entry-Filled k b s h l z ne =
    let t = with_entry k b s in
    let a = addr s ndirect in
    let old : update s.disk.bytes b (λ x. 0) a ≡ s.disk.bytes a = ground (arith, ne) in
    let here : t.disk.bytes a ≡ put_word k b (s.disk.bytes a) =
      ground (arith, ap (put_word k b) old) in
    record {
      at =
          slot_entry t (13 + k) (omega arith)
          ∙ entry_some a (13 + k - 13) t.disk.bytes _ z here
          ∙ ap (get_word (put_word k b (s.disk.bytes a))) (omega arith)
          ∙ get_word-put_word k b (s.disk.bytes a) l;
      others = λ j g n. elim (Bool-cases (ltb j 13)) [
        | inl low ↦
            let r : j < 13 = ground (arith, low) in slot_direct t j r ∙ sym (slot_direct s j r)
        | inr high ↦
            let r : 13 ≤ j = ground (arith, high) in
            slot_entry t j r
            ∙ entry_some a (j - 13) t.disk.bytes _ z here
            ∙ get_word-put_word_ne k (j - 13) b (s.disk.bytes a) (λ e. n (omega arith))
            ∙ sym (entry_some a (j - 13) s.disk.bytes _ z refl)
            ∙ sym (slot_entry s j r)
      ];
      used = refl;
      bound = refl;
      size = refl;
      kind = refl;
      fresh = λ y n. ground (arith, ne);
      kept = λ x y n m.
          let na : x ≢ addr s ndirect = λ e. m (e ∙ sym (slot_direct s ndirect (omega arith))) in
          ground (arith, n, na);
    }
