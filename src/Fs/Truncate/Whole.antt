-- ===== src/Fs/Truncate/Whole.antt =====
-- `itrunc` of xv6/fs.c on the blocks of a file.
use laboratorio_valen_el_noo.Base.{
  ℕ, ◌+◌, ◌-◌, ◌≤◌, ◌<◌, ◌≡◌, ◌≢◌, refl, sym, ap, ◌∙◌, inl, inr, Bool, true, false, ◌==◌, ltb,
  arith, Bool-cases,
}
use laboratorio_valen_el_noo.Log.{update}
use laboratorio_valen_el_noo.Strings.{Bytes}
use laboratorio_valen_el_noo.Fs.{
  Locked, Result, ok, ◌>>=◌, mark, iupdate, addr, set_addr, get_word, ndirect,
}
use laboratorio_valen_el_noo.Fs.Slots.{slot, entry_of, IsFile}
use laboratorio_valen_el_noo.Fs.Fill.{entry_some, slot_direct, slot_entry}
use laboratorio_valen_el_noo.Fs.Truncate.{trunc_indirect, reset_size, itrunc, Released, IsOwned}
use laboratorio_valen_el_noo.Fs.Truncate.GivenBack.{Released-none}
use laboratorio_valen_el_noo.Fs.Truncate.Loops.{
  bfree_used, trunc_entries-Released, Trimmed, trunc_direct-Trimmed, Released-join, Released-shift,
  Released-front,
}

slot-IsOwned : (s : Locked) → IsFile s → IsOwned (slot s) 141 s.disk.used
slot-IsOwned s v = record { busy = λ i h ne. (v.owned i h ne).1; apart = v.apart }

direct-IsOwned : (s : Locked) → IsFile s → IsOwned (addr s) 12 s.disk.used
direct-IsOwned s v = record {
  busy = λ i h ne.
      let e = slot_direct s i (omega arith) in
      ap s.disk.used (sym e) ∙ (v.owned i (omega arith) (λ z. ne (sym e ∙ z))).1;
  apart = λ i j h l ne q.
      let e = slot_direct s i (omega arith) in
      let e1 = slot_direct s j (omega arith) in
      v.apart i j (omega arith) (omega arith) (λ z. ne (sym e ∙ z)) (e ∙ q ∙ sym e1);
}

-- A file that has given all its blocks back, and only these.
pub record Truncated (s t : Locked) : Type 0 where
  pub cleared : (i : ℕ) → i < 141 → slot t i ≡ 0
  pub released : Released (slot s) 0 141 s.disk.used t.disk.used
  pub size : t.ip.copy.size ≡ 0
  pub bytes : t.disk.bytes ≡ s.disk.bytes
  pub synced : t.disk.inodes t.ip.inum ≡ t.ip.copy

no_slots : (t : Locked) → ((i : ℕ) → i < 13 → addr t i ≡ 0) → (i : ℕ) → slot t i ≡ 0
no_slots t z i = elim (Bool-cases (ltb i 13)) [
  | inl low ↦ let l : i < 13 = ground (arith, low) in slot_direct t i l ∙ z i l
  | inr high ↦
      slot_entry t i (ground (arith, high))
      ∙ ap (λ a. entry_of a t.disk.bytes (i - 13)) (z ndirect (omega arith))
]

Released-zero :
    (o : ℕ → ℕ) (lo hi : ℕ) (u : ℕ → Bool)
    → ((i : ℕ) → lo ≤ i → i < hi → o i ≡ 0)
    → Released o lo hi u u
Released-zero o lo hi u z = record { freed = λ i g l ne. absurd (ne (z i g l)); kept = λ b k. refl }

no_indirect : (s : Locked) (i : ℕ) → addr s ndirect ≡ 0 → 12 ≤ i → slot s i ≡ 0
no_indirect s i z h = elim (Bool-cases (i == 12)) [
  | inl e ↦
      let p : i ≡ 12 = ground (arith, e) in ap (slot s) p ∙ slot_direct s ndirect (omega arith) ∙ z
  | inr e ↦ slot_entry s i (ground (arith, e, h)) ∙ ap (λ a. entry_of a s.disk.bytes (i - 13)) z
]

-- The entries of the indirect block, while only the direct blocks are given back.
module _ (s t : Locked) (v : IsFile s) (a : Bytes)
    (direct : Released (slot s) 0 12 s.disk.used t.disk.used)
    (ent : (j : ℕ) → slot s (j + 13) ≡ get_word a j) where
  still_busy : (i : ℕ) → 12 ≤ i → i < 141 → slot s i ≢ 0 → t.disk.used (slot s i) ≡ true
  still_busy i g h ne =
      direct.kept (slot s i) (λ j x y z e. absurd (omega (arith, v.apart j i (omega arith) h z e)))
      ∙ (v.owned i h ne).1

  entries-IsOwned : IsOwned (get_word a) 128 t.disk.used
  entries-IsOwned = record {
    busy = λ j h ne.
        ap t.disk.used (sym (ent j))
        ∙ still_busy (j + 13) (omega arith) (omega arith) (λ z. ne (sym (ent j) ∙ z));
    apart = λ i j h l ne e.
        let p =
          v.apart (i + 13) (j + 13) (omega arith) (omega arith) (λ z. ne (sym (ent i) ∙ z))
            (ent i ∙ e ∙ sym (ent j)) in
        omega (arith, p);
  }

  not_entry : (j b : ℕ) → j < 128 → slot s 12 ≡ b → get_word a j ≢ 0 → get_word a j ≢ b
  not_entry j b h at ne e = absurd (
      omega (
        arith,
        v.apart (j + 13) 12 (omega arith) (omega arith) (λ z. ne (sym (ent j) ∙ z))
            (ent j ∙ e ∙ sym at),
      ))

entry_at :
    (s t : Locked) (a : Bytes)
    → addr t ndirect ≡ addr s ndirect
    → t.disk.bytes ≡ s.disk.bytes
    → t.disk.bytes (addr t ndirect) ≡ a
    → addr s ndirect ≢ 0
    → (j : ℕ) → slot s (j + 13) ≡ get_word a j
entry_at s t a e f g ne j =
    slot_entry s (j + 13) (omega arith)
    ∙ entry_some (addr s ndirect) (j + 13 - 13) s.disk.bytes _ ne refl
    ∙ ap (λ (x : Bytes). get_word x (j + 13 - 13))
        (sym (ap (λ (h : ℕ → Bytes). h (addr s ndirect)) f) ∙ ap t.disk.bytes (sym e) ∙ g)
    ∙ ap (get_word a) (omega arith)

freed_front :
    (o : ℕ → ℕ) (b : ℕ) (u v : ℕ → Bool)
    → o 12 ≡ b
    → o 12 ≢ 0
    → Released o 13 141 u v
    → Released o 12 141 u (update v b false)
freed_front o b u v e nz r = rw (sym e) (Released-front o 12 141 u v (omega arith) nz r)

-- `trunc_indirect` once the direct blocks are given back.
trunc_indirect-Trimmed :
    (s t : Locked)
    → IsFile s
    → Trimmed (addr s) 12 s.disk.used s t
    → (w : Locked) × (trunc_indirect t ≡ ok w)
      × ((i : ℕ) → i < 13 → addr w i ≡ 0)
      × Released (slot s) 0 141 s.disk.used w.disk.used
      × (w.disk.bytes ≡ s.disk.bytes)
unfolding trunc_indirect
trunc_indirect-Trimmed s t v r =
    let direct : Released (slot s) 0 12 s.disk.used t.disk.used =
      Released-shift (addr s) (slot s) 0 12 0 s.disk.used t.disk.used
        (λ i g l. ap (slot s) (omega arith) ∙ slot_direct s i (omega arith)) r.released in
    let last = r.later ndirect (omega arith) in
    elim (Bool-cases (addr t ndirect == 0)) [
      | inl z ↦
          let none_there : addr s ndirect ≡ 0 = sym last ∙ ground (arith, z) in
          (
            t,
            rw (trunc_indirect, z) refl,
            λ i h. elim (Bool-cases (i == 12)) [
              | inl e ↦ let p : i ≡ 12 = ground (arith, e) in ap (addr t) p ∙ ground (arith, z)
              | inr e ↦ r.cleared i (ground (arith, e, h))
            ],
            Released-join (slot s) 0 12 141 s.disk.used t.disk.used t.disk.used (omega arith)
                (omega arith) (slot-IsOwned s v) direct
                (Released-zero (slot s) 12 141 t.disk.used (λ i g l. no_indirect s i none_there g)),
            r.bytes,
          )
      | inr full ↦
          let b = addr t ndirect in
          let a = t.disk.bytes b in
          let at : slot s 12 ≡ b = slot_direct s ndirect (omega arith) ∙ sym last in
          let nz : slot s 12 ≢ 0 = λ y. absurd (ground (arith, full, at, y)) in
          let ent =
            entry_at s t a last r.bytes refl (λ y. nz (slot_direct s ndirect (omega arith) ∙ y)) in
          let (u, run, q) =
            trunc_entries-Released 128 0 0 128 a t.disk.used t.disk.used t.disk refl (omega arith)
              (entries-IsOwned s t v a direct ent) (Released-none (get_word a) 0 t.disk.used) in
          let busy : u b ≡ true =
            q.kept b (λ j x y. not_entry s t v a direct ent j b y at)
            ∙ ap t.disk.used (sym at)
            ∙ still_busy s t v a direct ent 12 (omega arith) (omega arith) nz in
          let e = record t.disk { used = u } in
          (
            record { ip = set_addr ndirect 0 t.ip; disk = mark b false e },
            rw (trunc_indirect, full, run, bfree_used b e busy) refl,
            λ i h. elim (Bool-cases (i == 12)) [
              | inl same ↦ ground (arith, same)
              | inr other ↦
                  let p = r.cleared i (ground (arith, other, h)) in ground (arith, other, p)
            ],
            Released-join (slot s) 0 12 141 s.disk.used t.disk.used (update u b false) (omega arith)
                (omega arith) (slot-IsOwned s v) direct
                (freed_front (slot s) b t.disk.used u at nz
                  (Released-shift (get_word a) (slot s) 0 128 13 t.disk.used u (λ i g l. ent i) q)),
            r.bytes,
          )
    ]

-- `itrunc` of a file whose blocks are its own and in use does not panic: the file keeps no block and has
-- size 0, the blocks that it had, its indirect block with them, are free, every other block is in use
-- or free as before, and the inode on the disk is the one in memory.
pub itrunc-Truncated : (s : Locked) → IsFile s → (t : Locked) × (itrunc s ≡ ok t) × Truncated s t
unfolding itrunc iupdate
itrunc-Truncated s v =
    let (t, run, r) =
      trunc_direct-Trimmed 12 0 12 (addr s) s.disk.used s s refl (direct-IsOwned s v) (record {
        released = Released-none (addr s) 0 s.disk.used;
        cleared = λ i h. absurd (omega arith);
        later = λ i h. refl;
        bytes = refl;
        bound = refl;
        inum = refl;
      }) in
    let (w, run1, zero_addr, q, same) = trunc_indirect-Trimmed s t v r in
    (
      reset_size w,
      ap (λ (c : Result Locked). c >>= trunc_indirect >>= λ x. ok (reset_size x)) run
          ∙ ap (λ (c : Result Locked). c >>= λ x. ok (reset_size x)) run1,
      record {
        cleared = λ i h. no_slots (reset_size w) zero_addr i;
        released = q;
        size = refl;
        bytes = same;
        synced = ground arith;
      },
    )
