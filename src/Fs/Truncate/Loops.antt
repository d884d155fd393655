-- ===== src/Fs/Truncate/Loops.antt =====
-- The loops of `itrunc` of xv6/fs.c.
use laboratorio_valen_el_noo.Base.{
  ℕ, zero, suc, ◌+◌, ◌-◌, ◌≤◌, ◌<◌, ◌≡◌, ◌≢◌, refl, sym, ap, ◌∙◌, inl, inr, Bool, true, false, ◌==◌,
  ltb, arith, Bool-cases,
}
use laboratorio_valen_el_noo.Log.{update}
use laboratorio_valen_el_noo.Strings.{Bytes}
use laboratorio_valen_el_noo.Fs.{Disk, Locked, ok, bfree, mark, addr, set_addr, get_word}
use laboratorio_valen_el_noo.Fs.Truncate.{trunc_direct, trunc_entries, Released, IsOwned}
use laboratorio_valen_el_noo.Fs.Truncate.GivenBack.{Released-skip, Released-more, next_busy}

pub bfree_used : (b : ℕ) (d : Disk) → d.used b ≡ true → bfree b d ≡ ok (mark b false d)
unfolding bfree
bfree_used b d h = rw (bfree, h) refl

pub trunc_entries-Released :
    (n j lo hi : ℕ) (a : Bytes) (u v : ℕ → Bool) (d : Disk)
    → hi ≡ j + n
    → lo ≤ j
    → IsOwned (get_word a) hi u
    → Released (get_word a) lo j u v
    → (w : ℕ → Bool) × (trunc_entries n j a (record d { used = v }) ≡ ok (record d { used = w }))
      × Released (get_word a) lo hi u w
unfolding trunc_entries
trunc_entries-Released zero j lo hi a u v d e l o r =
    (v, refl, let q : j ≡ hi = omega arith in rw (sym q) r)
trunc_entries-Released (suc n) j lo hi a u v d e l o r = elim (Bool-cases (get_word a j == 0)) [
  | inl z ↦
      let (w, run, q) =
        trunc_entries-Released n (j + 1) lo hi a u v d (omega arith) (omega arith) o
          (Released-skip (get_word a) lo j u v l (ground (arith, z)) r) in
      (w, rw (trunc_entries, z) run, q)
  | inr full ↦
      let nz : get_word a j ≢ 0 = ground (arith, full) in
      let v1 = update v (get_word a j) false in
      let (w, run, q) =
        trunc_entries-Released n (j + 1) lo hi a u v1 d (omega arith) (omega arith) o
          (Released-more (get_word a) lo j u v l nz r) in
      let one =
        bfree_used (get_word a j) (record d { used = v })
          (next_busy (get_word a) lo j hi u v o (omega arith) nz r) in
      (w, rw (trunc_entries, full, one) run, q)
]

-- After the loops over entries below `hi`: those are 0, the others and the bytes as they were.
pub record Trimmed (o : ℕ → ℕ) (hi : ℕ) (u : ℕ → Bool) (s t : Locked) : Type 0 where
  pub released : Released o 0 hi u t.disk.used
  pub cleared : (i : ℕ) → i < hi → addr t i ≡ 0
  pub later : (i : ℕ) → hi ≤ i → addr t i ≡ o i
  pub bytes : t.disk.bytes ≡ s.disk.bytes
  pub bound : t.disk.size ≡ s.disk.size
  pub inum : t.ip.inum ≡ s.ip.inum

pub trunc_direct-Trimmed :
    (n j hi : ℕ) (o : ℕ → ℕ) (u : ℕ → Bool) (s0 s : Locked)
    → hi ≡ j + n
    → IsOwned o hi u
    → Trimmed o j u s0 s
    → (t : Locked) × (trunc_direct n j s ≡ ok t) × Trimmed o hi u s0 t
unfolding trunc_direct
trunc_direct-Trimmed zero j hi o u s0 s e w r =
    (s, refl, let q : j ≡ hi = omega arith in rw (sym q) r)
trunc_direct-Trimmed (suc n) j hi o u s0 s e w r = elim (Bool-cases (addr s j == 0)) [
  | inl z ↦
      let zero_at : o j ≡ 0 = sym (r.later j (omega arith)) ∙ ground (arith, z) in
      let (t, run, q) = trunc_direct-Trimmed n (j + 1) hi o u s0 s (omega arith) w (record {
        released = Released-skip o 0 j u s.disk.used (omega arith) zero_at r.released;
        cleared = λ i h. elim (Bool-cases (i == j)) [
          | inl same ↦ let p : i ≡ j = ground (arith, same) in ap (addr s) p ∙ ground (arith, z)
          | inr other ↦ r.cleared i (ground (arith, other, h))
        ];
        later = λ i h. r.later i (omega arith);
        bytes = r.bytes;
        bound = r.bound;
        inum = r.inum;
      }) in
      (t, rw (trunc_direct, z) run, q)
  | inr full ↦
      let at = r.later j (omega arith) in
      let nz : o j ≢ 0 = λ y. absurd (ground (arith, full, at, y)) in
      let busy : s.disk.used (addr s j) ≡ true =
        ap s.disk.used at ∙ next_busy o 0 j hi u s.disk.used w (omega arith) nz r.released in
      let d = mark (addr s j) false s.disk in
      let (t, run, q) =
        trunc_direct-Trimmed n (j + 1) hi o u s0 (record { ip = set_addr j 0 s.ip; disk = d })
          (omega arith) w
          (record {
            released = rw (at) (Released-more o 0 j u s.disk.used (omega arith) nz r.released);
            cleared = λ i h. elim (Bool-cases (i == j)) [
              | inl same ↦ ground (arith, same)
              | inr other ↦
                  let p = r.cleared i (ground (arith, other, h)) in ground (arith, other, p)
            ];
            later = λ i h. let p = r.later i (omega arith) in ground (arith, p, h);
            bytes = r.bytes;
            bound = r.bound;
            inum = r.inum;
          }) in
      (t, rw (trunc_direct, full, bfree_used (addr s j) s.disk busy) run, q)
]

-- Two ranges, the second of blocks that the first does not have.
pub Released-join :
    (o : ℕ → ℕ) (lo mid hi : ℕ) (u v w : ℕ → Bool)
    → lo ≤ mid
    → mid ≤ hi
    → IsOwned o hi u
    → Released o lo mid u v
    → Released o mid hi v w
    → Released o lo hi u w
Released-join o lo mid hi u v w h l a r q = record {
  freed = λ i g k ne. elim (Bool-cases (ltb i mid)) [
    | inl low ↦
        let m : i < mid = ground (arith, low) in
        q.kept (o i) (λ j x y z e. absurd (omega (arith, a.apart j i y k z e))) ∙ r.freed i g m ne
    | inr high ↦ q.freed i (ground (arith, high)) k ne
  ];
  kept = λ b k. q.kept b (λ j x y. k j (omega arith) y) ∙ r.kept b (λ j x y. k j x (omega arith));
}

-- The same blocks under other numbers.
pub Released-shift :
    (o q : ℕ → ℕ) (lo hi n : ℕ) (u v : ℕ → Bool)
    → ((i : ℕ) → lo ≤ i → i < hi → q (i + n) ≡ o i)
    → Released o lo hi u v
    → Released q (lo + n) (hi + n) u v
Released-shift o q lo hi n u v e r = record {
  freed = λ i g k ne.
      let j = i - n in
      let back : j + n ≡ i = omega arith in
      let p : q i ≡ o j = ap q (sym back) ∙ e j (omega arith) (omega arith) in
      ap v p ∙ r.freed j (omega arith) (omega arith) (λ z. ne (p ∙ z));
  kept = λ b k. r.kept b (λ i g l ne z.
      let p = e i g l in k (i + n) (omega arith) (omega arith) (λ y. ne (sym p ∙ y)) (p ∙ z));
}

-- The block before a range is given back after it.
pub Released-front :
    (o : ℕ → ℕ) (lo hi : ℕ) (u v : ℕ → Bool)
    → lo < hi
    → o lo ≢ 0
    → Released o (lo + 1) hi u v
    → Released o lo hi u (update v (o lo) false)
Released-front o lo hi u v h nz r = record {
  freed = λ i g k ne. elim (Bool-cases (o i == o lo)) [
    | inl e ↦ ground (arith, e)
    | inr e ↦
        let p : i ≢ lo = λ q. absurd (ground (arith, e, ap o q)) in
        ground (arith, e, r.freed i (omega arith) k ne)
  ];
  kept = λ b k.
      let p = k lo (omega arith) h nz in ground (arith, p, r.kept b (λ i g l. k i (omega arith) l));
}
