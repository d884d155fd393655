-- ===== src/Fs/Write.antt =====
-- `writei` of xv6/fs.c on a file: its loop writes the bytes as one copy would.
use laboratorio_valen_el_noo.Base.{
  ℕ, zero, suc, ◌+◌, ◌-◌, ◌*◌, ◌/◌, ◌%◌, ◌≤◌, ◌<◌, ◌≡◌, ◌≢◌, refl, sym, ap, ◌∙◌, inl, inr, ◌==◌,
  ltb, if◌then◌else◌, arith, Bool-cases,
}
use laboratorio_valen_el_noo.Strings.{Bytes}
use laboratorio_valen_el_noo.Fs.{Locked, maxfile, bsize}
use laboratorio_valen_el_noo.Fs.{copied, chunk, data_loop, ok}
use laboratorio_valen_el_noo.Fs.Slots.{byte_in, slot, place, IsFile, byte_at}
use laboratorio_valen_el_noo.Fs.Bmap.{free_blocks, Got, bmap-Got}
use laboratorio_valen_el_noo.Fs.Store.{
  stored, stored-slot, stored-IsFile, byte_here, byte_there, place_lt, copied_block, copied_apart,
  copied-copied,
}

-- The blocks that `left` bytes from `off` on touch.
abbrev pub spans : ℕ → ℕ → ℕ
spans off left = if left == 0 then 0 else (off % bsize + left + 511) / bsize

-- The blocks that two ranges touch, the second from the start of a block on.
spans-add :
    (off m k l : ℕ)
    → l ≡ m + k
    → 0 < m
    → (0 < k → (off + m) % bsize ≡ 0)
    → spans off m + spans (off + m) k ≤ spans off l
spans-add off m k l e pos edge = ground (arith, edge, e, pos)

spans_one : (off m : ℕ) → 0 < m → m ≤ bsize - off % bsize → spans off m ≡ 1
spans_one off m pos h = ground (arith, h, pos)

-- `t` is `s` with `left` bytes of `src`, from `tot` on, written from `off` on; the blocks that they
-- touch are allocated.
pub record Wrote (src : Bytes) (tot off left : ℕ) (s t : Locked) : Type 0 where
  pub valid : IsFile t
  pub content : (x : ℕ) → x < maxfile * bsize → byte_at t x ≡ copied left off tot src (byte_at s) x
  pub slots : (i : ℕ) → i < 141 → slot s i ≢ 0 → slot t i ≡ slot s i
  pub touched :
      (bn : ℕ) → off / bsize ≤ bn → bn * bsize < off + left → 0 < left → slot t (place bn) ≢ 0
  pub size : t.ip.copy.size ≡ s.ip.copy.size
  pub cost : free_blocks s.disk ≤ free_blocks t.disk + 2 * spans off left
  pub kind : t.ip.copy.type ≡ s.ip.copy.type

-- A round that writes `m` bytes into the block that `bmap` returns.
round-Wrote :
    (m off tot b : ℕ) (src : Bytes) (s t : Locked)
    → 0 < m
    → m ≤ bsize - off % bsize
    → off < maxfile * bsize
    → Got 2 (place (off / bsize)) b s t
    → Wrote src tot off m s (stored b (copied m (off % bsize) tot src (t.disk.bytes b)) t)
round-Wrote m off tot b src s t pos h l g =
    let bn = off / bsize in
    let v = copied m (off % bsize) tot src (t.disk.bytes b) in
    let low : bn < maxfile = omega arith in
    record {
      valid = stored-IsFile bn b v t g.valid low g.at g.nonzero;
      content = λ x k. elim (Bool-cases (x / bsize == bn)) [
        | inl same ↦
            let e : x / bsize ≡ bn = ground (arith, same) in
            let old : t.disk.bytes b (x % bsize) ≡ byte_at s x =
              sym (byte_in_block x e) ∙ g.extends.content x k in
            byte_here bn b v t g.valid low g.at g.nonzero x e
            ∙ copied_block m off tot x src (t.disk.bytes b) (byte_at s) h e old
        | inr other ↦
            let ne : x / bsize ≢ bn = ground (arith, other) in
            byte_there bn b v t g.valid low g.at g.nonzero x k ne
            ∙ g.extends.content x k
            ∙ sym (copied_apart m off tot x src (byte_at s) h ne)
      ];
      slots = λ i k ne. stored-slot bn b v t g.valid low g.at g.nonzero i ∙ g.extends.slots i k ne;
      touched = λ c k r p e.
          let c_eq : c ≡ bn = omega arith in
          g.nonzero (
            sym g.at
            ∙ ap (λ (x : ℕ). slot t (place x)) (sym c_eq)
            ∙ sym (stored-slot bn b v t g.valid low g.at g.nonzero (place c))
            ∙ e);
      size = g.extends.size;
      cost = omega (arith, g.cost, spans_one off m pos h);
      kind = g.extends.kind;
    }
  where
    byte_in_block : (x : ℕ) → x / bsize ≡ off / bsize → byte_at t x ≡ t.disk.bytes b (x % bsize)
    byte_in_block x e =
        ap (λ (c : ℕ). byte_in c t.disk (x % bsize)) (ap (λ (c : ℕ). slot t (place c)) e ∙ g.at)
        ∙ (let z = g.nonzero in ground (arith, z))

sum_of_costs : (x y z a b c : ℕ) → x ≤ y + 2 * a → y ≤ z + 2 * b → a + b ≤ c → x ≤ z + 2 * c
sum_of_costs x y z a b c h k l = omega arith

Wrote-trans :
    (src : Bytes) (tot off m k l : ℕ) (s t u : Locked)
    → l ≡ m + k
    → off + l ≤ maxfile * bsize
    → 0 < m
    → (0 < k → (off + m) % bsize ≡ 0)
    → Wrote src tot off m s t
    → Wrote src (tot + m) (off + m) k t u
    → Wrote src tot off l s u
Wrote-trans src tot off m k l s t u e fits pos edge a b = record {
  valid = b.valid;
  content = λ x g.
      b.content x g ∙ copied-copied m k l off tot x src (byte_at s) (byte_at t) e (a.content x g);
  slots = λ i g ne. b.slots i g (λ z. ne (sym (a.slots i g ne) ∙ z)) ∙ a.slots i g ne;
  touched = λ bn g r p z. elim (Bool-cases (ltb (bn * bsize) (off + m))) [
    | inl first ↦
        let full = a.touched bn g (ground (arith, first)) pos in
        full (sym (b.slots (place bn) (place_lt bn (omega arith)).0 full) ∙ z)
    | inr later ↦
        let high : off + m ≤ bn * bsize = ground (arith, later) in
        b.touched bn (omega arith) (omega arith) (omega arith) z
  ];
  size = b.size ∙ a.size;
  cost = sum_of_costs _ _ _ _ _ _ a.cost b.cost (spans-add off m k l e pos edge);
  kind = b.kind ∙ a.kind;
}

pub Wrote-eq :
    (src : Bytes) (tot off m n : ℕ) (s t : Locked)
    → m ≡ n
    → Wrote src tot off m s t
    → Wrote src tot off n s t
Wrote-eq src tot off m n s t e w = rw (e) at w

-- A round moves some bytes, and stays in its block; if it is not the last, it ends the block.
pub chunk-bounds :
    (left off : ℕ)
    → 0 < left
    → (chunk left off ≤ bsize - off % bsize)
      × (0 < chunk left off)
      × (chunk left off ≤ left)
      × (chunk left off < left → (off + chunk left off) % bsize ≡ 0)
      × (spans (off + chunk left off) (left - chunk left off) + 1 ≤ spans off left)
chunk-bounds left off h = (ground arith, ground arith, ground arith, ground arith, ground arith)

two_less : (a b c x y : ℕ) → a ≡ b → b + 1 ≤ c → x ≤ y + 2 → 2 * c ≤ x → 2 * a ≤ y
two_less a b c x y e l h k = omega arith

-- The loop of `writei`: `n` bytes in all, of which `tot` are written.
pub data_loop-Wrote :
    (fuel n tot off : ℕ) (src : Bytes) (s : Locked)
    → IsFile s
    → tot ≤ n
    → n - tot < fuel
    → off + (n - tot) ≤ maxfile * bsize
    → 2 * spans off (n - tot) ≤ free_blocks s.disk
    → (t : Locked) × (data_loop fuel n src tot off s ≡ ok t) × Wrote src tot off (n - tot) s t
unfolding data_loop
data_loop-Wrote zero n tot off src s v l f k r = absurd (omega arith)
data_loop-Wrote (suc fuel) n tot off src s v l f k r = elim (Bool-cases (ltb tot n)) [
  | inr done ↦ (
    s,
    rw (data_loop, done) refl,
    record {
      valid = v;
      content = λ x h. ground (arith, done, l);
      slots = λ i h ne. refl;
      touched = λ bn g h p. absurd (ground (arith, done));
      size = refl;
      cost = omega arith;
      kind = refl;
    },
  )
  | inl more ↦
      let lt : tot < n = ground (arith, more) in
      let m = chunk (n - tot) off in
      let (block, pos, part, edge, fewer) = chunk-bounds (n - tot) off (omega arith) in
      let (b, t, e, g) = bmap-Got (off / bsize) s v (omega arith) (omega (arith, r, fewer)) in
      let u = stored b (copied m (off % bsize) tot src (t.disk.bytes b)) t in
      let first = round-Wrote m off tot b src s t pos block (omega arith) g in
      let same : spans (off + m) (n - (tot + m)) ≡ spans (off + m) (n - tot - m) =
        ap (spans (off + m)) (omega arith) in
      let cost : free_blocks s.disk ≤ free_blocks u.disk + 2 = g.cost in
      let room : 2 * spans (off + m) (n - (tot + m)) ≤ free_blocks u.disk =
        two_less _ _ _ _ _ same fewer cost r in
      let (w, run, rest) =
        data_loop-Wrote fuel n (tot + m) (off + m) src u first.valid (omega (arith, part))
          (omega (arith, pos, part, lt)) (omega (arith, part)) room in
      (
        w,
        rw (data_loop, more, e) run,
        Wrote-trans src tot off m (n - (tot + m)) (n - tot) s u w (omega (arith, part)) k pos
            (λ z. edge (omega arith)) first rest,
      )
]
