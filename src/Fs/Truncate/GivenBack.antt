-- ===== src/Fs/Truncate/GivenBack.antt =====
-- Blocks that are given back one after another by `itrunc` of xv6/fs.c.
use laboratorio_valen_el_noo.Base.{
  ℕ, ◌+◌, ◌≤◌, ◌<◌, ◌≡◌, ◌≢◌, refl, ap, ◌∙◌, inl, inr, Bool, true, false, ◌==◌, arith, Bool-cases,
}
use laboratorio_valen_el_noo.Log.{update}
use laboratorio_valen_el_noo.Fs.Truncate.{Released, IsOwned}

pub Released-none : (o : ℕ → ℕ) (lo : ℕ) (u : ℕ → Bool) → Released o lo lo u u
Released-none o lo u = record { freed = λ i h l. absurd (omega arith); kept = λ b h. refl }

pub Released-skip :
    (o : ℕ → ℕ) (lo i : ℕ) (u v : ℕ → Bool)
    → lo ≤ i
    → o i ≡ 0
    → Released o lo i u v
    → Released o lo (i + 1) u v
Released-skip o lo i u v h z r = record {
  freed = λ j l k ne. elim (Bool-cases (j == i)) [
    | inl e ↦ let p : j ≡ i = ground (arith, e) in absurd (ne (ap o p ∙ z))
    | inr e ↦ r.freed j l (ground (arith, e, k)) ne
  ];
  kept = λ b k. r.kept b (λ j l g. k j l (omega arith));
}

pub Released-more :
    (o : ℕ → ℕ) (lo i : ℕ) (u v : ℕ → Bool)
    → lo ≤ i
    → o i ≢ 0
    → Released o lo i u v
    → Released o lo (i + 1) u (update v (o i) false)
Released-more o lo i u v h nz r = record {
  freed = λ j l k ne. elim (Bool-cases (o j == o i)) [
    | inl e ↦ ground (arith, e)
    | inr e ↦
        let p : j ≢ i = λ q. absurd (ground (arith, e, ap o q)) in
        ground (arith, e, r.freed j l (omega arith) ne)
  ];
  kept = λ b k.
      let p = k i h (omega arith) nz in ground (arith, p, r.kept b (λ j l g. k j l (omega arith)));
}

-- The next block is still in use.
pub next_busy :
    (o : ℕ → ℕ) (lo i hi : ℕ) (u v : ℕ → Bool)
    → IsOwned o hi u
    → i < hi
    → o i ≢ 0
    → Released o lo i u v
    → v (o i) ≡ true
next_busy o lo i hi u v w h nz r =
    r.kept (o i) (λ j l k ne e. absurd (omega (arith, w.apart j i (omega arith) h ne e)))
    ∙ w.busy i h nz
