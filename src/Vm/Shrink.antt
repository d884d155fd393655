-- ===== src/Vm/Shrink.antt =====
-- `deallocuvm` of xv6/vm.c gives the pages of a range of user entries back.

pub mod Entry
pub mod Loop
use laboratorio_valen_el_noo.Base.{
  ℕ, zero, suc, ◌+◌, ◌≤◌, ◌<◌, ◌≡◌, ◌≢◌, refl, sym, ap, ◌∙◌, ◌⊎◌, inl, inr, true, false, length,
  ◌==◌, ltb, arith, Bool-cases,
}
use laboratorio_valen_el_noo.Vm.{Vm, is_present}
use laboratorio_valen_el_noo.Vm.Space.{frame, user_entries}
use laboratorio_valen_el_noo.Vm.Walk.{entry, IsSpace}
use laboratorio_valen_el_noo.Vm.Walk.Write.{IsUnused}

-- No entry from `lo` to below `hi` is present in `t`, and the rest is as in `s`.
pub record Shrunk (d lo hi : ℕ) (s t : Vm) : Type 0 where
  pub space : IsSpace d t
  pub cleared : (m : ℕ) → lo ≤ m → m < hi → is_present (entry d t m) ≡ false
  pub others : (l : ℕ) → l < 1048576 → (l < lo) ⊎ (hi ≤ l) → entry d t l ≡ entry d s l
  pub contents :
      (l k : ℕ)
      → l < user_entries
      → (l < lo) ⊎ (hi ≤ l)
      → is_present (entry d s l) ≡ true
      → t.words (frame (entry d s l)) k ≡ s.words (frame (entry d s l)) k
  pub gain : length s.free ≤ length t.free
  pub spare : (v : ℕ) → IsUnused d s v → IsUnused d t v
  pub same_end : t.kend ≡ s.kend

-- One user entry is cleared, and its page is given back.
pub record Freed (d m : ℕ) (s t : Vm) : Type 0 where
  pub space : IsSpace d t
  pub gone : entry d t m ≡ 0
  pub others : (l : ℕ) → l < 1048576 → l ≢ m → entry d t l ≡ entry d s l
  pub contents :
      (l k : ℕ)
      → l < user_entries
      → l ≢ m
      → is_present (entry d s l) ≡ true
      → t.words (frame (entry d s l)) k ≡ s.words (frame (entry d s l)) k
  pub gain : length s.free ≤ length t.free
  pub spare : (v : ℕ) → IsUnused d s v → IsUnused d t v
  pub same_end : t.kend ≡ s.kend

pub Shrunk-none : (d lo hi : ℕ) (s : Vm) → IsSpace d s → hi ≤ lo → Shrunk d lo hi s s
Shrunk-none d lo hi s a h = record {
  space = a;
  cleared = λ m l g. absurd (omega arith);
  others = λ l g o. refl;
  contents = λ l k g o p. refl;
  gain = omega arith;
  spare = λ v u. u;
  same_end = refl;
}

pub Shrunk-skip :
    (d m m1 hi : ℕ) (s t : Vm)
    → m ≤ m1
    → hi ≤ 1048576
    → ((l : ℕ) → m ≤ l → l < m1 → l < hi → is_present (entry d s l) ≡ false)
    → Shrunk d m1 hi s t
    → Shrunk d m hi s t
Shrunk-skip d m m1 hi s t h top absent r = record {
  space = r.space;
  cleared = λ l g k. elim (Bool-cases (ltb l m1)) [
    | inl low ↦
        let q : l < m1 = ground (arith, low) in
        ap is_present (r.others l (omega arith) (inl q)) ∙ absent l g q k
    | inr high ↦ r.cleared l (ground (arith, high)) k
  ];
  others = λ l g o. r.others l g (ground (arith, o, h));
  contents = λ l k g o p. r.contents l k g (ground (arith, o, h)) p;
  gain = r.gain;
  spare = r.spare;
  same_end = r.same_end;
}

pub Shrunk-Freed :
    (d m hi : ℕ) (s t u : Vm)
    → m < hi
    → hi ≤ user_entries
    → Freed d m s t
    → Shrunk d (m + 1) hi t u
    → Shrunk d m hi s u
Shrunk-Freed d m hi s t u h top f r = record {
  space = r.space;
  cleared = λ l g k. elim (Bool-cases (l == m)) [
    | inl same ↦
        let q : l ≡ m = ground (arith, same) in
        ap is_present (r.others l (omega arith) (inl (omega arith)) ∙ ap (entry d t) q ∙ f.gone)
    | inr other ↦ r.cleared l (ground (arith, other, g)) k
  ];
  others = λ l g o.
      let ne : l ≢ m = ground (arith, o, h) in r.others l g (ground (arith, o)) ∙ f.others l g ne;
  contents = λ l k g o p.
      let ne : l ≢ m = ground (arith, o, h) in
      let e = f.others l (omega arith) ne in
      ap (λ x. u.words x k) (sym (ap frame e))
      ∙ r.contents l k g (ground (arith, o)) (ap is_present e ∙ p)
      ∙ ap (λ x. t.words x k) (ap frame e)
      ∙ f.contents l k g ne p;
  gain = omega (arith, f.gain, r.gain);
  spare = λ v x. r.spare v (f.spare v x);
  same_end = r.same_end ∙ f.same_end;
}
