-- ===== src/Vm/Own.antt =====
-- Pages of xv6/vm.c that are in use, numbered by what uses them, and those on the free list.
use laboratorio_valen_el_noo.Base.{
  ℕ, ◌≤◌, ◌<◌, ◌≡◌, ◌≢◌, sym, ap, ◌∙◌, ◌⊎◌, inl, inr, false, List, ◌∷◌, ◌==◌, times, arith,
  Bool-cases,
}
use laboratorio_valen_el_noo.Kalloc.{refused, kernbase, address_range}

-- A page that `kfree` takes.
abbrev pub Fit : ℕ → ℕ → Type 0
Fit kend v = (refused kend v ≡ false) × (kernbase < v) × (v < address_range)

-- The pages `o i`, for `i` below `n`, are different from each other and from those of the list, which
-- are different too; 0 stands for no page.
pub record IsApart (kend n : ℕ) (o : ℕ → ℕ) (free : List ℕ) : Type 0 where
  pub apart : (i j : ℕ) → i < n → j < n → o i ≢ 0 → o i ≡ o j → i ≡ j
  pub busy : (i : ℕ) → i < n → o i ≢ 0 → times (o i) free ≡ 0
  pub once : (v : ℕ) → times v free ≤ 1
  pub fit : (i : ℕ) → i < n → o i ≢ 0 → Fit kend (o i)
  pub fit_free : (v : ℕ) → 0 < times v free → Fit kend v

-- A page that is neither in use nor on the list.
pub record IsSpare (kend n : ℕ) (o : ℕ → ℕ) (free : List ℕ) (v : ℕ) : Type 0 where
  pub unused : (i : ℕ) → i < n → o i ≢ v
  pub off_list : times v free ≡ 0
  pub fits : Fit kend v

module _ (kend n : ℕ) (o : ℕ → ℕ) (free : List ℕ) where
  pub take-IsApart : (v : ℕ) → IsApart kend n o (v ∷ free) → IsApart kend n o free
  take-IsApart v a = record {
    apart = a.apart;
    busy = λ i h ne. ground (arith, a.busy i h ne);
    once = λ x. ground (arith, a.once x);
    fit = a.fit;
    fit_free = λ x h. a.fit_free x (ground (arith, h));
  }

  pub take-IsSpare : (v : ℕ) → IsApart kend n o (v ∷ free) → IsSpare kend n o free v
  take-IsSpare v a =
      let f = a.fit_free v (ground (arith)) in
      record {
        unused = λ i h e. elim (Bool-cases (o i == 0)) [
          | inl z ↦ absurd (ground (arith, z, e, f))
          | inr full ↦ absurd (ground (arith, a.busy i h (ground (arith, full)), e))
        ];
        off_list = ground (arith, a.once v);
        fits = f;
      }

  pub IsSpare-more :
      (v w : ℕ)
      → IsApart kend n o (w ∷ free)
      → IsSpare kend n o (w ∷ free) v
      → IsSpare kend n o free v
  IsSpare-more v w a s = record {
    unused = s.unused;
    off_list = let h = s.off_list in ground (arith, h);
    fits = s.fits;
  }

  -- A spare page comes into use at an empty place.
  pub place-IsApart :
      (v k : ℕ) (q : ℕ → ℕ)
      → IsApart kend n o free
      → IsSpare kend n o free v
      → k < n
      → q k ≡ v
      → ((i : ℕ) → i < n → i ≢ k → q i ≡ o i)
      → IsApart kend n q free
  place-IsApart v k q a s h at same =
      let cases : (i : ℕ) → i < n → ((i ≡ k) × (q i ≡ v)) ⊎ ((i ≢ k) × (q i ≡ o i)) = λ i g.
        elim (Bool-cases (i == k)) [
          | inl e ↦ let p : i ≡ k = ground (arith, e) in inl (p, ap q p ∙ at)
          | inr e ↦ let p : i ≢ k = ground (arith, e) in inr (p, same i g p)
        ] in
      record {
        apart = λ i j g l ne e. elim (cases i g) [
          | inl (p, c) ↦ elim (cases j l) [
            | inl (p1, _) ↦ p ∙ sym p1
            | inr (_, c1) ↦ absurd (s.unused j l (sym c1 ∙ sym e ∙ c))
          ]
          | inr (p, c) ↦ elim (cases j l) [
            | inl (_, c1) ↦ absurd (s.unused i g (sym c ∙ e ∙ c1))
            | inr (_, c1) ↦ a.apart i j g l (λ z. ne (c ∙ z)) (sym c ∙ e ∙ c1)
          ]
        ];
        busy = λ i g ne. elim (cases i g) [
          | inl (_, c) ↦ ap (λ x. times x free) c ∙ s.off_list
          | inr (_, c) ↦ ap (λ x. times x free) c ∙ a.busy i g (λ z. ne (c ∙ z))
        ];
        once = a.once;
        fit = λ i g ne. elim (cases i g) [
          | inl (_, c) ↦ rw (c) s.fits
          | inr (_, c) ↦ rw (c) (a.fit i g (λ z. ne (c ∙ z)))
        ];
        fit_free = a.fit_free;
      }

  -- A spare page goes onto the list.
  pub give-IsApart :
      (v : ℕ) → IsApart kend n o free → IsSpare kend n o free v → IsApart kend n o (v ∷ free)
  give-IsApart v a s = record {
    apart = a.apart;
    busy = λ i h ne. let u = s.unused i h in ground (arith, a.busy i h ne, u);
    once = λ x. let z = s.off_list in ground (arith, a.once x, z);
    fit = a.fit;
    fit_free = λ x h. elim (Bool-cases (v == x)) [
      | inl e ↦ let p : x ≡ v = ground (arith, e) in rw (p) s.fits
      | inr e ↦ a.fit_free x (ground (arith, e, h))
    ];
  }

-- A page goes out of use and onto the list.
pub drop-IsApart :
    (kend n : ℕ) (o q : ℕ → ℕ) (free : List ℕ) (v k : ℕ)
    → IsApart kend n o free
    → k < n
    → o k ≡ v
    → v ≢ 0
    → q k ≡ 0
    → ((i : ℕ) → i < n → i ≢ k → q i ≡ o i)
    → IsApart kend n q (v ∷ free)
drop-IsApart kend n o q free v k a h at nz gone same =
    let full : o k ≢ 0 = λ e. nz (sym at ∙ e) in
    let old : (i : ℕ) → i < n → q i ≢ 0 → (i ≢ k) × (q i ≡ o i) =
      λ i g ne. let p : i ≢ k = λ e. ne (ap q e ∙ gone) in (p, same i g p) in
    let left : IsApart kend n q free = record {
      apart = λ i j g l ne e.
          let (_, c) = old i g ne in
          let (_, c1) = old j l (λ z. ne (e ∙ z)) in
          a.apart i j g l (λ z. ne (c ∙ z)) (sym c ∙ e ∙ c1);
      busy = λ i g ne.
          let (_, c) = old i g ne in ap (λ x. times x free) c ∙ a.busy i g (λ z. ne (c ∙ z));
      once = a.once;
      fit = λ i g ne. let (_, c) = old i g ne in rw (c) (a.fit i g (λ z. ne (c ∙ z)));
      fit_free = a.fit_free;
    } in
    give-IsApart kend n q free v left (record {
      unused = λ i g e.
          let (p, c) = old i g (λ z. nz (sym e ∙ z)) in
          p (a.apart i k g h (λ z. nz (sym e ∙ c ∙ z)) (sym c ∙ e ∙ sym at));
      off_list = ap (λ x. times x free) (sym at) ∙ a.busy k h full;
      fits = rw (sym at) (a.fit k h full);
    })

-- The same pages.
pub eq-IsApart :
    (kend n : ℕ) (o q : ℕ → ℕ) (free : List ℕ)
    → ((i : ℕ) → i < n → q i ≡ o i)
    → IsApart kend n o free
    → IsApart kend n q free
eq-IsApart kend n o q free e a = record {
  apart = λ i j h l ne z. a.apart i j h l (λ x. ne (e i h ∙ x)) (sym (e i h) ∙ z ∙ e j l);
  busy = λ i h ne. ap (λ x. times x free) (e i h) ∙ a.busy i h (λ x. ne (e i h ∙ x));
  once = a.once;
  fit = λ i h ne. rw (e i h) (a.fit i h (λ x. ne (e i h ∙ x)));
  fit_free = a.fit_free;
}
