-- ===== src/Strings/Compare.antt =====
-- `strncmp` of xv6/string.c compares texts.
use laboratorio_valen_el_noo.Base.{
  ℕ, zero, suc, ◌+◌, ◌<◌, ◌≡◌, ◌≢◌, refl, sym, ap, ap₂, ◌∙◌, ◌⊎◌, inl, inr, Bool, true, false, List,
  [], ◌∷◌, ◌==◌, if◌then◌else◌, arith, Bool-cases, get_or, ℤ, pos, negsuc, drop,
}
use laboratorio_valen_el_noo.Strings.{Bytes, byte_diff, strncmp}

-- The text in the `n` bytes from `i` on: up to its terminator, if it has one.
unfoldable pub read_text : ℕ → ℕ → Bytes → List ℕ
read_text zero i m = []
read_text (suc n) i m = let rest = read_text n (i + 1) m in if m i == 0 then [] else m i ∷ rest

abbrev pub is_zero : ℤ → Bool
is_zero (pos n) = n == 0
is_zero (negsuc n) = false

pub read_text_same :
    (n i j : ℕ) (p q : Bytes)
    → ((x : ℕ) → x < n → p (i + x) ≡ q (j + x))
    → read_text n i p ≡ read_text n j q
unfolding read_text
read_text_same zero i j p q h = refl
read_text_same (suc n) i j p q h =
    let first : p i ≡ q j = ap p (omega arith) ∙ h 0 (omega arith) ∙ ap q (omega arith) in
    let rest =
      read_text_same n (i + 1) (j + 1) p q
        (λ x k. ap p (omega arith) ∙ h (suc x) (omega arith) ∙ ap q (omega arith)) in
    rw (first, rest) refl

read_stop : (n i : ℕ) (p : Bytes) → (p i == 0) ≡ true → read_text (suc n) i p ≡ []
unfolding read_text
read_stop n i p e = rw (e) refl

read_byte :
    (n i : ℕ) (p : Bytes) → (p i == 0) ≡ false → read_text (suc n) i p ≡ p i ∷ read_text n (i + 1) p
unfolding read_text
read_byte n i p e = rw (e) refl

diff_same : (a b : ℕ) → is_zero (byte_diff a b) ≡ (a == b)
unfolding byte_diff
diff_same a b = ground arith

strncmp_end :
    (n i j : ℕ) (p q : Bytes) → (p i == 0) ≡ true → strncmp (suc n) i p j q ≡ byte_diff (p i) (q j)
unfolding strncmp
strncmp_end n i j p q e = rw (e) refl

strncmp_same :
    (n i j : ℕ) (p q : Bytes)
    → (p i == 0) ≡ false
    → (p i == q j) ≡ true
    → strncmp (suc n) i p j q ≡ strncmp n (i + 1) p (j + 1) q
unfolding strncmp
strncmp_same n i j p q e f = rw (e, f) refl

strncmp_other :
    (n i j : ℕ) (p q : Bytes)
    → (p i == 0) ≡ false
    → (p i == q j) ≡ false
    → strncmp (suc n) i p j q ≡ byte_diff (p i) (q j)
unfolding strncmp
strncmp_other n i j p q e f = rw (e, f) refl

-- `strncmp` is zero exactly on the same texts.
abbrev pub Compares : ℕ → ℕ → Bytes → ℕ → Bytes → Type 0
Compares n i p j q =
    ((is_zero (strncmp n i p j q) ≡ true) × (read_text n i p ≡ read_text n j q))
    ⊎ ((is_zero (strncmp n i p j q) ≡ false) × (read_text n i p ≢ read_text n j q))

first_of : (n i : ℕ) (p : Bytes) → get_or (read_text (suc n) i p) 0 0 ≡ p i
first_of n i p = elim (Bool-cases (p i == 0)) [
  | inl e ↦ ap (λ (t : List ℕ). get_or t 0 0) (read_stop n i p e) ∙ ground (arith, e)
  | inr e ↦ ap (λ (t : List ℕ). get_or t 0 0) (read_byte n i p e)
]

heads_apart :
    (n i j : ℕ) (p q : Bytes) → (p i == q j) ≡ false → read_text (suc n) i p ≢ read_text (suc n) j q
heads_apart n i j p q e t =
    let same : p i ≡ q j =
      sym (first_of n i p) ∙ ap (λ (r : List ℕ). get_or r 0 0) t ∙ first_of n j q in
    ground (arith, e, same)

differs :
    (n i j : ℕ) (p q : Bytes)
    → (p i == q j) ≡ false
    → strncmp (suc n) i p j q ≡ byte_diff (p i) (q j)
differs n i j p q f = elim (Bool-cases (p i == 0)) [
  | inl e ↦ strncmp_end n i j p q e
  | inr e ↦ strncmp_other n i j p q e f
]

-- The rest of two texts with the same first byte.
Compares-more :
    (n i j : ℕ) (p q : Bytes)
    → (p i == 0) ≡ false
    → (p i == q j) ≡ true
    → Compares n (i + 1) p (j + 1) q
    → Compares (suc n) i p j q
Compares-more n i j p q e f (inl (z, t)) =
    let run = strncmp_same n i j p q e f in
    let g : (q j == 0) ≡ false = ground (arith, e, f) in
    let first : p i ≡ q j = ground (arith, f) in
    inl (
      ap is_zero run ∙ z,
      read_byte n i p e ∙ ap₂ (λ (c : ℕ) (r : List ℕ). c ∷ r) first t ∙ sym (read_byte n j q g),
    )
Compares-more n i j p q e f (inr (z, ne)) =
    let run = strncmp_same n i j p q e f in
    let g : (q j == 0) ≡ false = ground (arith, e, f) in
    inr
      (ap is_zero run ∙ z, λ t. ne (ap (drop 1) (sym (read_byte n i p e) ∙ t ∙ read_byte n j q g)))

pub strncmp-Compares : (n i j : ℕ) (p q : Bytes) → Compares n i p j q
unfolding strncmp read_text
strncmp-Compares zero i j p q = inl (refl, refl)
strncmp-Compares (suc n) i j p q = elim (Bool-cases (p i == q j)) [
  | inl f ↦ elim (Bool-cases (p i == 0)) [
    | inl e ↦
        let g : (q j == 0) ≡ true = ground (arith, e, f) in
        inl (
          ap is_zero (strncmp_end n i j p q e) ∙ diff_same (p i) (q j) ∙ f,
          read_stop n i p e ∙ sym (read_stop n j q g),
        )
    | inr e ↦ Compares-more n i j p q e f (strncmp-Compares n (i + 1) (j + 1) p q)
  ]
  | inr f ↦
      inr (ap is_zero (differs n i j p q f) ∙ diff_same (p i) (q j) ∙ f, heads_apart n i j p q f)
]
