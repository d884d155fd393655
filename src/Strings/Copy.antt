-- ===== src/Strings/Copy.antt =====
-- `strncpy` and `safestrcpy` of xv6/string.c between ranges that do not overlap.
use laboratorio_valen_el_noo.Base.{
  ℕ, zero, suc, ◌+◌, ◌≤◌, ◌<◌, ◌≡◌, ◌≢◌, ◌⊎◌, inl, inr, refl, sym, ap, ◌∙◌, Bool, false, ◌||◌, ◌==◌,
  if◌then◌else◌, arith, Bool-cases,
}
use laboratorio_valen_el_noo.Strings.{Bytes, put_byte, zero_fill, strncpy, safe_loop, safestrcpy}

-- The `n` bytes at `s` and those at `t` are apart.
abbrev pub Apart : ℕ → ℕ → ℕ → Type 0
Apart n s t = (s + n ≤ t) ⊎ (t + n ≤ s)

-- A zero byte among the first `i` at `t`, and what a field of fixed length holds at `i`.
abbrev pub ended : ℕ → ℕ → Bytes → Bool
ended zero t m = false
ended (suc i) t m = m t == 0 || ended i (t + 1) m

abbrev pub field : ℕ → Bytes → ℕ → ℕ
field t m i = if ended i t m then 0 else m (t + i)

ended-put_byte :
    (i t d x : ℕ) (m : Bytes) → (d < t) ⊎ (t + i ≤ d) → ended i t (put_byte d x m) ≡ ended i t m
ended-put_byte zero t d x m h = refl
ended-put_byte (suc i) t d x m h =
    ground (arith, ended-put_byte i (t + 1) d x m (ground (arith, h)), h)

zero_fill_outside : (n s : ℕ) (m : Bytes) (a : ℕ) → (a < s) ⊎ (s + n ≤ a) → zero_fill n s m a ≡ m a
unfolding zero_fill
zero_fill_outside zero s m a h = refl
zero_fill_outside (suc n) s m a h =
    zero_fill_outside n (s + 1) (put_byte s 0 m) a (ground (arith, h)) ∙ ground (arith, h)

zero_fill_inside : (n s : ℕ) (m : Bytes) (a : ℕ) → s ≤ a → a < s + n → zero_fill n s m a ≡ 0
unfolding zero_fill
zero_fill_inside zero s m a h k = absurd (omega arith)
zero_fill_inside (suc n) s m a h k = elim (Bool-cases (a == s)) [
  | inl same ↦ zero_fill_outside n (s + 1) (put_byte s 0 m) a (ground arith) ∙ ground (arith, same)
  | inr other ↦ zero_fill_inside n (s + 1) (put_byte s 0 m) a (ground arith) (omega arith)
]

strncpy_outside : (n s t : ℕ) (m : Bytes) (a : ℕ) → (a < s) ⊎ (s + n ≤ a) → strncpy n s t m a ≡ m a
unfolding strncpy
strncpy_outside zero s t m a h = refl
strncpy_outside (suc n) s t m a h =
    let m1 = put_byte s (m t) m in
    let kept : m1 a ≡ m a = ground (arith, h) in
    ground (
      arith,
      zero_fill_outside n (s + 1) m1 a (ground (arith, h)),
      strncpy_outside n (s + 1) (t + 1) m1 a (ground (arith, h)),
      kept,
    )

strncpy_inside :
    (n s t i : ℕ) (m : Bytes) → Apart n s t → i < n → strncpy n s t m (s + i) ≡ field t m i
unfolding strncpy
strncpy_inside zero s t i m h k = absurd (omega arith)
strncpy_inside (suc n) s t zero m h k =
    let m1 = put_byte s (m t) m in
    let e : s + 0 ≡ s = omega arith in
    let f : t + 0 ≡ t = omega arith in
    let stored : m1 s ≡ m t = ground arith in
    let filled = zero_fill_outside n (s + 1) m1 s (inl (omega arith)) in
    let rest = strncpy_outside n (s + 1) (t + 1) m1 s (inl (omega arith)) in
    let run : Bool → Bytes =
      λ b. if b then zero_fill n (s + 1) m1 else strncpy n (s + 1) (t + 1) m1 in
    let at_s : run (m t == 0) s ≡ m1 s = elim (Bool-cases (m t == 0)) [
      | inl end ↦ ap (λ b. run b s) end ∙ filled
      | inr more ↦ ap (λ b. run b s) more ∙ rest
    ] in
    ap (run (m t == 0)) e ∙ at_s ∙ stored ∙ ap m (sym f)
strncpy_inside (suc n) s t (suc i) m h k =
    let m1 = put_byte s (m t) m in
    let to : s + suc i ≡ s + 1 + i = omega arith in
    let from : t + suc i ≡ t + 1 + i = omega arith in
    let filled : zero_fill n (s + 1) m1 (s + suc i) ≡ 0 =
      zero_fill_inside n (s + 1) m1 (s + suc i) (omega arith) (omega arith) in
    let rest : strncpy n (s + 1) (t + 1) m1 (s + suc i) ≡ field (t + 1) m1 i =
      ap (strncpy n (s + 1) (t + 1) m1) to
      ∙ strncpy_inside n (s + 1) (t + 1) i m1 (ground (arith, h)) (omega arith) in
    let same : ended i (t + 1) m1 ≡ ended i (t + 1) m =
      ended-put_byte i (t + 1) s (m t) m (ground (arith, h)) in
    let kept : m1 (t + 1 + i) ≡ m (t + 1 + i) = ground (arith, h) in
    let value : m1 (t + 1 + i) ≡ m (t + suc i) = kept ∙ ap m (sym from) in
    ground (arith, filled, rest, same, value)

-- `strncpy` fills the `n` bytes at `s` from a source apart from them: with the string at `t` up to
-- its first zero byte, and zeros after it, so that there is no zero if the string is longer. It
-- changes no other byte.
pub strncpy_lem :
    (n s t : ℕ) (m : Bytes)
    → Apart n s t
    → ((i : ℕ) → i < n → strncpy n s t m (s + i) ≡ field t m i)
      × ((a : ℕ) → (a < s) ⊎ (s + n ≤ a) → strncpy n s t m a ≡ m a)
strncpy_lem n s t m h = (λ i k. strncpy_inside n s t i m h k, strncpy_outside n s t m)

safe_loop_outside :
    (n s t : ℕ) (m : Bytes) (a : ℕ) → (a < s) ⊎ (s + n < a) → safe_loop n s t m a ≡ m a
unfolding safe_loop
safe_loop_outside zero s t m a h = ground (arith, h)
safe_loop_outside (suc n) s t m a h =
    let m1 = put_byte s (m t) m in
    let kept : m1 a ≡ m a = ground (arith, h) in
    let closed : put_byte (s + 1) 0 m1 a ≡ m a = ground (arith, h) in
    ground (arith, safe_loop_outside n (s + 1) (t + 1) m1 a (ground (arith, h)), kept, closed)

-- A string of length `k` at `s`, equal to the first `k` bytes at `t` in `m`; only if it is cut at
-- `n` need it not be the whole string.
abbrev pub Copied : ℕ → ℕ → ℕ → Bytes → Bytes → Type 0
Copied n s t m r =
    (k : ℕ) × (k ≤ n)
    × (r (s + k) ≡ 0)
    × ((i : ℕ) → i < k → (r (s + i) ≡ m (t + i)) × (m (t + i) ≢ 0))
    × (k < n → m (t + k) ≡ 0)

safe_end :
    (n s t : ℕ) (m : Bytes)
    → m t ≡ 0
    → Copied (suc n) s t m (put_byte (s + 1) 0 (put_byte s (m t) m))
safe_end n s t m z =
    let e : s + 0 ≡ s = omega arith in
    let f : t + 0 ≡ t = omega arith in
    (0, omega arith, rw e (ground arith), λ i l. absurd (omega arith), λ l. ap m f ∙ z)

-- One byte more in front.
safe_next :
    (n s t : ℕ) (m : Bytes)
    → Apart (suc n) s t
    → m t ≢ 0
    → Copied n
        (s + 1)
        (t + 1)
        (put_byte s (m t) m)
        (safe_loop n (s + 1) (t + 1) (put_byte s (m t) m))
    → Copied (suc n) s t m (safe_loop n (s + 1) (t + 1) (put_byte s (m t) m))
safe_next n s t m h nz (k, low, z, eqs, cut) =
    let m1 = put_byte s (m t) m in
    let rest = safe_loop n (s + 1) (t + 1) m1 in
    let kept : (i : ℕ) → i < n → m1 (t + 1 + i) ≡ m (t + suc i) = λ i l.
      let e : m1 (t + 1 + i) ≡ m (t + 1 + i) = ground (arith, h) in
      let from : t + 1 + i ≡ t + suc i = omega arith in e ∙ ap m from in
    let to : (i : ℕ) → s + suc i ≡ s + 1 + i = λ i. omega arith in
    let e0 : s + 0 ≡ s = omega arith in
    let f0 : t + 0 ≡ t = omega arith in
    let stored : m1 s ≡ m t = ground arith in
    (
      suc k,
      omega arith,
      ap rest (to k) ∙ z,
      λ i. elim i as (λ x. x < suc k → (rest (s + x) ≡ m (t + x)) × (m (t + x) ≢ 0)) [
        | zero ↦ λ l. (
          ap rest e0
              ∙ safe_loop_outside n (s + 1) (t + 1) m1 s (inl (omega arith))
              ∙ stored
              ∙ ap m (sym f0),
          λ q. nz (ap m (sym f0) ∙ q),
        )
        | suc j ↦ λ l.
            let (same, other) = eqs j (omega arith) in
            let old = kept j (omega arith) in (ap rest (to j) ∙ same ∙ old, λ q. other (old ∙ q))
      ],
      λ l. sym (kept k (omega arith)) ∙ cut (omega arith),
    )

safe_loop-Copied : (n s t : ℕ) (m : Bytes) → Apart n s t → Copied n s t m (safe_loop n s t m)
unfolding safe_loop
safe_loop-Copied zero s t m h =
    let e : s + 0 ≡ s = omega arith in
    (0, omega arith, rw e (ground arith), λ i l. absurd (omega arith), λ l. absurd (omega arith))
safe_loop-Copied (suc n) s t m h = elim (Bool-cases (m t == 0)) [
  | inl end ↦ rw end (safe_end n s t m (ground (arith, end)))
  | inr more ↦ rw more (
      safe_next n s t m h (ground (arith, more))
        (safe_loop-Copied n (s + 1) (t + 1) (put_byte s (m t) m) (ground (arith, h))))
]

-- `safestrcpy` with room for `n` bytes, from a source apart from them, makes a string of at most
-- `n - 1` bytes at `s`: the one at `t`, or its first `n - 1` bytes if it is longer. No byte outside
-- the `n` bytes changes.
pub safestrcpy_lem :
    (n s t : ℕ) (m : Bytes)
    → Apart (suc n) s t
    → Copied n s t m (safestrcpy (suc n) s t m)
      × ((a : ℕ) → (a < s) ⊎ (s + n < a) → safestrcpy (suc n) s t m a ≡ m a)
unfolding safestrcpy
safestrcpy_lem n s t m h = (safe_loop-Copied n s t m (ground (arith, h)), safe_loop_outside n s t m)
