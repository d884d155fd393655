-- ===== src/Log/Install.antt =====
-- What the loops of `install_trans` and `write_log` (xv6/log.c) do to disk and cache.
use laboratorio_valen_el_noo.Base.{
  ℕ, zero, suc, ◌+◌, ◌-◌, ◌≤◌, ◌<◌, ◌≡◌, refl, sym, ap, ◌∙◌, Bool, true, false, ◌||◌, ◌⊎◌, inl, inr,
  List, [], ◌∷◌, ltb, ◌==◌, if◌then◌else◌, length, arith, Bool-cases,
}
use laboratorio_valen_el_noo.Log.{
  Block, Dev, update, bwrite, bwrite_at, fill, install_from, write_log_from, mem,
}

-- A block outside the log that starts at `s` and has `n` blocks behind its header.
abbrev pub is_home : ℕ → ℕ → ℕ → Bool
is_home s n b = ltb b s || ltb (s + n) b

abbrev pub AllHome : ℕ → ℕ → List ℕ → Type 0
AllHome s n [] = Unit {0}
AllHome s n (b ∷ bs) = (is_home s n b ≡ true) × AllHome s n bs

-- Log block `s + i` holds what block `bs[i]` is to become.
abbrev pub Logged : (ℕ → Block) → ℕ → List ℕ → (ℕ → Block) → Type 0
Logged target s [] f = Unit {0}
Logged target s (b ∷ bs) f = (f s ≡ target b) × Logged target (suc s) bs f

pub Logged-ext :
    (target f g : ℕ → Block) (s : ℕ) (bs : List ℕ)
    → ((x : ℕ) → s ≤ x → x < s + length bs → g x ≡ f x)
    → Logged target s bs f
    → Logged target s bs g
Logged-ext target f g s [] e h = tt
Logged-ext target f g s (b ∷ bs) e h = (
  e s (omega arith) (omega arith) ∙ h.0,
  Logged-ext target f g (suc s) bs (λ x p q. e x (omega arith) (omega arith)) h.1,
)

-- A block write, whether the power lasts or not.
pub bwrite-fill_cache :
    (b : ℕ) (v : Block) (d : Dev) → (bwrite b (fill b v d)).cache ≡ update d.cache b v
unfolding bwrite fill
bwrite-fill_cache b v d = go d.power
  where
    go :
        (k : ℕ)
        → (bwrite_at k b (record d { cache = update d.cache b v })).cache ≡ update d.cache b v
    go zero = refl
    go (suc k) = refl

pub bwrite-fill_disk :
    (b : ℕ) (v : Block) (d : Dev) (x : ℕ)
    → (bwrite b (fill b v d)).disk x ≡ (if ltb 0 d.power then update d.disk b v x else d.disk x)
unfolding bwrite fill
bwrite-fill_disk b v d x = go d.power
  where
    go :
        (k : ℕ)
        → (bwrite_at k b (record d { cache = update d.cache b v })).disk x
          ≡ (if ltb 0 k then update d.disk b v x else d.disk x)
    go zero = refl
    go (suc k) = ground arith

pub bwrite-fill_power : (b : ℕ) (v : Block) (d : Dev) → (bwrite b (fill b v d)).power ≡ d.power - 1
unfolding bwrite fill
bwrite-fill_power b v d = go d.power refl
  where
    go :
        (k : ℕ)
        → d.power ≡ k
        → (bwrite_at k b (record d { cache = update d.cache b v })).power ≡ k - 1
    go zero e = omega (arith, e)
    go (suc k) e = omega arith

Logged-target :
    (t u f : ℕ → Block) (lo n s : ℕ) (bs : List ℕ)
    → ((x : ℕ) → is_home lo n x ≡ true → u x ≡ t x)
    → AllHome lo n bs
    → Logged t s bs f
    → Logged u s bs f
Logged-target t u f lo n s [] e a h = tt
Logged-target t u f lo n s (b ∷ bs) e a h =
    (h.0 ∙ sym (e b a.0), Logged-target t u f lo n (suc s) bs e a.1 h.1)

outside_suc : (s n x : ℕ) → (x < s) ⊎ (s + suc n ≤ x) → (x < suc s) ⊎ (suc s + n ≤ x)
outside_suc s n x (inl h) = inl (omega arith)
outside_suc s n x (inr h) = inr (omega arith)

-- What writing the log from block `s` on does.
pub record LogWritten (s : ℕ) (bs : List ℕ) (d d' : Dev) : Type 0 where
  pub cache_same : (x : ℕ) → (x < s) ⊎ (s + length bs ≤ x) → d'.cache x ≡ d.cache x
  pub disk_same : (x : ℕ) → (x < s) ⊎ (s + length bs ≤ x) → d'.disk x ≡ d.disk x
  pub in_cache : Logged d.cache s bs d'.cache
  pub on_disk : length bs ≤ d.power → Logged d.cache s bs d'.disk
  pub power : d'.power ≡ d.power - length bs

pub write_log_from-LogWritten :
    (lo n s : ℕ) (bs : List ℕ) (d : Dev)
    → lo < s
    → s + length bs ≤ suc (lo + n)
    → AllHome lo n bs
    → LogWritten s bs d (write_log_from s bs d)
unfolding write_log_from
write_log_from-LogWritten lo n s [] d lt le a = record {
  cache_same = λ x h. refl;
  disk_same = λ x h. refl;
  in_cache = tt;
  on_disk = λ h. tt;
  power = omega arith;
}
write_log_from-LogWritten lo n s (b ∷ bs) d lt le a =
    let d1 : Dev = bwrite s (fill s (d.cache b) d) in
    let c : d1.cache ≡ update d.cache s (d.cache b) = bwrite-fill_cache s (d.cache b) d in
    let p : d1.power ≡ d.power - 1 = bwrite-fill_power s (d.cache b) d in
    let w = write_log_from-LogWritten lo n (suc s) bs d1 (omega arith) (omega arith) a.1 in
    let home_same : (x : ℕ) → is_home lo n x ≡ true → d.cache x ≡ d1.cache x =
      λ x h. rw c (ground (arith, h)) in
    record {
      cache_same = λ x h. w.cache_same x (outside_suc s (length bs) x h) ∙ rw c (ground arith);
      disk_same = λ x h.
          w.disk_same x (outside_suc s (length bs) x h)
          ∙ bwrite-fill_disk s (d.cache b) d x
          ∙ ground arith;
      in_cache = (
        w.cache_same s (inl (omega arith)) ∙ rw c (ground arith),
        Logged-target d1.cache d.cache _ lo n (suc s) bs home_same a.1 w.in_cache,
      );
      on_disk = λ h. (
        w.disk_same s (inl (omega arith)) ∙ bwrite-fill_disk s (d.cache b) d s ∙ ground arith,
        Logged-target d1.cache d.cache _ lo n (suc s) bs home_same a.1
            (w.on_disk (omega (arith, p))),
      );
      power = omega (arith, w.power, p);
    }

-- What installing the blocks `bs` does to the disk, when the power may fail on the way.
pub record Installed (target : ℕ → Block) (bs : List ℕ) (d d' : Dev) : Type 0 where
  pub either : (x : ℕ) → (d'.disk x ≡ d.disk x) ⊎ ((mem x bs ≡ true) × (d'.disk x ≡ target x))
  pub done : length bs ≤ d.power → (x : ℕ) → mem x bs ≡ true → d'.disk x ≡ target x
  pub power : d'.power ≡ d.power - length bs

pub Installed-outside :
    {target : ℕ → Block} {bs : List ℕ} {d d' : Dev}
    → Installed target bs d d'
    → (x : ℕ) → mem x bs ≡ false
    → d'.disk x ≡ d.disk x
Installed-outside i x h = elim (i.either x) [ inl e ↦ e | inr e ↦ absurd (ground (arith, e.0, h)) ]

-- The first block that is installed.
first_either :
    (target : ℕ → Block) (b s : ℕ) (d : Dev) (x : ℕ)
    → d.cache s ≡ target b
    → ((bwrite b (fill b (d.cache s) d)).disk x ≡ d.disk x)
      ⊎ (((b == x) ≡ true) × ((bwrite b (fill b (d.cache s) d)).disk x ≡ target x))
first_either target b s d x g = elim (Bool-cases (b == x)) [
  | inr e ↦ inl (bwrite-fill_disk b (d.cache s) d x ∙ ground arith)
  | inl e ↦
      let same : b ≡ x = ground arith in
      elim (Bool-cases (ltb 0 d.power)) [
        | inl w ↦
            inr (e, bwrite-fill_disk b (d.cache s) d x ∙ rw w (ground (arith, g, ap target same)))
        | inr w ↦ inl (bwrite-fill_disk b (d.cache s) d x ∙ rw w refl)
      ]
]

first_done :
    (target : ℕ → Block) (b s : ℕ) (d : Dev) (x : ℕ)
    → d.cache s ≡ target b
    → 0 < d.power
    → (b == x) ≡ true
    → (bwrite b (fill b (d.cache s) d)).disk x ≡ target x
first_done target b s d x g w e =
    let same : b ≡ x = ground arith in
    bwrite-fill_disk b (d.cache s) d x ∙ ground (arith, g, ap target same)

pub install_from-Installed :
    (target : ℕ → Block) (lo n s : ℕ) (bs : List ℕ) (d : Dev)
    → lo < s
    → s + length bs ≤ suc (lo + n)
    → AllHome lo n bs
    → Logged target s bs d.cache
    → Installed target bs d (install_from s bs d)
unfolding install_from mem
install_from-Installed target lo n s [] d lt le a g = record {
  either = λ x. inl refl;
  done = λ h x e. cc;
  power = omega arith;
}
install_from-Installed target lo n s (b ∷ bs) d lt le a g =
    let d1 : Dev = bwrite b (fill b (d.cache s) d) in
    let c : d1.cache ≡ update d.cache b (d.cache s) = bwrite-fill_cache b (d.cache s) d in
    let p : d1.power ≡ d.power - 1 = bwrite-fill_power b (d.cache s) d in
    let keep : (x : ℕ) → suc s ≤ x → x < suc s + length bs → d1.cache x ≡ d.cache x =
      λ x h1 h2. rw c (ground (arith, a.0)) in
    let i =
      install_from-Installed target lo n (suc s) bs d1 (omega arith) (omega arith) a.1
        (Logged-ext target d.cache d1.cache (suc s) bs keep g.1) in
    record {
      either = λ x. elim (i.either x) [
        | inr f ↦ inr (ground (arith, f.0), f.1)
        | inl e ↦ elim (first_either target b s d x g.0) [
          | inl f ↦ inl (e ∙ f)
          | inr f ↦ inr (ground (arith, f.0), e ∙ f.1)
        ]
      ];
      done = λ h x e. elim (Bool-cases (mem x bs)) [
        | inl t ↦ i.done (omega (arith, p)) x t
        | inr t ↦
            Installed-outside i x t
            ∙ first_done target b s d x g.0 (omega arith) (ground (arith, e, t))
      ];
      power = omega (arith, i.power, p);
    }
