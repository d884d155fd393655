-- ===== src/Fs/Guards.antt =====
-- What `readi` and `writei` of xv6/fs.c refuse.
use laboratorio_valen_el_noo.Base.{
  ℕ, ◌+◌, ◌-◌, ◌*◌, ◌≤◌, ◌<◌, ◌≡◌, ◌≢◌, refl, sym, ◌∙◌, ◌⊎◌, inl, inr, Bool, true, false, ◌||◌,
  ◌==◌, ltb, if◌then◌else◌, arith, Bool-cases,
}
use laboratorio_valen_el_noo.Strings.{Bytes}
use laboratorio_valen_el_noo.Fs.{Locked, maxfile, bsize}
use laboratorio_valen_el_noo.Fs.{
  out_of_fuel, io_failed, read_loop, readi, cut, data_loop, writei_data, grown, add, io_done, Io,
  t_dev, Result, ok, panic, ◌>>=◌,
}
use laboratorio_valen_el_noo.Base.{◌↔◌}

pub add_small : (a b : ℕ) → a + b < 4294967296 → add a b ≡ a + b
add_small a b h = omega arith

-- The guards of `writei`, passed.
pub data_passes :
    (present : ℕ → Bool) (src : Bytes) (off n : ℕ) (s : Locked)
    → s.ip.copy.type ≢ t_dev
    → off ≤ s.ip.copy.size
    → off + n ≤ maxfile * bsize
    → writei_data present src off n s
      ≡ (data_loop (n + 1) n src 0 off s >>= λ t. ok (io_done n (grown n (off + n) t)))
unfolding writei_data
data_passes present src off n s d h k =
    let e = add_small off n (omega arith) in
    let kind : (s.ip.copy.type == t_dev) ≡ false = ground (arith, d) in
    let first : (ltb s.ip.copy.size off || ltb (add off n) off) ≡ false = ground (arith, e, h) in
    let second : ltb (maxfile * bsize) (add off n) ≡ false = ground (arith, e, k) in
    rw (writei_data, kind, first, second) refl

-- The guards of `readi`, passed.
pub readi_passes :
    (present : ℕ → Bool) (dst : Bytes) (off n : ℕ) (s : Locked)
    → s.ip.copy.type ≢ t_dev
    → off ≤ s.ip.copy.size
    → off + n < 4294967296
    → readi present dst off n s ≡ (
        read_loop (cut s.ip.copy.size off n + 1) (cut s.ip.copy.size off n) dst 0 off s >>= λ r.
        ok (io_done (cut s.ip.copy.size off n) r))
unfolding readi
readi_passes present dst off n s d h k =
    let e = add_small off n k in
    let kind : (s.ip.copy.type == t_dev) ≡ false = ground (arith, d) in
    let first : (ltb s.ip.copy.size off || ltb (add off n) off) ≡ false = ground (arith, e, h) in
    rw (readi, kind, first) refl

-- The bytes that `readi` is to return: those before the end of the file.
abbrev pub readable : ℕ → ℕ → ℕ → ℕ
readable size off n = if ltb size (off + n) then size - off else n

pub cut_small : (size off n : ℕ) → off + n < 4294967296 → cut size off n ≡ readable size off n
unfolding cut
cut_small size off n h = let e = add_small off n h in ground (arith, e)

-- A call that runs its loop does not return -1.
pub loop_done :
    {A B : Type 0} (r : Result A) (f : A → Io B)
    → ((a : A) → f a ≢ io_failed)
    → (r >>= λ a. ok (f a)) ≢ ok io_failed
loop_done (ok a) f h e = h a (cc)
loop_done panic f h e = cc
loop_done out_of_fuel f h e = cc

guard_fails :
    (z off n : ℕ)
    → off < 4294967296
    → n < 4294967296
    → (ltb z off || ltb (add off n) off) ≡ true
    → (z < off) ⊎ (4294967296 ≤ off + n)
guard_fails z off n h k e = ground (arith, e)

guard_passes :
    (z off n : ℕ)
    → off < 4294967296
    → n < 4294967296
    → (ltb z off || ltb (add off n) off) ≡ false
    → (off ≤ z) × (off + n < 4294967296)
guard_passes z off n h k e = ground (arith, e)

-- The two calls without the log.
pub data_refused :
    (present : ℕ → Bool) (buf : Bytes) (off n : ℕ) (s : Locked)
    → s.ip.copy.type ≢ t_dev
    → off < 4294967296
    → n < 4294967296
    → ((readi present buf off n s ≡ ok io_failed)
        ↔ ((s.ip.copy.size < off) ⊎ (4294967296 ≤ off + n)))
      × ((writei_data present buf off n s ≡ ok io_failed)
          ↔ ((s.ip.copy.size < off) ⊎ (maxfile * bsize < off + n)))
unfolding readi writei_data
data_refused present buf off n s d h k =
    let kind : (s.ip.copy.type == t_dev) ≡ false = ground (arith, d) in
    elim (Bool-cases (ltb s.ip.copy.size off || ltb (add off n) off)) [
      | inl low ↦
          let wide = guard_fails s.ip.copy.size off n h k low in
          (
            (λ _. wide, λ _. rw (readi, kind, low) refl),
            (λ _. ground (arith, wide), λ _. rw (writei_data, kind, low) refl),
          )
      | inr fine ↦
          let (reach, fits) = guard_passes s.ip.copy.size off n h k fine in
          (
            (λ e. absurd (read_on fits reach e), λ c. absurd (ground (arith, c, reach, fits))),
            elim (Bool-cases (ltb (maxfile * bsize) (add off n))) [
              | inl large ↦
                  let beyond : maxfile * bsize < off + n =
                    let e = add_small off n fits in ground (arith, e, large) in
                  (λ _. inr beyond, λ _. rw (writei_data, kind, fine, large) refl)
              | inr small ↦
                  let within : off + n ≤ maxfile * bsize =
                    let e = add_small off n fits in ground (arith, e, small) in
                  (
                    λ e. absurd (write_on within reach e),
                    λ c. absurd (ground (arith, c, reach, within)),
                  )
            ],
          )
    ]
  where
    read_on : off + n < 4294967296 → off ≤ s.ip.copy.size → readi present buf off n s ≢ ok io_failed
    read_on fits reach e =
        loop_done _ (λ r. io_done (cut s.ip.copy.size off n) r) (λ a g. cc)
          (sym (readi_passes present buf off n s d reach fits) ∙ e)

    write_on :
        off + n ≤ maxfile * bsize
        → off ≤ s.ip.copy.size
        → writei_data present buf off n s ≢ ok io_failed
    write_on within reach e =
        loop_done _ (λ t. io_done n (grown n (off + n) t)) (λ a g. cc)
          (sym (data_passes present buf off n s d reach within) ∙ e)
