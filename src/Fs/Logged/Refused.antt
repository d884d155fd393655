-- ===== src/Fs/Logged/Refused.antt =====
-- What `readi` and `writei` of xv6/fs.c refuse, whatever the log.
use laboratorio_valen_el_noo.Base.{
  ℕ, ◌+◌, ◌*◌, ◌≤◌, ◌<◌, ◌≡◌, ◌≢◌, ◌⊎◌, ◌↔◌, refl, sym, ◌∙◌, inl, inr, Bool, false, ◌||◌, ltb, ◌==◌,
  arith, Bool-cases,
}
use laboratorio_valen_el_noo.Strings.{Bytes}
use laboratorio_valen_el_noo.Fs.{
  Locked, Result, ok, panic, out_of_fuel, ◌>>=◌, Io, io_done, io_failed, data_loop, grown, t_dev,
  maxfile, bsize, readi, writei_data, add,
}
use laboratorio_valen_el_noo.Fs.Guards.{loop_done, data_refused}
use laboratorio_valen_el_noo.Fs.Logged.{
  Layout, Journal, log_blocks, size_blocks, write_loop, writei,
}

loops_done :
    {A B C : Type 0} (r : Result A) (g : A → Result B) (f : A → B → Io C)
    → ((a : A) (b : B) → f a b ≢ io_failed)
    → (r >>= λ a. g a >>= λ b. ok (f a b)) ≢ ok io_failed
loops_done (ok a) g f h e = loop_done (g a) (f a) (h a) e
loops_done panic g f h e = cc
loops_done out_of_fuel g f h e = cc

same_refusal :
    (present : ℕ → Bool) (lay : Layout) (buf : Bytes) (off n : ℕ) (s : Locked) (j : Journal)
    → s.ip.copy.type ≢ t_dev
    → (writei present lay buf off n s j ≡ ok io_failed)
      ↔ (writei_data present buf off n s ≡ ok io_failed)
unfolding writei writei_data
same_refusal present lay buf off n s j d =
    let kind : (s.ip.copy.type == t_dev) ≡ false = ground (arith, d) in
    elim (Bool-cases (ltb s.ip.copy.size off || ltb (add off n) off)) [
      | inl low ↦ (λ _. rw (writei_data, kind, low) refl, λ _. rw (writei, kind, low) refl)
      | inr fine ↦ elim (Bool-cases (ltb (maxfile * bsize) (add off n))) [
        | inl large ↦ (
          λ _. rw (writei_data, kind, fine, large) refl,
          λ _. rw (writei, kind, fine, large) refl,
        )
        | inr small ↦
            let run : writei present lay buf off n s j ≡ (
                write_loop lay (n + 1) n buf 0 off s j >>= λ r.
                log_blocks (size_blocks lay n (off + n) r.0) r.1 >>= λ k.
                ok (io_done n (grown n (off + n) r.0, k))) =
              rw (writei, kind, fine, small) refl in
            let plain : writei_data present buf off n s
                ≡ (data_loop (n + 1) n buf 0 off s >>= λ t. ok (io_done n (grown n (off + n) t))) =
              rw (writei_data, kind, fine, small) refl in
            (
              λ e. absurd (
                  loops_done (write_loop lay (n + 1) n buf 0 off s j)
                    (λ (x : Locked × Journal). log_blocks (size_blocks lay n (off + n) x.0) x.1)
                    (λ (r : Locked × Journal) k. io_done n (grown n (off + n) r.0, k)) (λ a b g. cc)
                    (sym run ∙ e)),
              λ e. absurd (
                  loop_done (data_loop (n + 1) n buf 0 off s) (λ t. io_done n (grown n (off + n) t))
                    (λ a g. cc) (sym plain ∙ e)),
            )
      ]
    ]

-- On a file that is not a device, `readi` returns -1 exactly if the range starts after the end of the
-- file or `off + n` is not below 2 ^ 32, and `writei` exactly if it starts after the end of the file
-- or ends after MAXFILE blocks.
pub io_refused :
    (present : ℕ → Bool) (lay : Layout) (buf : Bytes) (off n : ℕ) (s : Locked) (j : Journal)
    → s.ip.copy.type ≢ t_dev
    → off < 4294967296
    → n < 4294967296
    → ((readi present buf off n s ≡ ok io_failed)
        ↔ ((s.ip.copy.size < off) ⊎ (4294967296 ≤ off + n)))
      × ((writei present lay buf off n s j ≡ ok io_failed)
          ↔ ((s.ip.copy.size < off) ⊎ (maxfile * bsize < off + n)))
io_refused present lay buf off n s j d h k =
    let (reads, (to, from)) = data_refused present buf off n s d h k in
    let (down, up) = same_refusal present lay buf off n s j d in
    (reads, ((λ e. to (down e)), (λ c. up (from c))))
