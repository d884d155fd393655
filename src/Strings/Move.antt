-- ===== src/Strings/Move.antt =====
-- `memmove` of xv6/string.c, also between ranges that overlap.
use laboratorio_valen_el_noo.Base.{
  ℕ, zero, suc, ◌+◌, ◌-◌, ◌≤◌, ◌<◌, ◌≡◌, ◌⊎◌, inl, inr, refl, ap, ◌∙◌, ◌&&◌, ltb, leb,
  if◌then◌else◌, arith, Bool-cases,
}
use laboratorio_valen_el_noo.Strings.{Bytes, put_byte, copy_up, copy_down, memmove}

-- `n` bytes at `d` replaced by those at `s`.
abbrev pub moved : ℕ → ℕ → ℕ → Bytes → Bytes
moved n d s m a = if leb d a && ltb a (d + n) then m (s + (a - d)) else m a

copy_up-moved :
    (n d s : ℕ) (m : Bytes) (a : ℕ) → (d ≤ s) ⊎ (s + n ≤ d) → copy_up n d s m a ≡ moved n d s m a
unfolding copy_up
copy_up-moved zero d s m a h = ground arith
copy_up-moved (suc n) d s m a h =
    let rest = copy_up-moved n (d + 1) (s + 1) (put_byte d (m s) m) a (ground (arith, h)) in
    let index : d < a → m (s + 1 + (a - (d + 1))) ≡ m (s + (a - d)) = λ k. ap m (omega arith) in
    let first : a ≡ d → m (s + (a - d)) ≡ m s = λ k. ap m (omega arith) in
    ground (arith, rest, h, index, first)

copy_down-moved :
    (n d s e f : ℕ) (m : Bytes) (a : ℕ)
    → e ≡ d + n
    → f ≡ s + n
    → s < d
    → copy_down n e f m a ≡ moved n d s m a
unfolding copy_down
copy_down-moved zero d s e f m a p q h = ground arith
copy_down-moved (suc n) d s e f m a p q h =
    let rest =
      copy_down-moved n d s (e - 1) (f - 1) (put_byte (e - 1) (m (f - 1)) m) a (omega arith)
        (omega arith) h in
    let last : a ≡ d + n → m (s + (a - d)) ≡ m (f - 1) = λ k. ap m (omega arith) in
    ground (arith, rest, h, last)

-- After `memmove` the `n` bytes at `dst` are those that were at `src`, however the two ranges
-- overlap, and no other byte has changed.
pub memmove-moved :
    (dst src n : ℕ) (m : Bytes) (a : ℕ) → memmove dst src n m a ≡ moved n dst src m a
unfolding memmove
memmove-moved dst src n m a = elim (Bool-cases (ltb src dst && ltb dst (src + n))) [
  | inl over ↦
      ap (λ t. (if t then copy_down n (dst + n) (src + n) m else copy_up n dst src m) a) over
      ∙ copy_down-moved n dst src (dst + n) (src + n) m a refl refl (ground (arith, over))
  | inr apart ↦
      ap (λ t. (if t then copy_down n (dst + n) (src + n) m else copy_up n dst src m) a) apart
      ∙ copy_up-moved n dst src m a (ground (arith, apart))
]
