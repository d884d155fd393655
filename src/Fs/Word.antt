-- ===== src/Fs/Word.antt =====
-- The words of a block: uint in four bytes (`a[bn]` in `bmap` of xv6/fs.c).
use laboratorio_valen_el_noo.Base.{ℕ, ◌+◌, ◌*◌, ◌/◌, ◌%◌, ◌<◌, ◌≡◌, ◌≢◌, refl, ap, arith}
use laboratorio_valen_el_noo.Strings.{Bytes}
use laboratorio_valen_el_noo.Fs.{get_word, put_word, digit}

digits :
    (v : ℕ)
    → v < 4294967296
    → digit 0 v + 256 * digit 1 v + 65536 * digit 2 v + 16777216 * digit 3 v ≡ v
unfolding digit
digits v h = omega arith

put_word_here : (k v r x : ℕ) (a : Bytes) → x ≡ 4 * k + r → r < 4 → put_word k v a x ≡ digit r v
unfolding put_word
put_word_here k v r x a e h =
    let q : x / 4 ≡ k = omega arith in
    let m : x % 4 ≡ r = omega arith in ground (arith, q, ap (λ i. digit i v) m)

put_word_there :
    (k j v r x : ℕ) (a : Bytes) → x ≡ 4 * j + r → r < 4 → k ≢ j → put_word k v a x ≡ a x
unfolding put_word
put_word_there k j v r x a e h ne = let q : x / 4 ≡ j = omega arith in ground (arith, q, ne)

pub get_word-put_word : (k v : ℕ) (a : Bytes) → v < 4294967296 → get_word (put_word k v a) k ≡ v
unfolding get_word
get_word-put_word k v a h = omega (
  arith,
  digits v h,
  put_word_here k v 0 (4 * k) a (omega arith) (omega arith),
  put_word_here k v 1 (4 * k + 1) a refl (omega arith),
  put_word_here k v 2 (4 * k + 2) a refl (omega arith),
  put_word_here k v 3 (4 * k + 3) a refl (omega arith),
)

pub get_word-put_word_ne :
    (k j v : ℕ) (a : Bytes) → k ≢ j → get_word (put_word k v a) j ≡ get_word a j
unfolding get_word
get_word-put_word_ne k j v a ne = omega (
  arith,
  put_word_there k j v 0 (4 * j) a (omega arith) (omega arith) ne,
  put_word_there k j v 1 (4 * j + 1) a refl (omega arith) ne,
  put_word_there k j v 2 (4 * j + 2) a refl (omega arith) ne,
  put_word_there k j v 3 (4 * j + 3) a refl (omega arith) ne,
)
