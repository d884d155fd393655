-- ===== src/Strings.antt =====
-- xv6/string.c: memory moves and strings, on a memory of bytes by address. The objects that the
-- pointers point to end below 2 ^ 32, so that no address wraps.
pub mod Move
pub mod Copy
pub mod Compare
mod Tests
use laboratorio_valen_el_noo.Base.{
  ℤ, pos, negsuc, leb, ℕ, zero, suc, ◌+◌, ◌-◌, ◌&&◌, ltb, ◌==◌, if◌then◌else◌,
}

abbrev pub Bytes : Type 0
Bytes = ℕ → ℕ

-- `*d = x`
abbrev pub put_byte : ℕ → ℕ → Bytes → Bytes
put_byte d x m a = if a == d then x else m a

-- The loops of `memmove`, upwards and downwards.
pub copy_up : ℕ → ℕ → ℕ → Bytes → Bytes
copy_up zero d s m = m
copy_up (suc n) d s m = copy_up n (d + 1) (s + 1) (put_byte d (m s) m)

pub copy_down : ℕ → ℕ → ℕ → Bytes → Bytes
copy_down zero d s m = m
copy_down (suc n) d s m = copy_down n (d - 1) (s - 1) (put_byte (d - 1) (m (s - 1)) m)

pub memmove : ℕ → ℕ → ℕ → Bytes → Bytes
memmove dst src n m =
    if ltb src dst && ltb dst (src + n)
    then copy_down n (dst + n) (src + n) m
    else copy_up n dst src m

-- The loops of `strncpy`; a negative `n` is no round, as 0 is.
pub zero_fill : ℕ → ℕ → Bytes → Bytes
zero_fill zero s m = m
zero_fill (suc n) s m = zero_fill n (s + 1) (put_byte s 0 m)

pub strncpy : ℕ → ℕ → ℕ → Bytes → Bytes
strncpy zero s t m = m
strncpy (suc n) s t m =
    let padded = zero_fill n (s + 1) (put_byte s (m t) m) in
    let copied = strncpy n (s + 1) (t + 1) (put_byte s (m t) m) in
    if m t == 0 then padded else copied

-- The loop of `safestrcpy` with `n` rounds at most, and the terminator.
pub safe_loop : ℕ → ℕ → ℕ → Bytes → Bytes
safe_loop zero s t m = put_byte s 0 m
safe_loop (suc n) s t m =
    let closed = put_byte (s + 1) 0 (put_byte s (m t) m) in
    let copied = safe_loop n (s + 1) (t + 1) (put_byte s (m t) m) in
    if m t == 0 then closed else copied

pub safestrcpy : ℕ → ℕ → ℕ → Bytes → Bytes
safestrcpy zero s t m = m
safestrcpy (suc n) s t m = safe_loop n s t m

-- `strncmp` of the bytes from `i` in `p` and those from `j` in `q`, two objects or one memory.
pub byte_diff : ℕ → ℕ → ℤ
byte_diff a b = if leb b a then pos (a - b) else negsuc (b - a - 1)

pub strncmp : ℕ → ℕ → Bytes → ℕ → Bytes → ℤ
strncmp zero i p j q = pos 0
strncmp (suc n) i p j q =
    let rest = strncmp n (i + 1) p (j + 1) q in
    if p i == 0 then byte_diff (p i) (q j) else if p i == q j then rest else byte_diff (p i) (q j)
