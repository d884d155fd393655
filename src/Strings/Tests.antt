-- ===== src/Strings/Tests.antt =====
-- xv6/string.c on a small memory.
use laboratorio_valen_el_noo.Base.{
  ℕ, ◌+◌, ◌≤◌, ◌<◌, ◌≡◌, refl, inr, ◌⊎◌, arith, if◌then◌else◌, ◌==◌,
}
use laboratorio_valen_el_noo.Strings.{Bytes, copy_down, memmove, strncpy, safestrcpy}
use laboratorio_valen_el_noo.Strings.Move.{moved, memmove-moved}
use laboratorio_valen_el_noo.Strings.Copy.{Copied, field, strncpy_lem, safestrcpy_lem}

-- The string of the bytes 7 and 8 at 20; elsewhere a byte is its address.
abbrev text : Bytes
text a = if a == 20 then 7 else if a == 21 then 8 else if a == 22 then 0 else a

-- Four bytes, one further up.
shifted : memmove 51 50 4 text 54 ≡ 53
unfolding memmove copy_down
shifted = refl

memmove-moved_example : memmove 51 50 4 text 54 ≡ moved 4 51 50 text 54
memmove-moved_example = memmove-moved 51 50 4 text 54

strncpy_lem_example :
    ((i : ℕ) → i < 5 → strncpy 5 30 20 text (30 + i) ≡ field 20 text i)
    × ((a : ℕ) → (a < 30) ⊎ (30 + 5 ≤ a) → strncpy 5 30 20 text a ≡ text a)
strncpy_lem_example = strncpy_lem 5 30 20 text (inr (omega arith))

safestrcpy_lem_example :
    Copied 4 30 20 text (safestrcpy 5 30 20 text)
    × ((a : ℕ) → (a < 30) ⊎ (30 + 4 < a) → safestrcpy 5 30 20 text a ≡ text a)
safestrcpy_lem_example = safestrcpy_lem 4 30 20 text (inr (omega arith))
