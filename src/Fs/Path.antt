-- ===== src/Fs/Path.antt =====
-- `skipelem` of xv6/fs.c. A path is its bytes up to the terminator, and a pointer into it the text from
-- there on: at the end C reads the terminator 0. The name is an object of 14 bytes apart from the path.
pub mod Elements
pub mod Name
use laboratorio_valen_el_noo.Base.{
  ℕ, ◌+◌, Option, none, some, List, [], ◌∷◌, length, take, ◌==◌, leb, if◌then◌else◌,
}
use laboratorio_valen_el_noo.Strings.{Bytes, put_byte}

abbrev pub slash : ℕ
slash = 47

abbrev pub dirsiz : ℕ
dirsiz = 14

pub skip_slashes : List ℕ → List ℕ
skip_slashes [] = []
skip_slashes (c ∷ t) = let rest = skip_slashes t in if c == slash then rest else c ∷ t

-- The bytes up to the next slash, and the text from there on.
pub element : List ℕ → List ℕ
element [] = []
element (c ∷ t) = let rest = element t in if c == slash then [] else c ∷ rest

pub after_element : List ℕ → List ℕ
after_element [] = []
after_element (c ∷ t) = let rest = after_element t in if c == slash then c ∷ t else rest

-- `memmove` of a text to index `i` of the name.
pub move_text : List ℕ → ℕ → Bytes → Bytes
move_text [] i m = m
move_text (c ∷ t) i m = move_text t (i + 1) (put_byte i c m)

pub set_name : List ℕ → Bytes → Bytes
set_name e m =
    if leb dirsiz (length e)
    then move_text (take dirsiz e) 0 m
    else put_byte (length e) 0 (move_text e 0 m)

-- After the first loop.
pub take_element : List ℕ → Bytes → Option (List ℕ) × Bytes
take_element [] name = (none, name)
take_element (c ∷ s) name =
    (some (skip_slashes (after_element (c ∷ s))), set_name (element (c ∷ s)) name)

pub skipelem : List ℕ → Bytes → Option (List ℕ) × Bytes
skipelem path name = take_element (skip_slashes path) name
