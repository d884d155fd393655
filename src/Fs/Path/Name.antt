-- ===== src/Fs/Path/Name.antt =====
-- `skipelem` of xv6/fs.c on the elements of a path, and the name that it leaves.
use laboratorio_valen_el_noo.Base.{
  ℕ, zero, suc, ◌+◌, ◌≤◌, ◌<◌, ◌≡◌, refl, sym, ap, ◌∙◌, ◌⊎◌, ◌↔◌, inl, inr, true, false, some, none,
  List, [], ◌∷◌, length, take, ◌==◌, leb, arith, Bool-cases,
}
use laboratorio_valen_el_noo.Strings.{Bytes, put_byte}
use laboratorio_valen_el_noo.Strings.Compare.{read_text}
use laboratorio_valen_el_noo.Fs.Path.{
  dirsiz, skip_slashes, element, after_element, move_text, set_name, take_element, skipelem,
}
use laboratorio_valen_el_noo.Fs.Path.Elements.{
  elements, elements_empty, IsText, ended, more, IsText-skip_slashes, IsText-element,
  elements-skip_slashes, elements-element, skip_slashes-IsClean, clean_end,
}

-- The bytes of a text from index `i` on.
data Holds (m : Bytes) : ℕ → List ℕ → Type 0 where
  nothing : {i : ℕ} → Holds m i []
  byte : {i c : ℕ} {t : List ℕ} → m i ≡ c → Holds m (i + 1) t → Holds m i (c ∷ t)

moved_outside :
    (t : List ℕ) (i : ℕ) (m : Bytes) (x : ℕ)
    → (x < i) ⊎ (i + length t ≤ x)
    → move_text t i m x ≡ m x
unfolding move_text
moved_outside [] i m x h = refl
moved_outside (c ∷ t) i m x h =
    moved_outside t (i + 1) (put_byte i c m) x (ground (arith, h)) ∙ ground (arith, h)

move_text-Holds : (t : List ℕ) (i : ℕ) (m : Bytes) → Holds (move_text t i m) i t
unfolding move_text
move_text-Holds [] i m = nothing
move_text-Holds (c ∷ t) i m =
    byte (moved_outside t (i + 1) (put_byte i c m) i (inl (omega arith)) ∙ ground arith)
      (move_text-Holds t (i + 1) (put_byte i c m))

Holds-put_byte :
    (t : List ℕ) (i d x : ℕ) (m : Bytes)
    → i + length t ≤ d
    → Holds m i t
    → Holds (put_byte d x m) i t
Holds-put_byte [] i d x m h nothing = nothing
Holds-put_byte (c ∷ t) i d x m h (byte e r) =
    byte (ground (arith, e, h)) (Holds-put_byte t (i + 1) d x m (omega (arith, h)) r)

read_text-Holds :
    (n i : ℕ) (t : List ℕ) (m : Bytes)
    → Holds m i t
    → IsText t
    → length t ≤ n
    → (length t < n → m (i + length t) ≡ 0)
    → read_text n i m ≡ t
unfolding read_text
read_text-Holds zero i [] m nothing h l e = refl
read_text-Holds zero i (c ∷ t) m r h l e = absurd (omega (arith, l))
read_text-Holds (suc n) i [] m nothing h l e =
    let z : m i ≡ 0 = ap m (omega arith) ∙ e (omega arith) in
    let b : (m i == 0) ≡ true = ground (arith, z) in rw (b) refl
read_text-Holds (suc n) i (c ∷ t) m (byte p r) (more nz h) l e =
    let b : (m i == 0) ≡ false = ground (arith, p, nz) in
    let rest =
      read_text-Holds n (i + 1) t m r h (omega (arith, l))
        (λ k. ap m (omega arith) ∙ e (omega (arith, k))) in
    rw (b, rest, p) refl

IsText-take : (n : ℕ) (t : List ℕ) → IsText t → IsText (take n t)
IsText-take zero t h = ended
IsText-take (suc n) [] h = h
IsText-take (suc n) (c ∷ t) (more nz h) = more nz (IsText-take n t h)

length-take_full : (n : ℕ) (t : List ℕ) → n ≤ length t → length (take n t) ≡ n
length-take_full zero t h = refl
length-take_full (suc n) [] h = absurd (omega (arith, h))
length-take_full (suc n) (c ∷ t) h = ap suc (length-take_full n t (omega (arith, h)))

take_short : (n : ℕ) (t : List ℕ) → length t ≤ n → take n t ≡ t
take_short zero [] h = refl
take_short zero (c ∷ t) h = absurd (omega (arith, h))
take_short (suc n) [] h = refl
take_short (suc n) (c ∷ t) h = ap (λ (r : List ℕ). c ∷ r) (take_short n t (omega (arith, h)))

set_long :
    (e : List ℕ) (m : Bytes)
    → leb dirsiz (length e) ≡ true
    → set_name e m ≡ move_text (take dirsiz e) 0 m
unfolding set_name
set_long e m h = rw (h) refl

set_short :
    (e : List ℕ) (m : Bytes)
    → leb dirsiz (length e) ≡ false
    → set_name e m ≡ put_byte (length e) 0 (move_text e 0 m)
unfolding set_name
set_short e m h = rw (h) refl

-- The name is the element's first 14 bytes, and the bytes after those are not written.
set_name-take :
    (e : List ℕ) (m : Bytes)
    → IsText e
    → (read_text dirsiz 0 (set_name e m) ≡ take dirsiz e)
      × ((x : ℕ) → dirsiz ≤ x → set_name e m x ≡ m x)
set_name-take e m h = elim (Bool-cases (leb dirsiz (length e))) [
  | inl long ↦
      let full : length (take dirsiz e) ≡ 14 = length-take_full dirsiz e (ground (arith, long)) in
      let same = set_long e m long in
      (
        ap (read_text dirsiz 0) same
            ∙ read_text-Holds dirsiz 0 (take dirsiz e) (move_text (take dirsiz e) 0 m)
                (move_text-Holds (take dirsiz e) 0 m) (IsText-take dirsiz e h) (omega (arith, full))
                (λ k. absurd (omega (arith, k, full))),
        λ x k.
            ap (λ (f : Bytes). f x) same
            ∙ moved_outside (take dirsiz e) 0 m x (inr (omega (arith, k, full))),
      )
  | inr short ↦
      let l : length e < 14 = ground (arith, short) in
      let same = set_short e m short in
      (
        ap (read_text dirsiz 0) same
            ∙ read_text-Holds dirsiz 0 e (put_byte (length e) 0 (move_text e 0 m))
                (Holds-put_byte e 0 (length e) 0 (move_text e 0 m) (omega arith)
                  (move_text-Holds e 0 m))
                h (omega (arith, l)) (λ k. ground arith)
            ∙ sym (take_short dirsiz e (omega (arith, l))),
        λ x k.
            ap (λ (f : Bytes). f x) same
            ∙ ground (arith, l, k, moved_outside e 0 m x (inr (omega (arith, l, k)))),
      )
]

-- The first element of a path is taken off it.
abbrev pub Takes : List ℕ → Bytes → Type 0
Takes path name =
    (e rest : List ℕ) × (m : Bytes) × (skipelem path name ≡ (some rest, m))
    × (elements path ≡ e ∷ elements rest)
    × (read_text dirsiz 0 m ≡ take dirsiz e)
    × ((rest ≡ []) ↔ (elements rest ≡ []))
    × ((x : ℕ) → dirsiz ≤ x → m x ≡ name x)

taken-Takes :
    (path : List ℕ) (name : Bytes) (c : ℕ) (s : List ℕ)
    → skip_slashes path ≡ c ∷ s
    → IsText (c ∷ s)
    → Takes path name
unfolding skipelem take_element
taken-Takes path name c s p h =
    let rest = skip_slashes (after_element (c ∷ s)) in
    let clean = skip_slashes-IsClean path c s p in
    let (text, kept) = set_name-take (element (c ∷ s)) name (IsText-element (c ∷ s) h) in
    (
      element (c ∷ s),
      rest,
      set_name (element (c ∷ s)) name,
      ap (λ (t : List ℕ). take_element t name) p,
      sym (elements-skip_slashes path) ∙ ap elements p ∙ elements-element c s clean,
      text,
      clean_end rest (skip_slashes-IsClean (after_element (c ∷ s))),
      kept,
    )

list_cases : (s : List ℕ) → (s ≡ []) ⊎ ((c : ℕ) × (t : List ℕ) × (s ≡ c ∷ t))
list_cases [] = inl refl
list_cases (c ∷ t) = inr (c, t, refl)

-- On a path without elements, one of slashes only, `skipelem` returns null and leaves the name as it is.
-- On any other it takes the first element off: what it returns has the other elements, and is empty exactly
-- if there are none; the name holds the first 14 bytes of the element, with a terminator where the element is
-- shorter, and nothing is written after those.
pub skipelem-elements :
    (path : List ℕ) (name : Bytes)
    → IsText path
    → ((elements path ≡ []) × (skipelem path name ≡ (none, name))) ⊎ Takes path name
unfolding skipelem take_element
skipelem-elements path name h = elim (list_cases (skip_slashes path)) [
  | inl e ↦ inl (
    sym (elements-skip_slashes path) ∙ ap elements e ∙ elements_empty,
    ap (λ (t : List ℕ). take_element t name) e,
  )
  | inr (c, s, e) ↦ inr (taken-Takes path name c s e (rw (sym e) (IsText-skip_slashes path h)))
]
