-- ===== src/Fs/Path/Elements.antt =====
-- The elements of a path, and the loops of `skipelem` of xv6/fs.c.
use laboratorio_valen_el_noo.Base.{
  ℕ, ◌≡◌, ◌≢◌, refl, sym, ap, ◌∙◌, ◌↔◌, inl, inr, true, false, List, [], ◌∷◌, length, ◌==◌,
  if◌then◌else◌, arith, Bool-cases, get_or,
}
use laboratorio_valen_el_noo.Fs.Path.{slash, skip_slashes, element, after_element}

join_first : ℕ → List (List ℕ) → List (List ℕ)
join_first c [] = (c ∷ []) ∷ []
join_first c (e ∷ es) = (c ∷ e) ∷ es

-- The parts between slashes, empty ones too.
split : List ℕ → List (List ℕ)
split [] = [] ∷ []
split (c ∷ t) = let rest = split t in if c == slash then [] ∷ rest else join_first c rest

not_empty : List (List ℕ) → List (List ℕ)
not_empty [] = []
not_empty ([] ∷ es) = not_empty es
not_empty ((c ∷ e) ∷ es) = (c ∷ e) ∷ not_empty es

-- The parts that are not empty.
pub elements : List ℕ → List (List ℕ)
elements t = not_empty (split t)

-- No byte is the terminator.
pub data IsText : List ℕ → Type 0 where
  ended : IsText []
  more : {c : ℕ} {t : List ℕ} → c ≢ 0 → IsText t → IsText (c ∷ t)

pub elements_empty : elements [] ≡ []
unfolding elements split not_empty
elements_empty = refl

split_slash : (c : ℕ) (t : List ℕ) → (c == slash) ≡ true → split (c ∷ t) ≡ [] ∷ split t
unfolding split
split_slash c t e = rw (e) refl

split_other : (c : ℕ) (t : List ℕ) → (c == slash) ≡ false → split (c ∷ t) ≡ join_first c (split t)
unfolding split
split_other c t e = rw (e) refl

skip_slash : (c : ℕ) (t : List ℕ) → (c == slash) ≡ true → skip_slashes (c ∷ t) ≡ skip_slashes t
unfolding skip_slashes
skip_slash c t e = rw (e) refl

skip_other : (c : ℕ) (t : List ℕ) → (c == slash) ≡ false → skip_slashes (c ∷ t) ≡ c ∷ t
unfolding skip_slashes
skip_other c t e = rw (e) refl

element_other : (c : ℕ) (t : List ℕ) → (c == slash) ≡ false → element (c ∷ t) ≡ c ∷ element t
unfolding element
element_other c t e = rw (e) refl

elements-slash : (c : ℕ) (t : List ℕ) → (c == slash) ≡ true → elements (c ∷ t) ≡ elements t
unfolding elements not_empty
elements-slash c t e = ap not_empty (split_slash c t e)

pub elements-skip_slashes : (t : List ℕ) → elements (skip_slashes t) ≡ elements t
unfolding skip_slashes
elements-skip_slashes [] = refl
elements-skip_slashes (c ∷ t) = elim (Bool-cases (c == slash)) [
  | inl e ↦ ap elements (skip_slash c t e) ∙ elements-skip_slashes t ∙ sym (elements-slash c t e)
  | inr e ↦ ap elements (skip_other c t e)
]

-- The first part is the element, and those after it are what follows the element.
abbrev Splits : List ℕ → Type 0
Splits t =
    (rest : List (List ℕ)) × (split t ≡ element t ∷ rest)
    × (not_empty rest ≡ elements (after_element t))

split_at_slash : (c : ℕ) (t : List ℕ) → (c == slash) ≡ true → Splits (c ∷ t)
unfolding element after_element not_empty elements
split_at_slash c t e = (
  split t,
  split_slash c t e ∙ ap (λ (x : List ℕ). x ∷ split t) (rw (e) refl),
  sym (elements-slash c t e) ∙ ap elements (rw (e) refl),
)

split_in_element : (c : ℕ) (t : List ℕ) → (c == slash) ≡ false → Splits t → Splits (c ∷ t)
unfolding join_first after_element
split_in_element c t e (rest, p, q) = (
  rest,
  split_other c t e
      ∙ ap (join_first c) p
      ∙ ap (λ (x : List ℕ). x ∷ rest) (sym (element_other c t e)),
  q ∙ ap elements (rw (e) refl),
)

split-Splits : (t : List ℕ) → Splits t
unfolding elements split element after_element not_empty
split-Splits [] = ([], refl, refl)
split-Splits (c ∷ t) = elim (Bool-cases (c == slash)) [
  | inl e ↦ split_at_slash c t e
  | inr e ↦ split_in_element c t e (split-Splits t)
]

pub elements-element :
    (c : ℕ) (t : List ℕ)
    → (c == slash) ≡ false
    → elements (c ∷ t) ≡ element (c ∷ t) ∷ elements (skip_slashes (after_element (c ∷ t)))
unfolding elements not_empty
elements-element c t e =
    let (rest, p, q) = split-Splits (c ∷ t) in
    let first = element_other c t e in
    ap not_empty (p ∙ ap (λ (x : List ℕ). x ∷ rest) first)
    ∙ ap (λ (es : List (List ℕ)). (c ∷ element t) ∷ es)
        (q ∙ sym (elements-skip_slashes (after_element (c ∷ t))))
    ∙ ap (λ (x : List ℕ). x ∷ elements (skip_slashes (after_element (c ∷ t)))) (sym first)

pub IsText-skip_slashes : (t : List ℕ) → IsText t → IsText (skip_slashes t)
unfolding skip_slashes
IsText-skip_slashes [] h = h
IsText-skip_slashes (c ∷ t) (more n h) = elim (Bool-cases (c == slash)) [
  | inl e ↦ rw (e) (IsText-skip_slashes t h)
  | inr e ↦ rw (e) (more n h)
]

pub IsText-element : (t : List ℕ) → IsText t → IsText (element t)
unfolding element
IsText-element [] h = h
IsText-element (c ∷ t) (more n h) = elim (Bool-cases (c == slash)) [
  | inl e ↦ rw (e) ended
  | inr e ↦ rw (e) (more n (IsText-element t h))
]

-- What `skip_slashes` returns has no slash in front.
abbrev pub IsClean : List ℕ → Type 0
IsClean t = (c : ℕ) (s : List ℕ) → t ≡ c ∷ s → (c == slash) ≡ false

pub skip_slashes-IsClean : (t : List ℕ) → IsClean (skip_slashes t)
unfolding skip_slashes
skip_slashes-IsClean [] c s e = absurd (omega (arith, ap length e))
skip_slashes-IsClean (x ∷ t) c s e = elim (Bool-cases (x == slash)) [
  | inl p ↦ skip_slashes-IsClean t c s (sym (skip_slash x t p) ∙ e)
  | inr p ↦
      let q : x ∷ t ≡ c ∷ s = sym (skip_other x t p) ∙ e in
      ap (λ (y : ℕ). y == slash) (sym (ap (λ l. get_or l 0 0) q)) ∙ p
]

pub clean_end : (t : List ℕ) → IsClean t → (t ≡ []) ↔ (elements t ≡ [])
unfolding elements split not_empty
clean_end [] h = (λ e. refl, λ e. refl)
clean_end (c ∷ t) h =
    let p = elements-element c t (h c t refl) in
    (λ e. absurd (omega (arith, ap length e)), λ e. absurd (omega (arith, ap length (sym p ∙ e))))
