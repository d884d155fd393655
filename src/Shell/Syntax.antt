-- ===== src/Shell/Syntax.antt =====
-- Words and white space of lab-02/sh.c.
use laboratorio_valen_el_noo.Base.{
  ℕ, suc, ◌≤◌, ◌<◌, ◌≡◌, ◌≢◌, refl, ap, ◌⊎◌, inl, inr, Bool, true, false, ◌&&◌, ◌||◌, not, List, [],
  ◌∷◌, ◌++◌, ltb, ◌==◌, length, arith, Bool-cases,
}
use laboratorio_valen_el_noo.Shell.{
  Text, Cmd, exec_cmd, redir_cmd, pipe_cmd, Redir, is_white, ends_word, skip_white, word,
  after_word, Token, token_at, gettoken, strchr, symbols, maxargs,
}

-- A text without white space, symbols and terminators; a word is one that is not empty.
abbrev pub plain : Text → Bool
plain [] = true
plain (c ∷ s) = not (ends_word c) && plain s

abbrev pub is_word : Text → Bool
is_word [] = false
is_word (c ∷ s) = plain (c ∷ s)

abbrev pub all_words : List Text → Bool
all_words [] = true
all_words (w ∷ ws) = is_word w && all_words ws

abbrev pub is_redir : ℕ → Bool
is_redir c = c == b'<' || c == b'>'

abbrev pub good_redirs : List Redir → Bool
good_redirs [] = true
good_redirs ((c, f) ∷ rs) = (is_redir c && is_word f) && good_redirs rs

-- What a parsed command looks like: fewer than MAXARGS arguments, all words, and a word as file.
abbrev pub well_formed : Cmd → Bool
well_formed (exec_cmd args) = ltb (length args) maxargs && all_words args
well_formed (redir_cmd c file mode fd) = is_word file && well_formed c
well_formed (pipe_cmd l r) = well_formed l && well_formed r

-- A text at which a word stops.
abbrev pub stops : Text → Bool
stops [] = true
stops (c ∷ s) = ends_word c

pub skip_white_idem : (s : Text) → skip_white (skip_white s) ≡ skip_white s
unfolding skip_white
skip_white_idem [] = refl
skip_white_idem (c ∷ s) = elim (Bool-cases (is_white c)) [
  | inl w ↦ rw w (skip_white_idem s)
  | inr n ↦ rw n (rw (n, skip_white) refl)
]

pub length-skip_white : (s : Text) → length (skip_white s) ≤ length s
unfolding skip_white
length-skip_white [] = omega arith
length-skip_white (c ∷ s) = ground (arith, length-skip_white s)

pub skip_white-head : (s t : Text) (c : ℕ) → skip_white s ≡ c ∷ t → is_white c ≡ false
unfolding skip_white
skip_white-head [] t c h = cc
skip_white-head (x ∷ s) t c h = elim (Bool-cases (is_white x)) [
  | inl w ↦ skip_white-head s t c (ground (arith, h, w))
  | inr n ↦ ground (arith, h, n)
]

pub length-after_word : (s : Text) → length (after_word s) ≤ length s
unfolding after_word
length-after_word [] = omega arith
length-after_word (c ∷ s) = ground (arith, length-after_word s)

pub plain-word : (s : Text) → plain (word s) ≡ true
unfolding word
plain-word [] = refl
plain-word (c ∷ s) = elim (Bool-cases (ends_word c)) [
  | inl e ↦ rw e refl
  | inr n ↦ rw n (rw n (plain-word s))
]

pub word-append : (w t : Text) → plain w ≡ true → stops t ≡ true → word (w ++ t) ≡ w
unfolding word
word-append [] [] h k = refl
word-append [] (c ∷ t) h k = rw k refl
word-append (c ∷ w) t h k = ground (arith, h, word-append w t (ground (arith, h)) k)

pub after_word-append : (w t : Text) → plain w ≡ true → stops t ≡ true → after_word (w ++ t) ≡ t
unfolding after_word
after_word-append [] [] h k = refl
after_word-append [] (c ∷ t) h k = rw k refl
after_word-append (c ∷ w) t h k = ground (arith, h, after_word-append w t (ground (arith, h)) k)

-- What `gettoken` finds at `s`: the end, a symbol, or a word; it goes on in the last two cases.
abbrev pub Reads : Text → Token → Type 0
Reads s t =
    ((t.tok ≡ 0) × (skip_white s ≡ []) × (t.rest ≡ []))
    ⊎ (((strchr symbols t.tok ≡ true) × (t.tok ≢ 0) × (length t.rest < length s))
        ⊎ ((t.tok ≡ b'a') × (is_word t.text ≡ true) × (length t.rest < length s)))

abbrev pub is_symbol : ℕ → Bool
is_symbol c = c == b'|' || (c == b'<' || c == b'>')

pub token_symbol :
    (c : ℕ) (u : Text)
    → is_symbol c ≡ true
    → token_at (c ∷ u) ≡ record { tok = c; text = c ∷ []; rest = skip_white u }
unfolding token_at
token_symbol c u h = rw h refl

pub token_word :
    (c : ℕ) (u : Text)
    → ends_word c ≡ false
    → token_at (c ∷ u)
      ≡ record { tok = b'a'; text = word (c ∷ u); rest = skip_white (after_word (c ∷ u)) }
unfolding token_at
token_word c u h = let e : is_symbol c ≡ false = ground (arith, h) in rw e refl

token_at-Reads : (s u : Text) → skip_white s ≡ u → Reads s (token_at u)
unfolding token_at word after_word
token_at-Reads s [] e = inl (refl, e, refl)
token_at-Reads s (c ∷ u) e =
    let black : is_white c ≡ false = skip_white-head s u c e in
    let len : suc (length u) ≤ length s = omega (arith, length-skip_white s, ap length e) in
    elim (Bool-cases (is_symbol c)) [
      | inl symbol ↦ rw (token_symbol c u symbol) (
          inr (
            inl (
              ground (arith, symbol),
              ground (arith, symbol),
              omega (arith, len, length-skip_white u),
            )))
      | inr other ↦
          let n : ends_word c ≡ false = ground (arith, black, other) in
          let text : word (c ∷ u) ≡ c ∷ word u = rw n refl in
          let rest : after_word (c ∷ u) ≡ after_word u = rw n refl in
          rw (token_word c u n, text, rest)
            (inr (
              inr (
                refl,
                ground (arith, n, plain-word u),
                omega (arith, len, length-skip_white (after_word u), length-after_word u),
              )))
    ]

pub gettoken-Reads : (s : Text) → Reads s (gettoken s)
unfolding gettoken
gettoken-Reads s = token_at-Reads s (skip_white s) refl
