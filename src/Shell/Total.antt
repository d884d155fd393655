-- ===== src/Shell/Total.antt =====
-- The parser of lab-02/sh.c always ends, and what it returns is well formed.

pub mod Line
use laboratorio_valen_el_noo.Base.{
  ℕ, zero, suc, ◌+◌, ◌≤◌, ◌<◌, ◌≡◌, ◌≢◌, refl, ap, ◌∙◌, ◌⊎◌, inl, inr, true, List, [], ◌∷◌, ◌++◌,
  leb, ◌==◌, length, length-append, arith, Bool-cases,
}
use laboratorio_valen_el_noo.Shell.{
  redirs_at, exec_at, Text, Redir, leftovers, Result, done, exits, out_of_fuel, ◌>>=◌, skip_white,
  token_at, gettoken, maxargs, peek_at, parseredirs, exec_loop,
}
use laboratorio_valen_el_noo.Shell.Syntax.{
  is_word, all_words, is_redir, good_redirs, skip_white_idem, length-skip_white, gettoken-Reads,
  is_symbol, token_symbol,
}

-- A result that is not for want of fuel, nor for text left over; a value has `P`.
abbrev pub Ensures : {A : Type 0} → Result A → (A → Type 0) → Type 0
Ensures (done a) P = P a
Ensures (exits e) P = e ≢ leftovers
Ensures out_of_fuel P = ⊥

pub bind-Ensures :
    {A B : Type 0} (m : Result A) (f : A → Result B) (P : A → Type 0) (Q : B → Type 0)
    → Ensures m P
    → ((a : A) → P a → Ensures (f a) Q)
    → Ensures (m >>= f) Q
bind-Ensures (done a) f P Q h k = k a h
bind-Ensures (exits e) f P Q h k = h
bind-Ensures out_of_fuel f P Q h k = absurd h

weaken-Ensures :
    {A : Type 0} (m : Result A) (P Q : A → Type 0)
    → Ensures m P
    → ((a : A) → P a → Q a)
    → Ensures m Q
weaken-Ensures (done a) P Q h k = k a h
weaken-Ensures (exits e) P Q h k = h
weaken-Ensures out_of_fuel P Q h k = h

-- At `<` or `>` the next token is that symbol.
redir_token :
    (s : Text)
    → skip_white s ≡ s
    → peek_at (b'<' ∷ b'>' ∷ []) s ≡ true
    → (is_redir (gettoken s).tok ≡ true) × (length (gettoken s).rest < length s)
unfolding peek_at gettoken
redir_token [] e h = absurd (ground (arith, h))
redir_token (c ∷ u) e h =
    let t : is_symbol c ≡ true = ground (arith, h) in
    let at = ap token_at e ∙ token_symbol c u t in
    rw at (ground (arith, h), omega (arith, length-skip_white u))

good_redirs-append :
    (rs : List Redir) (c : ℕ) (f : Text)
    → good_redirs rs ≡ true
    → is_redir c ≡ true
    → is_word f ≡ true
    → good_redirs (rs ++ ((c, f) ∷ [])) ≡ true
good_redirs-append [] c f h k l = rw (k, l) refl
good_redirs-append ((d, g) ∷ rs) c f h k l =
    ground (arith, h, good_redirs-append rs c f (ground (arith, h)) k l)

all_words-append :
    (ws : List Text) (w : Text)
    → all_words ws ≡ true
    → is_word w ≡ true
    → all_words (ws ++ (w ∷ [])) ≡ true
all_words-append [] w h k = rw k refl
all_words-append (v ∷ ws) w h k = ground (arith, h, all_words-append ws w (ground (arith, h)) k)

abbrev pub RedirsOf : Text → List Redir × Text → Type 0
RedirsOf s p = (good_redirs p.0 ≡ true) × (length p.1 ≤ length s)

-- One redirection is read, or the program exits.
redir_word :
    (s : Text)
    → (gettoken s).tok ≡ b'a'
    → (is_word (gettoken s).text ≡ true) × (length (gettoken s).rest < length s)
redir_word s h = elim (gettoken-Reads s) [
  | inl (z, e, r) ↦ absurd (omega (arith, h, z))
  | inr (inl (e, n, l)) ↦ absurd (ground (arith, h, e, n))
  | inr (inr (e, w, l)) ↦ (w, l)
]

pub parseredirs-RedirsOf :
    (n : ℕ) (rs : List Redir) (s : Text)
    → length s < n
    → good_redirs rs ≡ true
    → Ensures (parseredirs n rs s) (RedirsOf s)
unfolding parseredirs redirs_at
parseredirs-RedirsOf zero rs s h g = absurd (omega arith)
parseredirs-RedirsOf (suc n) rs s h g =
    let s1 = skip_white s in
    let t = gettoken s1 in
    let f = gettoken t.rest in
    elim (Bool-cases (peek_at (b'<' ∷ b'>' ∷ []) s1)) [
      | inr stop ↦ rw (stop, redirs_at) (g, length-skip_white s)
      | inl more ↦
          let (symbol, less) = redir_token s1 (skip_white_idem s) more in
          elim (Bool-cases (f.tok == b'a')) [
            | inr no_file ↦ rw (more, no_file, redirs_at) (λ e. cc)
            | inl file ↦
                let (w, l) = redir_word t.rest (ground (arith, file)) in
                rw (more, file, redirs_at)
                  (weaken-Ensures (parseredirs n (rs ++ ((t.tok, f.text) ∷ [])) f.rest)
                    (RedirsOf f.rest) (RedirsOf s)
                    (parseredirs-RedirsOf n (rs ++ ((t.tok, f.text) ∷ [])) f.rest
                      (omega (arith, length-skip_white s))
                      (good_redirs-append rs t.tok f.text g symbol w))
                    (λ p (a, b). (a, omega (arith, length-skip_white s))))
          ]
    ]

-- What ends a command: the end of the line, or a bar.
abbrev pub AtEnd : Text → Type 0
AtEnd s = (skip_white s ≡ []) ⊎ (peek_at (b'|' ∷ []) (skip_white s) ≡ true)

abbrev pub ExecOf : Text → (List Text × List Redir) × Text → Type 0
ExecOf s p =
    (length p.0.0 < maxargs)
    × (all_words p.0.0 ≡ true)
    × (good_redirs p.0.1 ≡ true)
    × (length p.1 ≤ length s)
    × AtEnd p.1

-- The next token, where there is one that is no bar.
token_end : (s : Text) → (gettoken s).tok ≡ 0 → (gettoken s).rest ≡ []
token_end s h = elim (gettoken-Reads s) [
  | inl (z, e, r) ↦ r
  | inr (inl (e, n, l)) ↦ absurd (n h)
  | inr (inr (e, w, l)) ↦ absurd (omega (arith, h, e))
]

skip_nil : skip_white [] ≡ []
unfolding skip_white
skip_nil = refl

pub exec_loop-ExecOf :
    (n : ℕ) (args : List Text) (rs : List Redir) (s : Text)
    → length s < n
    → length args < maxargs
    → all_words args ≡ true
    → good_redirs rs ≡ true
    → Ensures (exec_loop n args rs s) (ExecOf s)
unfolding exec_loop exec_at
exec_loop-ExecOf zero args rs s h l a g = absurd (omega arith)
exec_loop-ExecOf (suc n) args rs s h l a g =
    let s1 = skip_white s in
    let t = gettoken s1 in
    elim (Bool-cases (peek_at (b'|' ∷ []) s1)) [
      | inl bar ↦
          let again : peek_at (b'|' ∷ []) (skip_white s1) ≡ true =
            ap (peek_at (b'|' ∷ [])) (skip_white_idem s) ∙ bar in
          rw (bar, exec_at) (l, a, g, length-skip_white s, inr again)
      | inr on ↦ elim (Bool-cases (t.tok == 0)) [
        | inl z ↦
            let e = token_end s1 (ground (arith, z)) in
            rw (on, z, e, exec_at) (l, a, g, omega arith, inl skip_nil)
        | inr more ↦ elim (Bool-cases (t.tok == b'a')) [
          | inr wrong ↦ rw (on, more, wrong, exec_at) (λ e. cc)
          | inl arg ↦
              let (w, less) = redir_word s1 (ground (arith, arg)) in
              elim (Bool-cases (leb maxargs (length args + 1))) [
                | inl many ↦ rw (on, more, arg, many, exec_at) (λ e. cc)
                | inr room ↦
                    rw (on, more, arg, room, exec_at)
                      (bind-Ensures (parseredirs (suc n) rs t.rest)
                        (λ p. exec_loop n (args ++ (t.text ∷ [])) p.0 p.1) (RedirsOf t.rest)
                        (ExecOf s)
                        (parseredirs-RedirsOf (suc n) rs t.rest (omega (arith, length-skip_white s))
                          g)
                        (λ p (good, shorter).
                          weaken-Ensures (exec_loop n (args ++ (t.text ∷ [])) p.0 p.1) (ExecOf p.1)
                            (ExecOf s)
                            (exec_loop-ExecOf n (args ++ (t.text ∷ [])) p.0 p.1
                              (omega (arith, length-skip_white s))
                              (ground (arith, room, length-append args (t.text ∷ [])))
                              (all_words-append args t.text a w) good)
                            (λ q (b, c, d, e, f).
                              (b, c, d, omega (arith, length-skip_white s), f))))
              ]
        ]
      ]
    ]
