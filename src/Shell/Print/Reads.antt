-- ===== src/Shell/Print/Reads.antt =====
-- The parser of lab-02/sh.c on the parts of a printed line.
use laboratorio_valen_el_noo.Base.{
  ℕ, zero, suc, ◌+◌, ◌<◌, ◌≡◌, refl, sym, ap, ◌∙◌, true, false, List, [], ◌∷◌, ◌++◌, append-nil,
  append_assoc, leb, ◌==◌, length, arith,
}
use laboratorio_valen_el_noo.Shell.{
  redirs_at, exec_at, Text, Redir, Result, done, ◌>>=◌, skip_white, Token, token_at, gettoken,
  maxargs, peek_at, parseredirs, exec_loop,
}
use laboratorio_valen_el_noo.Shell.Syntax.{stops, is_word, is_redir, good_redirs}
use laboratorio_valen_el_noo.Shell.Print.{
  emit_args, emit_redirs, ends, stops-emit_redirs, skip_word, skip_blank, gettoken_word,
  skip_symbol, gettoken_symbol, gettoken-skip_white, parseredirs-skip_white,
}

-- No redirection at a word or at the end of a stage.
parseredirs_stop :
    (n : ℕ) (rs : List Redir) (s : Text)
    → peek_at (b'<' ∷ b'>' ∷ []) (skip_white s) ≡ false
    → parseredirs (suc n) rs s ≡ done (rs, skip_white s)
unfolding parseredirs redirs_at
parseredirs_stop n rs s h = rw (h, redirs_at) refl

peek_end : (t : Text) → ends t ≡ true → peek_at (b'<' ∷ b'>' ∷ []) (skip_white t) ≡ false
unfolding peek_at skip_white
peek_end [] h = refl
peek_end (c ∷ t) h = let e : c ≡ b'|' = ground (arith, h) in rw e refl

peek_word : (w t : Text) → is_word w ≡ true → peek_at (b'<' ∷ b'>' ∷ []) (w ++ t) ≡ false
unfolding peek_at
peek_word [] t h = absurd (ground (arith, h))
peek_word (c ∷ w) t h = ground (arith, h)

peek_symbol : (c : ℕ) (t : Text) → is_redir c ≡ true → peek_at (b'<' ∷ b'>' ∷ []) (c ∷ t) ≡ true
unfolding peek_at
peek_symbol c t h = ground (arith, h)

word_no_bar : (w t : Text) → is_word w ≡ true → peek_at (b'|' ∷ []) (w ++ t) ≡ false
unfolding peek_at
word_no_bar [] t h = absurd (ground (arith, h))
word_no_bar (c ∷ w) t h = ground (arith, h)

redirs_more :
    (again : List Redir → Text → Result (List Redir × Text)) (rs : List Redir) (s : Text)
    → peek_at (b'<' ∷ b'>' ∷ []) s ≡ true
    → (gettoken (gettoken s).rest).tok ≡ b'a'
    → redirs_at again rs s
      ≡ again
          (rs ++ (((gettoken s).tok, (gettoken (gettoken s).rest).text) ∷ []))
          (gettoken (gettoken s).rest).rest
unfolding redirs_at
redirs_more again rs s h k =
    let is_file : ((gettoken (gettoken s).rest).tok == b'a') ≡ true = ground (arith, k) in
    rw (h, is_file, redirs_at) refl

-- One redirection is read.
parseredirs_step :
    (n : ℕ) (rs : List Redir) (c : ℕ) (f t : Text)
    → is_redir c ≡ true
    → is_word f ≡ true
    → stops t ≡ true
    → parseredirs (suc n) rs (32 ∷ (c ∷ (f ++ t))) ≡ parseredirs n (rs ++ ((c, f) ∷ [])) t
unfolding parseredirs
parseredirs_step n rs c f t h k l =
    let u = c ∷ (f ++ t) in
    let again = parseredirs n in
    let black : skip_white (32 ∷ u) ≡ u = skip_symbol c (f ++ t) (ground (arith, h)) in
    let at : gettoken u ≡ record { tok = c; text = c ∷ []; rest = skip_white (f ++ t) } =
      gettoken_symbol c (f ++ t) (ground (arith, h)) in
    let file : gettoken (skip_white (f ++ t))
        ≡ record { tok = b'a'; text = f; rest = skip_white t } =
      gettoken-skip_white (f ++ t) ∙ gettoken_word f t k l in
    let both : gettoken (gettoken u).rest ≡ record { tok = b'a'; text = f; rest = skip_white t } =
      ap (λ (x : Token). gettoken x.rest) at ∙ file in
    ap (redirs_at again rs) black
    ∙ redirs_more again rs u (peek_symbol c (f ++ t) h) (ap (λ (x : Token). x.tok) both)
    ∙ ap
        (λ (x : Token).
          again (rs ++ ((x.tok, (gettoken (gettoken u).rest).text) ∷ []))
            (gettoken (gettoken u).rest).rest)
        at
    ∙ ap (λ (y : Token). again (rs ++ ((c, y.text) ∷ [])) y.rest) both
    ∙ parseredirs-skip_white n (rs ++ ((c, f) ∷ [])) t

-- The redirections of a stage are read up to its end.
pub parseredirs-emit_redirs :
    (n : ℕ) (rs ss : List Redir) (t : Text)
    → length ss < n
    → good_redirs ss ≡ true
    → ends t ≡ true
    → parseredirs n rs (emit_redirs ss t) ≡ done (rs ++ ss, skip_white t)
unfolding emit_redirs
parseredirs-emit_redirs zero rs ss t h g e = absurd (omega arith)
parseredirs-emit_redirs (suc n) rs [] t h g e =
    parseredirs_stop n rs t (peek_end t e) ∙ ap (λ r. done (r, skip_white t)) (sym (append-nil rs))
parseredirs-emit_redirs (suc n) rs ((c, f) ∷ ss) t h g e =
    parseredirs_step n rs c f (emit_redirs ss t) (ground (arith, g)) (ground (arith, g))
      (stops-emit_redirs ss t e)
    ∙ parseredirs-emit_redirs n (rs ++ ((c, f) ∷ [])) ss t (omega arith) (ground (arith, g)) e
    ∙ ap (λ r. done (r, skip_white t)) (append_assoc rs ((c, f) ∷ []) ss)

-- None stand before an argument.
pub parseredirs-emit_args :
    (n : ℕ) (rs : List Redir) (w : Text) (ws : List Text) (t : Text)
    → is_word w ≡ true
    → parseredirs (suc n) rs (emit_args (w ∷ ws) t) ≡ done (rs, skip_white (emit_args (w ∷ ws) t))
unfolding emit_args
parseredirs-emit_args n rs w ws t h = parseredirs_stop n rs (32 ∷ (w ++ emit_args ws t)) (
    ap (peek_at (b'<' ∷ b'>' ∷ []))
      (skip_blank (w ++ emit_args ws t) ∙ skip_word w (emit_args ws t) h)
    ∙ peek_word w (emit_args ws t) h)

-- The loop of `parseexec` ends where the stage does.
pub exec_loop-ends :
    (n : ℕ) (args : List Text) (rs : List Redir) (t : Text)
    → ends t ≡ true
    → exec_loop (suc n) args rs t ≡ done ((args, rs), skip_white t)
unfolding exec_loop exec_at peek_at skip_white gettoken token_at
exec_loop-ends n args rs [] h = refl
exec_loop-ends n args rs (c ∷ t) h = let e : c ≡ b'|' = ground (arith, h) in rw e refl

exec_more :
    (again : List Text → List Redir → Text → Result ((List Text × List Redir) × Text)) (m : ℕ)
    (args : List Text) (rs : List Redir) (s : Text)
    → peek_at (b'|' ∷ []) s ≡ false
    → (gettoken s).tok ≡ b'a'
    → suc (length args) < maxargs
    → exec_at again m args rs s ≡ (
        parseredirs m rs (gettoken s).rest >>= λ p.
        again (args ++ ((gettoken s).text ∷ [])) p.0 p.1)
unfolding exec_at
exec_more again m args rs s h k l =
    let more : ((gettoken s).tok == 0) ≡ false = ground (arith, k) in
    let is_arg : ((gettoken s).tok == b'a') ≡ true = ground (arith, k) in
    let room : leb maxargs (length args + 1) ≡ false = ground (arith, l) in
    rw (h, more, is_arg, room, exec_at) refl

-- One argument is read.
pub exec_loop_step :
    (n : ℕ) (args : List Text) (rs : List Redir) (w t : Text)
    → is_word w ≡ true
    → stops t ≡ true
    → suc (length args) < maxargs
    → exec_loop (suc n) args rs (32 ∷ (w ++ t))
      ≡ (parseredirs (suc n) rs t >>= λ p. exec_loop n (args ++ (w ∷ [])) p.0 p.1)
unfolding exec_loop
exec_loop_step n args rs w t h k l =
    let u = w ++ t in
    let again = exec_loop n in
    let black : skip_white (32 ∷ u) ≡ u = skip_blank u ∙ skip_word w t h in
    let at : gettoken u ≡ record { tok = b'a'; text = w; rest = skip_white t } =
      gettoken_word w t h k in
    ap (exec_at again (suc n) args rs) black
    ∙ exec_more again (suc n) args rs u (word_no_bar w t h) (ap (λ (x : Token). x.tok) at) l
    ∙ ap
        (λ (x : Token). parseredirs (suc n) rs x.rest >>= λ (p : List Redir × Text).
          again (args ++ (x.text ∷ [])) p.0 p.1)
        at
    ∙ ap (λ m. m >>= λ (p : List Redir × Text). again (args ++ (w ∷ [])) p.0 p.1)
        (parseredirs-skip_white (suc n) rs t)
