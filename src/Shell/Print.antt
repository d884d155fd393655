-- ===== src/Shell/Print.antt =====
-- Command lines as text, and that the parser of lab-02/sh.c reads them back.

pub mod Reads
use laboratorio_valen_el_noo.Base.{
  ℕ, zero, suc, ◌+◌, ◌≡◌, refl, ap, ap₂, ◌∙◌, Bool, true, false, ◌&&◌, List, [], ◌∷◌, ◌++◌, ltb,
  ◌==◌, length, arith,
}
use laboratorio_valen_el_noo.Shell.{
  redirs_at, exec_at, Text, Cmd, exec_cmd, pipe_cmd, Redir, skip_white, token_at, gettoken, maxargs,
  is_white, parseredirs, exec_loop, wrap,
}
use laboratorio_valen_el_noo.Shell.Syntax.{
  stops, is_word, all_words, good_redirs, skip_white_idem, is_symbol, token_symbol, token_word,
  word-append, after_word-append,
}

-- One program of a pipe: its arguments and its redirections.
pub record Stage : Type 0 where
  pub args : List Text
  pub redirs : List Redir

abbrev pub is_stage : Stage → Bool
is_stage s = ltb (length s.args) maxargs && (all_words s.args && good_redirs s.redirs)

abbrev pub all_stages : List Stage → Bool
all_stages [] = true
all_stages (s ∷ ss) = is_stage s && all_stages ss

-- A blank before each argument and each redirection, then the text `t`.
unfoldable pub emit_args : List Text → Text → Text
emit_args [] t = t
emit_args (w ∷ ws) t = 32 ∷ (w ++ emit_args ws t)

unfoldable pub emit_redirs : List Redir → Text → Text
emit_redirs [] t = t
emit_redirs ((c, f) ∷ rs) t = 32 ∷ (c ∷ (f ++ emit_redirs rs t))

abbrev pub emit_stage : Stage → Text → Text
emit_stage s t = emit_args s.args (emit_redirs s.redirs t)

-- The line of a pipe that starts with the stage `s`, and the command that it means.
unfoldable pub emit_line : Stage → List Stage → Text
emit_line s [] = emit_stage s []
emit_line s (n ∷ ns) = emit_stage s (b'|' ∷ emit_line n ns)

abbrev pub stage_cmd : Stage → Cmd
stage_cmd s = wrap s.redirs (exec_cmd s.args)

unfoldable pub line_cmd : Stage → List Stage → Cmd
line_cmd s [] = stage_cmd s
line_cmd s (n ∷ ns) = pipe_cmd (stage_cmd s) (line_cmd n ns)

-- What may follow a stage.
abbrev pub ends : Text → Bool
ends [] = true
ends (c ∷ t) = c == b'|'

pub stops-emit_redirs :
    (rs : List Redir) (t : Text) → ends t ≡ true → stops (emit_redirs rs t) ≡ true
unfolding emit_redirs
stops-emit_redirs [] [] h = refl
stops-emit_redirs [] (c ∷ t) h = ground (arith, h)
stops-emit_redirs ((c, f) ∷ rs) t h = refl

pub stops-emit_args : (ws : List Text) (t : Text) → stops t ≡ true → stops (emit_args ws t) ≡ true
unfolding emit_args
stops-emit_args [] t h = h
stops-emit_args (w ∷ ws) t h = refl

pub skip_word : (w t : Text) → is_word w ≡ true → skip_white (w ++ t) ≡ w ++ t
unfolding skip_white
skip_word [] t h = absurd (ground (arith, h))
skip_word (c ∷ w) t h = let n : is_white c ≡ false = ground (arith, h) in rw n refl

pub skip_blank : (t : Text) → skip_white (32 ∷ t) ≡ skip_white t
unfolding skip_white
skip_blank t = refl

pub gettoken_word :
    (w t : Text)
    → is_word w ≡ true
    → stops t ≡ true
    → gettoken (w ++ t) ≡ record { tok = b'a'; text = w; rest = skip_white t }
unfolding gettoken
gettoken_word [] t h k = absurd (ground (arith, h))
gettoken_word (c ∷ w) t h k =
    ap token_at (skip_word (c ∷ w) t h)
    ∙ token_word c (w ++ t) (ground (arith, h))
    ∙ ap₂ (λ (x y : Text). record { tok = b'a'; text = x; rest = skip_white y })
        (word-append (c ∷ w) t h k) (after_word-append (c ∷ w) t h k)

pub skip_symbol : (c : ℕ) (t : Text) → is_symbol c ≡ true → skip_white (32 ∷ (c ∷ t)) ≡ c ∷ t
unfolding skip_white
skip_symbol c t h = let n : is_white c ≡ false = ground (arith, h) in rw n refl

pub gettoken_symbol :
    (c : ℕ) (t : Text)
    → is_symbol c ≡ true
    → gettoken (c ∷ t) ≡ record { tok = c; text = c ∷ []; rest = skip_white t }
unfolding gettoken skip_white
gettoken_symbol c t h = ap token_at (skip_symbol c t h) ∙ token_symbol c t h

pub gettoken-skip_white : (s : Text) → gettoken (skip_white s) ≡ gettoken s
unfolding gettoken
gettoken-skip_white s = ap token_at (skip_white_idem s)

pub parseredirs-skip_white :
    (n : ℕ) (rs : List Redir) (s : Text) → parseredirs n rs (skip_white s) ≡ parseredirs n rs s
unfolding parseredirs redirs_at
parseredirs-skip_white zero rs s = refl
parseredirs-skip_white (suc n) rs s = ap (redirs_at (parseredirs n) rs) (skip_white_idem s)

pub exec_loop-skip_white :
    (n : ℕ) (args : List Text) (rs : List Redir) (s : Text)
    → exec_loop n args rs (skip_white s) ≡ exec_loop n args rs s
unfolding exec_loop exec_at
exec_loop-skip_white zero args rs s = refl
exec_loop-skip_white (suc n) args rs s =
    ap (exec_at (exec_loop n) (suc n) args rs) (skip_white_idem s)
