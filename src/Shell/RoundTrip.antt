-- ===== src/Shell/RoundTrip.antt =====
-- A printed command line parses back (lab-02/sh.c).
use laboratorio_valen_el_noo.Base.{
  ℕ, zero, suc, ◌+◌, ◌≤◌, ◌<◌, ◌≡◌, refl, ap, ◌∙◌, true, false, List, [], ◌∷◌, ◌++◌, append_assoc,
  ◌==◌, length, length-append, arith,
}
use laboratorio_valen_el_noo.Shell.{
  Text, Cmd, exec_cmd, pipe_cmd, Redir, Result, done, ◌>>=◌, skip_white, gettoken, Token, maxargs,
  peek_at, exec_loop, parseexec, parsepipe, parsecmd, finish, up_to_zero, wrap,
}
use laboratorio_valen_el_noo.Shell.Syntax.{plain, is_word, all_words, good_redirs}
use laboratorio_valen_el_noo.Shell.Print.{
  Stage, is_stage, all_stages, emit_args, emit_redirs, emit_stage, emit_line, stage_cmd, line_cmd,
  ends, parseredirs-skip_white, stops-emit_redirs, stops-emit_args, exec_loop-skip_white,
  gettoken_symbol,
}
use laboratorio_valen_el_noo.Shell.Print.Reads.{
  parseredirs-emit_redirs, parseredirs-emit_args, exec_loop-ends, exec_loop_step,
}

-- What `parseexec` and `parsepipe` do with a part that is read.
abbrev build : (List Text × List Redir) × Text → Result (Cmd × Text)
build q = done (wrap q.0.1 (exec_cmd q.0.0), q.1)

abbrev after : ℕ → Cmd × Text → Result (Cmd × Text)
after n p = elim (peek_at (b'|' ∷ []) (skip_white p.1)) as (λ b. Result (Cmd × Text)) [
  | false ↦ done (p.0, skip_white p.1)
  | true ↦ parsepipe n (gettoken (skip_white p.1)).rest >>= λ q. done (pipe_cmd p.0 q.0, q.1)
]

-- How much text a stage takes at least.
length-emit_redirs : (rs : List Redir) (t : Text) → length rs + length t ≤ length (emit_redirs rs t)
unfolding emit_redirs
length-emit_redirs [] t = omega arith
length-emit_redirs ((c, f) ∷ rs) t =
    omega (arith, length-emit_redirs rs t, length-append f (emit_redirs rs t))

length-emit_args : (ws : List Text) (t : Text) → length ws + length t ≤ length (emit_args ws t)
unfolding emit_args
length-emit_args [] t = omega arith
length-emit_args (w ∷ ws) t = omega (arith, length-emit_args ws t, length-append w (emit_args ws t))

ends_at :
    (n : ℕ) (args : List Text) (rs : List Redir) (t : Text)
    → 0 < n
    → ends t ≡ true
    → exec_loop n args rs t ≡ done ((args, rs), skip_white t)
ends_at zero args rs t h e = absurd (omega arith)
ends_at (suc n) args rs t h e = exec_loop-ends n args rs t e

-- The loop of `parseexec` reads the arguments that are left, and then the redirections.
exec_loop-emit_args :
    (n : ℕ) (args : List Text) (rs ss : List Redir) (w : Text) (ws : List Text) (t : Text)
    → suc (length ws + length ss) < n
    → suc (length args + length ws) < maxargs
    → all_words (w ∷ ws) ≡ true
    → good_redirs ss ≡ true
    → ends t ≡ true
    → exec_loop n args rs (emit_args (w ∷ ws) (emit_redirs ss t))
      ≡ done ((args ++ (w ∷ ws), rs ++ ss), skip_white t)
unfolding emit_args
exec_loop-emit_args zero args rs ss w ws t h l a g e = absurd (omega arith)
exec_loop-emit_args (suc n) args rs ss w [] t h l a g e =
    let cut = stops-emit_redirs ss t e in
    let next = λ (p : List Redir × Text). exec_loop n (args ++ (w ∷ [])) p.0 p.1 in
    exec_loop_step n args rs w (emit_redirs ss t) (ground (arith, a)) cut (omega arith)
    ∙ ap (λ m. m >>= next) (parseredirs-emit_redirs (suc n) rs ss t (omega arith) g e)
    ∙ exec_loop-skip_white n (args ++ (w ∷ [])) (rs ++ ss) t
    ∙ ends_at n (args ++ (w ∷ [])) (rs ++ ss) t (omega arith) e
exec_loop-emit_args (suc n) args rs ss w (v ∷ ws) t h l a g e =
    let more = emit_args (v ∷ ws) (emit_redirs ss t) in
    let cut = stops-emit_args (v ∷ ws) (emit_redirs ss t) (stops-emit_redirs ss t e) in
    let next = λ (p : List Redir × Text). exec_loop n (args ++ (w ∷ [])) p.0 p.1 in
    exec_loop_step n args rs w more (ground (arith, a)) cut (omega arith)
    ∙ ap (λ m. m >>= next) (parseredirs-emit_args n rs v ws (emit_redirs ss t) (ground (arith, a)))
    ∙ exec_loop-skip_white n (args ++ (w ∷ [])) rs more
    ∙ exec_loop-emit_args n (args ++ (w ∷ [])) rs ss v ws t (omega arith)
        (omega (arith, length-append args (w ∷ []))) (ground (arith, a)) g e
    ∙ ap (λ x. done ((x, rs ++ ss), skip_white t)) (append_assoc args (w ∷ []) (v ∷ ws))

-- A stage is read as its command, up to what follows it.
parseexec-emit :
    (n : ℕ) (args : List Text) (rs : List Redir) (t : Text)
    → length (emit_args args (emit_redirs rs t)) ≤ n
    → length args < maxargs
    → all_words args ≡ true
    → good_redirs rs ≡ true
    → ends t ≡ true
    → parseexec (suc n) (emit_args args (emit_redirs rs t))
      ≡ done (wrap rs (exec_cmd args), skip_white t)
unfolding parseexec emit_args
parseexec-emit n [] rs t h l a g e =
    let next = λ (p : List Redir × Text). exec_loop (suc n) [] p.0 p.1 >>= build in
    ap (λ m. m >>= next)
      (parseredirs-emit_redirs (suc n) [] rs t (omega (arith, length-emit_redirs rs t)) g e)
    ∙ ap (λ m. m >>= build) (exec_loop-skip_white (suc n) [] rs t ∙ exec_loop-ends n [] rs t e)
parseexec-emit n (w ∷ ws) rs t h l a g e =
    let next = λ (p : List Redir × Text). exec_loop (suc n) [] p.0 p.1 >>= build in
    let line = emit_redirs rs t in
    ap (λ m. m >>= next) (parseredirs-emit_args n [] w ws line (ground (arith, a)))
    ∙ ap (λ m. m >>= build)
        (exec_loop-skip_white (suc n) [] [] (emit_args (w ∷ ws) line)
          ∙ exec_loop-emit_args (suc n) [] [] rs w ws t
              (omega (arith, h, length-emit_args (w ∷ ws) line, length-emit_redirs rs t))
              (omega arith) a g e)

-- The text of a stage is longer than what follows it, or the stage is empty.
length-emit_stage : (s : Stage) (t : Text) → length t ≤ length (emit_stage s t)
length-emit_stage s t =
    omega (arith, length-emit_args s.args (emit_redirs s.redirs t), length-emit_redirs s.redirs t)

skip_bar : (t : Text) → skip_white (b'|' ∷ t) ≡ b'|' ∷ t
unfolding skip_white
skip_bar t = refl

abbrev join : Cmd → Cmd × Text → Result (Cmd × Text)
join c q = done (pipe_cmd c q.0, q.1)

parsepipe-skip_white : (n : ℕ) (t : Text) → parsepipe (suc n) (skip_white t) ≡ parsepipe (suc n) t
unfolding parsepipe parseexec
parsepipe-skip_white n t =
    ap (λ m. (m >>= λ (p : List Redir × Text). exec_loop (suc n) [] p.0 p.1 >>= build) >>= after n)
      (parseredirs-skip_white (suc n) [] t)

parsepipe-emit_line :
    (n : ℕ) (s : Stage) (ss : List Stage)
    → length (emit_line s ss) ≤ n
    → is_stage s ≡ true
    → all_stages ss ≡ true
    → parsepipe (suc n) (emit_line s ss) ≡ done (line_cmd s ss, [])
unfolding parsepipe emit_line line_cmd peek_at skip_white
parsepipe-emit_line n s [] h k l =
    ap (λ m. m >>= after n)
      (parseexec-emit n s.args s.redirs [] h (ground (arith, k)) (ground (arith, k))
        (ground (arith, k)) refl)
parsepipe-emit_line zero s (r ∷ rs) h k l =
    absurd (omega (arith, length-emit_stage s (b'|' ∷ emit_line r rs)))
parsepipe-emit_line (suc n) s (r ∷ rs) h k l =
    let t = b'|' ∷ emit_line r rs in
    ap (λ m. m >>= after (suc n))
      (parseexec-emit (suc n) s.args s.redirs t h (ground (arith, k)) (ground (arith, k))
        (ground (arith, k)) refl)
    ∙ ap (λ (x : Token). parsepipe (suc n) x.rest >>= join (stage_cmd s))
        (gettoken_symbol b'|' (emit_line r rs) refl)
    ∙ ap (λ m. m >>= join (stage_cmd s))
        (parsepipe-skip_white n (emit_line r rs)
          ∙ parsepipe-emit_line n r rs (omega (arith, length-emit_stage s t)) (ground (arith, l))
              (ground (arith, l)))

-- The text has no terminator, so that the parser takes all of it.
up_to_zero-append : (w t : Text) → plain w ≡ true → up_to_zero (w ++ t) ≡ w ++ up_to_zero t
unfolding up_to_zero
up_to_zero-append [] t h = refl
up_to_zero-append (c ∷ w) t h = ground (arith, h, up_to_zero-append w t (ground (arith, h)))

plain_of_word : (w : Text) → is_word w ≡ true → plain w ≡ true
plain_of_word [] h = refl
plain_of_word (c ∷ w) h = h

up_to_zero-emit_args :
    (ws : List Text) (t : Text)
    → all_words ws ≡ true
    → up_to_zero t ≡ t
    → up_to_zero (emit_args ws t) ≡ emit_args ws t
unfolding emit_args up_to_zero
up_to_zero-emit_args [] t h k = k
up_to_zero-emit_args (w ∷ ws) t h k =
    ap (λ x. 32 ∷ x)
      (up_to_zero-append w (emit_args ws t) (plain_of_word w (ground (arith, h)))
        ∙ ap (λ x. w ++ x) (up_to_zero-emit_args ws t (ground (arith, h)) k))

up_to_zero-emit_redirs :
    (rs : List Redir) (t : Text)
    → good_redirs rs ≡ true
    → up_to_zero t ≡ t
    → up_to_zero (emit_redirs rs t) ≡ emit_redirs rs t
unfolding emit_redirs up_to_zero
up_to_zero-emit_redirs [] t h k = k
up_to_zero-emit_redirs ((c, f) ∷ rs) t h k =
    let n : (c == 0) ≡ false = ground (arith, h) in
    let whole =
      up_to_zero-append f (emit_redirs rs t) (plain_of_word f (ground (arith, h)))
      ∙ ap (λ x. f ++ x) (up_to_zero-emit_redirs rs t (ground (arith, h)) k) in
    rw (n, whole) refl

up_to_zero-emit_line :
    (s : Stage) (ss : List Stage)
    → is_stage s ≡ true
    → all_stages ss ≡ true
    → up_to_zero (emit_line s ss) ≡ emit_line s ss
unfolding emit_line up_to_zero
up_to_zero-emit_line s [] h k =
    up_to_zero-emit_args s.args (emit_redirs s.redirs []) (ground (arith, h))
      (up_to_zero-emit_redirs s.redirs [] (ground (arith, h)) refl)
up_to_zero-emit_line s (r ∷ rs) h k =
    up_to_zero-emit_args s.args (emit_redirs s.redirs (b'|' ∷ emit_line r rs)) (ground (arith, h)) (
      up_to_zero-emit_redirs s.redirs (b'|' ∷ emit_line r rs) (ground (arith, h))
        (ap (λ x. b'|' ∷ x) (up_to_zero-emit_line r rs (ground (arith, k)) (ground (arith, k)))))

-- A pipe of programs, each with fewer than MAXARGS arguments and any redirections, all words, that
-- is printed and parsed again is the command that it was: the pipe leans to the right, and the
-- redirections of a program stand around it, the later outside.
pub parsecmd-emit_line :
    (s : Stage) (ss : List Stage)
    → is_stage s ≡ true
    → all_stages ss ≡ true
    → parsecmd (emit_line s ss) ≡ done (line_cmd s ss)
unfolding parsecmd finish skip_white
parsecmd-emit_line s ss h k =
    let line = emit_line s ss in
    ap (λ t. parsepipe (suc (length t)) t >>= λ p. finish p.0 (skip_white p.1))
      (up_to_zero-emit_line s ss h k)
    ∙ ap (λ m. m >>= λ (p : Cmd × Text). finish p.0 (skip_white p.1))
        (parsepipe-emit_line (length line) s ss (omega arith) h k)
