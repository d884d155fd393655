-- ===== src/Shell/Total/Line.antt =====
-- The parser of lab-02/sh.c on a whole line.
use laboratorio_valen_el_noo.Base.{
  ℕ, zero, suc, ◌≤◌, ◌<◌, ◌≡◌, ◌≢◌, refl, ap, ◌∙◌, ◌⊎◌, inl, inr, true, List, [], ◌∷◌, length,
  arith, Bool-cases,
}
use laboratorio_valen_el_noo.Shell.{
  Text, Cmd, exec_cmd, Redir, Message, leftovers, Result, done, exits, out_of_fuel, ◌>>=◌,
  skip_white, token_at, gettoken, peek_at, parseredirs, exec_loop, parseexec, parsepipe, parsecmd,
  finish, up_to_zero, wrap, redircmd,
}
use laboratorio_valen_el_noo.Shell.Syntax.{
  good_redirs, well_formed, skip_white_idem, length-skip_white, token_symbol,
}
use laboratorio_valen_el_noo.Shell.Total.{
  Ensures, bind-Ensures, RedirsOf, parseredirs-RedirsOf, AtEnd, ExecOf, exec_loop-ExecOf,
}

abbrev pub CmdOf : Text → Cmd × Text → Type 0
CmdOf s p = (well_formed p.0 ≡ true) × (length p.1 ≤ length s) × AtEnd p.1

wrap-well_formed :
    (rs : List Redir) (c : Cmd)
    → good_redirs rs ≡ true
    → well_formed c ≡ true
    → well_formed (wrap rs c) ≡ true
unfolding wrap redircmd
wrap-well_formed [] c g h = h
wrap-well_formed ((d, f) ∷ rs) c g h =
    wrap-well_formed rs (redircmd c f d) (ground (arith, g)) (ground (arith, g, h))

parseexec-CmdOf : (n : ℕ) (s : Text) → length s < n → Ensures (parseexec n s) (CmdOf s)
unfolding parseexec
parseexec-CmdOf n s h =
    bind-Ensures (parseredirs n [] s) _ (RedirsOf s) (CmdOf s) (parseredirs-RedirsOf n [] s h refl)
      (λ p (g, l).
        bind-Ensures (exec_loop n [] p.0 p.1) _ (ExecOf p.1) (CmdOf s)
          (exec_loop-ExecOf n [] p.0 p.1 (omega arith) (omega arith) refl g)
          (λ q (a, b, c, d, e).
            (wrap-well_formed q.0.1 (exec_cmd q.0.0) c (ground (arith, a, b)), omega arith, e)))

-- A bar is taken off.
bar_token :
    (s : Text)
    → skip_white s ≡ s
    → peek_at (b'|' ∷ []) s ≡ true
    → length (gettoken s).rest < length s
unfolding peek_at gettoken
bar_token [] e h = absurd (ground (arith, h))
bar_token (c ∷ u) e h =
    let at = ap token_at e ∙ token_symbol c u (ground (arith, h)) in
    rw at (omega (arith, length-skip_white u))

abbrev LineOf : Text → Cmd × Text → Type 0
LineOf s p = (well_formed p.0 ≡ true) × (skip_white p.1 ≡ [])

parsepipe-LineOf : (n : ℕ) (s : Text) → length s < n → Ensures (parsepipe n s) (LineOf s)
unfolding parsepipe
parsepipe-LineOf zero s h = absurd (omega arith)
parsepipe-LineOf (suc n) s h =
    bind-Ensures (parseexec (suc n) s) _ (CmdOf s) (LineOf s) (parseexec-CmdOf (suc n) s h)
      λ p (w, l, e).
        let s2 = skip_white p.1 in
        elim (Bool-cases (peek_at (b'|' ∷ []) s2)) [
          | inr no_bar ↦
              let stop : s2 ≡ [] = elim e [ inl z ↦ z | inr bar ↦ cc (bar, no_bar) ] in
              rw no_bar (w, skip_white_idem p.1 ∙ stop)
          | inl bar ↦
              let less = bar_token s2 (skip_white_idem p.1) bar in
              rw bar (
                bind-Ensures (parsepipe n (gettoken s2).rest) _ (LineOf (gettoken s2).rest)
                  (LineOf s)
                  (parsepipe-LineOf n (gettoken s2).rest (omega (arith, length-skip_white p.1)))
                  (λ q (v, z). (ground (arith, w, v), z)))
        ]

outcome :
    (m : Result (Cmd × Text))
    → Ensures m (λ p. (well_formed p.0 ≡ true) × (skip_white p.1 ≡ []))
    → ((c : Cmd) × ((m >>= λ p. finish p.0 (skip_white p.1)) ≡ done c) × (well_formed c ≡ true))
      ⊎ ((e : Message) × ((m >>= λ p. finish p.0 (skip_white p.1)) ≡ exits e) × (e ≢ leftovers))
unfolding finish
outcome (done (c, s)) (w, z) = inl (c, rw (z, finish) refl, w)
outcome (exits e) h = inr (e, refl, h)
outcome out_of_fuel h = absurd h

-- For every line `parsecmd` returns a command, in which each program has fewer than MAXARGS arguments
-- and every argument and file is a word, or exits with a message; and that is never the one about
-- leftovers, since the parser stops only at the end of the line.
pub parsecmd_total :
    (line : Text)
    → ((c : Cmd) × (parsecmd line ≡ done c) × (well_formed c ≡ true))
      ⊎ ((e : Message) × (parsecmd line ≡ exits e) × (e ≢ leftovers))
unfolding parsecmd
parsecmd_total line =
    let s = up_to_zero line in
    outcome (parsepipe (suc (length s)) s) (parsepipe-LineOf (suc (length s)) s (omega arith))
