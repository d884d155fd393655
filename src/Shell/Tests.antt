-- ===== src/Shell/Tests.antt =====
-- The shell of lab-02/sh.c on small lines.
use laboratorio_valen_el_noo.Base.{some, none, Bool, false, ◌≡◌, ◌≢◌, ◌⊎◌, refl, true, [], ◌∷◌}
use laboratorio_valen_el_noo.Shell.{
  Text, Mode, Cmd, exec_cmd, redir_cmd, pipe_cmd, done, exits, Message, leftovers, missing_file,
  parsecmd, redircmd, wrap, runcmd, read_only, write_create_trunc, redirs_at, parseredirs, exec_at,
  exec_loop, parseexec, parsepipe, finish, up_to_zero, skip_white, gettoken, token_at, word,
  after_word, peek_at,
}
use laboratorio_valen_el_noo.Shell.Syntax.{well_formed}
use laboratorio_valen_el_noo.Shell.Total.Line.{parsecmd_total}
use laboratorio_valen_el_noo.Shell.Print.{
  Stage, emit_args, emit_redirs, stage_cmd, emit_line, line_cmd,
}
use laboratorio_valen_el_noo.Shell.Run.{descriptors, open_lowest, first_for, runcmd-stage_cmd}
use laboratorio_valen_el_noo.Shell.RoundTrip.{parsecmd-emit_line}

-- ls -l <a >b|wc
abbrev ls : Stage
ls = record {
  args = (b'l' ∷ b's' ∷ []) ∷ (b'-' ∷ b'l' ∷ []) ∷ [];
  redirs = (b'<', b'a' ∷ []) ∷ (b'>', b'b' ∷ []) ∷ [];
}

abbrev wc : Stage
wc = record { args = (b'w' ∷ b'c' ∷ []) ∷ []; redirs = [] }

parsecmd-emit_line_example : parsecmd (emit_line ls (wc ∷ [])) ≡ done (line_cmd ls (wc ∷ []))
parsecmd-emit_line_example = parsecmd-emit_line ls (wc ∷ []) refl refl

printed :
    parsecmd (emit_line ls (wc ∷ []))
    ≡ done (
        pipe_cmd
          (redir_cmd
            (redir_cmd
              (exec_cmd ((b'l' ∷ b's' ∷ []) ∷ (b'-' ∷ b'l' ∷ []) ∷ []))
              (b'a' ∷ [])
              read_only
              0)
            (b'b' ∷ [])
            write_create_trunc
            1)
          (exec_cmd ((b'w' ∷ b'c' ∷ []) ∷ [])))
unfolding parsecmd parsepipe parseexec exec_loop exec_at parseredirs redirs_at gettoken token_at
    skip_white word after_word peek_at finish up_to_zero wrap redircmd emit_line emit_args
    emit_redirs
printed = refl

-- a >
unfinished : parsecmd (b'a' ∷ 32 ∷ b'>' ∷ []) ≡ exits missing_file
unfolding parsecmd parsepipe parseexec exec_loop exec_at parseredirs redirs_at gettoken token_at
    skip_white word after_word peek_at finish up_to_zero
unfinished = refl

parsecmd_total_example :
    ((c : Cmd) × (parsecmd (b'|' ∷ b'>' ∷ []) ≡ done c) × (well_formed c ≡ true))
    ⊎ ((e : Message) × (parsecmd (b'|' ∷ b'>' ∷ []) ≡ exits e) × (e ≢ leftovers))
parsecmd_total_example = parsecmd_total (b'|' ∷ b'>' ∷ [])

-- a >b >c
abbrev twice : Stage
twice = record { args = (b'a' ∷ []) ∷ []; redirs = (b'>', b'b' ∷ []) ∷ (b'>', b'c' ∷ []) ∷ [] }

-- Every file can be opened; descriptors 0, 1 and 2 are the terminal.
abbrev any : Text → Mode → Bool
any f m = true

abbrev tty : Text
tty = b't' ∷ []

runcmd-stage_cmd_example :
    descriptors any (runcmd (stage_cmd twice)) (some tty ∷ some tty ∷ some tty ∷ [])
    ≡ some (first_for 0 twice.redirs tty) ∷ some (first_for 1 twice.redirs tty) ∷ some tty ∷ []
runcmd-stage_cmd_example = runcmd-stage_cmd any twice tty tty (some tty ∷ []) refl

goes_to_b : first_for 1 twice.redirs tty ≡ b'b' ∷ []
unfolding first_for
goes_to_b = refl

-- a >b <c, where there is no file c: `b` is opened as the input, and the output is closed.
abbrev misplaced : Stage
misplaced = record { args = (b'a' ∷ []) ∷ []; redirs = (b'>', b'b' ∷ []) ∷ (b'<', b'c' ∷ []) ∷ [] }

abbrev no_input : Text → Mode → Bool
no_input f read_only = false
no_input f write_create_trunc = true

b_as_input :
    descriptors no_input (runcmd (stage_cmd misplaced)) (some tty ∷ some tty ∷ some tty ∷ [])
    ≡ some (b'b' ∷ []) ∷ none ∷ some tty ∷ []
unfolding descriptors open_lowest runcmd wrap redircmd
b_as_input = refl
