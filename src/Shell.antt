-- ===== src/Shell.antt =====
-- lab-02/sh.c: the parser of the shell, and what runs a command. A pointer into the line is the text
-- from there to the end: at the end C reads the terminator 0. `exit(-1)` with a message is `exits`;
-- each recursive call of the parser costs one unit of fuel.
pub mod Syntax
pub mod Total
pub mod Print
pub mod RoundTrip
pub mod Run
mod Tests
use laboratorio_valen_el_noo.Base.{
  drop, ℕ, zero, suc, ◌+◌, Bool, true, false, ◌&&◌, ◌||◌, not, List, [], ◌∷◌, ◌++◌, leb, ◌==◌,
  if◌then◌else◌, length,
}

abbrev pub Text : Type 0
Text = List ℕ

-- What the parser ends with: a message before `exit(-1)`, or no fuel left.
pub data Message : Type 0 where
  missing_file syntax_error too_many_args leftovers : Message

pub data Result (A : Type 0) : Type 0 where
  done : A → Result A
  exits : Message → Result A
  out_of_fuel : Result A

infixl 5 ◌>>=◌
abbrev pub ◌>>=◌ : {A B : Type 0} → Result A → (A → Result B) → Result B
done a >>= f = f a
exits e >>= f = exits e
out_of_fuel >>= f = out_of_fuel

-- The modes of `open` that `redircmd` sets.
pub data Mode : Type 0 where
  read_only write_create_trunc : Mode

-- `struct execcmd`, `struct redircmd`, `struct pipecmd`
pub data Cmd : Type 0 where
  exec_cmd : List Text → Cmd
  redir_cmd : Cmd → Text → Mode → ℕ → Cmd
  pipe_cmd : Cmd → Cmd → Cmd

abbrev pub maxargs : ℕ
maxargs = 10

-- `redircmd`, with the type `<` or `>`
pub redircmd : Cmd → Text → ℕ → Cmd
redircmd c file type =
    redir_cmd c file (if type == b'<' then read_only else write_create_trunc)
      (if type == b'<' then 0 else 1)

-- `strchr`, whose search takes the terminator in.
abbrev pub strchr : Text → ℕ → Bool
strchr [] c = c == 0
strchr (x ∷ xs) c = x == c || strchr xs c

abbrev pub whitespace : Text
whitespace = 32 ∷ 9 ∷ 13 ∷ 10 ∷ 11 ∷ []

abbrev pub symbols : Text
symbols = b'<' ∷ b'|' ∷ b'>' ∷ []

abbrev pub is_white : ℕ → Bool
is_white c = strchr whitespace c

abbrev pub ends_word : ℕ → Bool
ends_word c = strchr whitespace c || strchr symbols c

-- The loops of `gettoken` and `peek`: over white space, and over a word.
pub skip_white : Text → Text
skip_white [] = []
skip_white (c ∷ s) = let rest = skip_white s in if is_white c then rest else c ∷ s

pub word : Text → Text
word [] = []
word (c ∷ s) = let rest = word s in if ends_word c then [] else c ∷ rest

pub after_word : Text → Text
after_word [] = []
after_word (c ∷ s) = let rest = after_word s in if ends_word c then c ∷ s else rest

-- What `gettoken` returns, with the text from `*q` to `*eq` and the new `*ps`.
pub record Token : Type 0 where
  pub tok : ℕ
  pub text : Text
  pub rest : Text

pub token_at : Text → Token
token_at [] = record { tok = 0; text = []; rest = [] }
token_at (c ∷ s) =
    if c == b'|' || (c == b'<' || c == b'>')
    then record { tok = c; text = c ∷ []; rest = skip_white s }
    else record { tok = b'a'; text = word (c ∷ s); rest = skip_white (after_word (c ∷ s)) }

pub gettoken : Text → Token
gettoken s = token_at (skip_white s)

-- The test of `peek`, once white space is skipped.
pub peek_at : Text → Text → Bool
peek_at toks [] = false
peek_at toks (c ∷ s) = not (c == 0) && strchr toks c

-- A redirection: its token and its file. `wrap` puts those of a command around it, the later outside.
abbrev pub Redir : Type 0
Redir = ℕ × Text

pub wrap : List Redir → Cmd → Cmd
wrap [] c = c
wrap ((tok, file) ∷ rs) c = wrap rs (redircmd c file tok)

-- A round of the loop of `parseredirs` at `s`, without white space in front; `rs` are the
-- redirections found so far, and `again` is the loop.
pub redirs_at :
    (List Redir → Text → Result (List Redir × Text))
    → List Redir
    → Text
    → Result (List Redir × Text)
redirs_at again rs s =
    let t = gettoken s in
    let f = gettoken t.rest in
    elim (peek_at (b'<' ∷ b'>' ∷ []) s) [
      | false ↦ done (rs, s)
      | true ↦ elim (f.tok == b'a') [
        | false ↦ exits missing_file
        | true ↦ again (rs ++ ((t.tok, f.text) ∷ [])) f.rest
      ]
    ]

pub parseredirs : ℕ → List Redir → Text → Result (List Redir × Text)
parseredirs zero rs s = out_of_fuel
parseredirs (suc n) rs s = redirs_at (parseredirs n) rs (skip_white s)

-- A round of the loop of `parseexec`. The node of the command is shared by `cmd` and `ret`: `args` go
-- into it while the redirections stand around it. `m` is the fuel of `parseredirs`.
pub exec_at :
    (List Text → List Redir → Text → Result ((List Text × List Redir) × Text))
    → ℕ
    → List Text
    → List Redir
    → Text
    → Result ((List Text × List Redir) × Text)
exec_at again m args rs s =
    let t = gettoken s in
    elim (peek_at (b'|' ∷ []) s) [
      | true ↦ done ((args, rs), s)
      | false ↦ elim (t.tok == 0) [
        | true ↦ done ((args, rs), t.rest)
        | false ↦ elim (t.tok == b'a') [
          | false ↦ exits syntax_error
          | true ↦ elim (leb maxargs (length args + 1)) [
            | true ↦ exits too_many_args
            | false ↦ parseredirs m rs t.rest >>= λ p. again (args ++ (t.text ∷ [])) p.0 p.1
          ]
        ]
      ]
    ]

pub exec_loop : ℕ → List Text → List Redir → Text → Result ((List Text × List Redir) × Text)
exec_loop zero args rs s = out_of_fuel
exec_loop (suc n) args rs s = exec_at (exec_loop n) (suc n) args rs (skip_white s)

pub parseexec : ℕ → Text → Result (Cmd × Text)
parseexec n s = do
  p ← parseredirs n [] s
  q ← exec_loop n [] p.0 p.1
  done (wrap q.0.1 (exec_cmd q.0.0), q.1)

pub parsepipe : ℕ → Text → Result (Cmd × Text)
parsepipe zero s = out_of_fuel
parsepipe (suc n) s = parseexec (suc n) s >>= λ p. elim (peek_at (b'|' ∷ []) (skip_white p.1)) [
  | false ↦ done (p.0, skip_white p.1)
  | true ↦ parsepipe n (gettoken (skip_white p.1)).rest >>= λ q. done (pipe_cmd p.0 q.0, q.1)
]

-- The characters before the terminator.
pub up_to_zero : Text → Text
up_to_zero [] = []
up_to_zero (c ∷ s) = let rest = up_to_zero s in if c == 0 then [] else c ∷ rest

pub finish : Cmd → Text → Result Cmd
finish c [] = done c
finish c (x ∷ s) = exits leftovers

pub parsecmd : Text → Result Cmd
parsecmd line =
    let s = up_to_zero line in parsepipe (suc (length s)) s >>= λ p. finish p.0 (skip_white p.1)

-- What `runcmd` asks of the system: each call in order, up to the one that does not return. `fails`
-- is the message of `perror`; here no program can be run and every call returns.
pub data Action : Type 0 where
  close_fd : ℕ → Action
  open_file : Text → Mode → Action
  execvp : List Text → Action
  fails : Action
  not_implemented : Action
  exit_with : ℕ → Action

pub runcmd : Cmd → List Action
runcmd (exec_cmd []) = exit_with 0 ∷ []
runcmd (exec_cmd (a ∷ args)) = execvp (a ∷ args) ∷ fails ∷ exit_with 0 ∷ []
runcmd (redir_cmd c file mode fd) = close_fd fd ∷ open_file file mode ∷ runcmd c
runcmd (pipe_cmd l r) = not_implemented ∷ runcmd l

-- A round of the loop of `main` with the line read: the directory to change to, or what a child runs.
pub data Round : Type 0 where
  change_dir : Text → Round
  in_child : Result Cmd → Round

pub drop_last : Text → Text
drop_last [] = []
drop_last (c ∷ []) = []
drop_last (c ∷ (d ∷ s)) = c ∷ drop_last (d ∷ s)

pub main_round : Text → Round
main_round (a ∷ (b ∷ (c ∷ s))) =
    if a == b'c' && (b == b'd' && c == 32)
    then change_dir (drop 3 (drop_last (up_to_zero (a ∷ (b ∷ (c ∷ s))))))
    else in_child (parsecmd (a ∷ (b ∷ (c ∷ s))))
main_round s = in_child (parsecmd s)
