-- ===== src/Shell/Run.antt =====
-- Which file a program of lab-02/sh.c has as its input or output.
use laboratorio_valen_el_noo.Base.{
  arith, ℕ, ◌≡◌, refl, ◌∙◌, Bool, true, false, ◌&&◌, Option, none, some, List, [], ◌∷◌, ◌++◌, ◌==◌,
  if◌then◌else◌, find_index, set,
}
use laboratorio_valen_el_noo.Shell.{
  Text, Mode, Cmd, exec_cmd, Redir, redircmd, wrap, Action, close_fd, open_file, execvp, fails,
  not_implemented, exit_with, runcmd, read_only, write_create_trunc,
}
use laboratorio_valen_el_noo.Shell.Print.{Stage, stage_cmd}

-- The descriptors of a process: the file open at each, or none.
abbrev pub Files : Type 0
Files = List (Option Text)

abbrev is_closed : Option Text → Bool
is_closed none = true
is_closed (some f) = false

-- `open` as POSIX has it, once the file can be opened: at the lowest descriptor that is closed.
unfoldable pub open_lowest : Text → Files → Files
open_lowest f ds = elim (find_index is_closed ds) [
  | some i ↦ set ds i (some f)
  | none ↦ ds ++ (some f ∷ [])
]

-- The descriptors after the calls up to `execvp`. `opens` says which files can be opened in which mode;
-- where one cannot, `open` returns -1, which `runcmd` does not look at.
unfoldable pub descriptors : (Text → Mode → Bool) → List Action → Files → Files
descriptors opens [] ds = ds
descriptors opens (close_fd d ∷ rest) ds = descriptors opens rest (set ds d none)
descriptors opens (open_file f m ∷ rest) ds = elim (opens f m) [
  | true ↦ descriptors opens rest (open_lowest f ds)
  | false ↦ descriptors opens rest ds
]
descriptors opens (execvp args ∷ rest) ds = ds
descriptors opens (fails ∷ rest) ds = ds
descriptors opens (not_implemented ∷ rest) ds = descriptors opens rest ds
descriptors opens (exit_with n ∷ rest) ds = ds

-- The first redirection of `fd` in the line, or what is open there.
unfoldable pub first_for : ℕ → List Redir → Text → Text
first_for fd [] x = x
first_for fd ((tok, f) ∷ rs) x =
    let rest = first_for fd rs x in if (if tok == b'<' then 0 else 1) == fd then f else rest

-- Every file of the redirections can be opened, to read or to write.
abbrev pub all_open : (Text → Mode → Bool) → List Redir → Bool
all_open opens [] = true
all_open opens ((tok, f) ∷ rs) =
    opens f (if tok == b'<' then read_only else write_create_trunc) && all_open opens rs

-- One redirection whose file can be opened, of the input or of the output.
redir_to :
    (b : Bool) (opens : Text → Mode → Bool) (f : Text) (acts : List Action) (x y : Text)
    (ds : Files)
    → opens f (if b then read_only else write_create_trunc) ≡ true
    → descriptors opens
        (close_fd (if b then 0 else 1)
          ∷ open_file f (if b then read_only else write_create_trunc)
          ∷ acts)
        (some x ∷ some y ∷ ds)
      ≡ descriptors opens acts (
          some (if (if b then 0 else 1) == 0 then f else x)
          ∷ some (if (if b then 0 else 1) == 1 then f else y)
          ∷ ds)
unfolding descriptors open_lowest
redir_to true opens f acts x y ds h =
    let can : opens f read_only ≡ true = h in rw (descriptors, can) refl
redir_to false opens f acts x y ds h =
    let can : opens f write_create_trunc ≡ true = h in rw (descriptors, can) refl

redir_step :
    (opens : Text → Mode → Bool) (tok : ℕ) (f : Text) (c : Cmd) (x y : Text) (ds : Files)
    → opens f (if tok == b'<' then read_only else write_create_trunc) ≡ true
    → descriptors opens (runcmd (redircmd c f tok)) (some x ∷ some y ∷ ds)
      ≡ descriptors opens
          (runcmd c)
          (some (first_for 0 ((tok, f) ∷ []) x) ∷ some (first_for 1 ((tok, f) ∷ []) y) ∷ ds)
unfolding runcmd redircmd first_for
redir_step opens tok f c x y ds h = redir_to (tok == b'<') opens f (runcmd c) x y ds h

all_open-head :
    (opens : Text → Mode → Bool) (tok : ℕ) (f : Text) (rs : List Redir)
    → all_open opens ((tok, f) ∷ rs) ≡ true
    → (opens f (if tok == b'<' then read_only else write_create_trunc) ≡ true)
      × (all_open opens rs ≡ true)
all_open-head opens tok f rs h = (ground (arith, h), ground (arith, h))

descriptors-wrap :
    (opens : Text → Mode → Bool) (rs : List Redir) (c : Cmd) (x y : Text) (ds : Files)
    → all_open opens rs ≡ true
    → descriptors opens (runcmd (wrap rs c)) (some x ∷ some y ∷ ds)
      ≡ descriptors opens (runcmd c) (some (first_for 0 rs x) ∷ some (first_for 1 rs y) ∷ ds)
unfolding wrap first_for
descriptors-wrap opens [] c x y ds h = refl
descriptors-wrap opens ((tok, f) ∷ rs) c x y ds h =
    let (here, later) = all_open-head opens tok f rs h in
    descriptors-wrap opens rs (redircmd c f tok) x y ds later
    ∙ redir_step opens tok f c (first_for 0 rs x) (first_for 1 rs y) ds here

exec_keeps :
    (opens : Text → Mode → Bool) (args : List Text) (ds : Files)
    → descriptors opens (runcmd (exec_cmd args)) ds ≡ ds
unfolding runcmd descriptors
exec_keeps opens [] ds = refl
exec_keeps opens (a ∷ args) ds = refl

-- A program that `runcmd` starts, with its input and its output open and every file of its redirections
-- one that can be opened, has at each of the two the file of the first redirection of it in the line,
-- since the later ones stand outside and are opened before, and otherwise what was open there; the other
-- descriptors are as they were.
pub runcmd-stage_cmd :
    (opens : Text → Mode → Bool) (s : Stage) (x y : Text) (ds : Files)
    → all_open opens s.redirs ≡ true
    → descriptors opens (runcmd (stage_cmd s)) (some x ∷ some y ∷ ds)
      ≡ some (first_for 0 s.redirs x) ∷ some (first_for 1 s.redirs y) ∷ ds
runcmd-stage_cmd opens s x y ds h =
    descriptors-wrap opens s.redirs (exec_cmd s.args) x y ds h ∙ exec_keeps opens s.args _
