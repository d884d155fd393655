-- ===== src/Pipe/Tests.antt =====
-- Runs on a small pipe, and the theorems of the pipe at concrete states.
use laboratorio_valen_el_noo.Base.{
  ℕ, ◌≡◌, ◌⊎◌, refl, true, false, List, [], ◌∷◌, ◌++◌, length, replicate, length-replicate, some,
  none, not, ◌&&◌, if◌then◌else◌, pos,
}
use laboratorio_valen_el_noo.Pipe.{
  Pipe, pipesize, setup, pipewrite, piperead, copy_out, count_bytes, is_full, is_empty, put, front,
  advance, returned, close_end, pipeclose,
}
use laboratorio_valen_el_noo.Pipe.Inv.{IsValid, contents, setup-IsValid}
use laboratorio_valen_el_noo.Pipe.Stream.{Wrote, pipewrite-Wrote, ReadEnds, piperead_lem}
use laboratorio_valen_el_noo.Pipe.Fifo.{write, start, later, InOrder, Reach-InOrder, pipeclose_lem}

abbrev page : List ℕ
page = replicate pipesize 0

page-length : length page ≡ pipesize
page-length = length-replicate {A = ℕ} pipesize 0

fresh-IsValid : IsValid (setup page)
fresh-IsValid = (setup-IsValid page page-length).0

pipewrite-Wrote_example :
    Wrote false 2 (setup page) (7 ∷ 8 ∷ []) (pipewrite false 2 (setup page) (7 ∷ 8 ∷ []))
pipewrite-Wrote_example = pipewrite-Wrote false 2 (setup page) (7 ∷ 8 ∷ []) fresh-IsValid

piperead_lem_example :
    IsValid (piperead false 4 (setup page)).pipe
    × (contents (setup page)
        ≡ (piperead false 4 (setup page)).bytes ++ contents (piperead false 4 (setup page)).pipe)
    × ReadEnds false 4 (setup page) (piperead false 4 (setup page))
piperead_lem_example = piperead_lem false 4 (setup page) fresh-IsValid

pipeclose_lem_example :
    (((pipeclose true (setup page)).0 ≡ none)
      × ((if true then (setup page).readopen else (setup page).writeopen) ≡ false))
    ⊎ ((q : Pipe) × ((pipeclose true (setup page)).0 ≡ some q)
        × IsValid q
        × (contents q ≡ contents (setup page))
        × (q.writeopen ≡ ((setup page).writeopen && not true))
        × (q.readopen ≡ ((setup page).readopen && true))
        × ((if true then (setup page).readopen else (setup page).writeopen) ≡ true))
pipeclose_lem_example = pipeclose_lem true (setup page) fresh-IsValid

-- A writer hands over 7 and 8, and a reader takes one byte.
two_in : Pipe
two_in = (pipewrite false 2 (setup page) (7 ∷ 8 ∷ [])).pipe

one_out : (piperead false 1 two_in).bytes ≡ 7 ∷ []
unfolding two_in piperead pipewrite put is_full is_empty copy_out front advance setup
one_out = refl

after_close : (piperead false 9 (close_end true two_in)).status ≡ returned (pos 2)
unfolding two_in piperead pipewrite put is_full is_empty copy_out count_bytes front advance setup
    close_end
after_close = refl

Reach-InOrder_example : InOrder (record { pipe = two_in; sent = 7 ∷ 8 ∷ []; received = [] })
unfolding two_in pipewrite put is_full setup
Reach-InOrder_example =
    Reach-InOrder page page-length (later start (write false 2 (7 ∷ 8 ∷ []) (7 ∷ 8 ∷ []) no_rest))
  where
    no_rest : 7 ∷ 8 ∷ [] ≡ 7 ∷ 8 ∷ (pipewrite false 2 (setup page) (7 ∷ 8 ∷ [])).rest
    no_rest = refl
