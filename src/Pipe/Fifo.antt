-- ===== src/Pipe/Fifo.antt =====
-- Any number of writers and readers of one pipe (xv6/pipe.c), in any order of their runs.
use laboratorio_valen_el_noo.Base.{
  ℕ, ◌≡◌, refl, sym, ap, ◌∙◌, Bool, true, false, List, [], ◌++◌, length, append_assoc, some, none,
  ◌⊎◌, arith, not, if◌then◌else◌, ◌&&◌, Bool-cases, inl, inr,
}
use mathlib.Core.List.{append_cancel_right}
use laboratorio_valen_el_noo.Pipe.{Pipe, pipesize, setup, pipewrite, piperead, close_end, pipeclose}
use laboratorio_valen_el_noo.Pipe.Inv.{IsValid, contents, setup-IsValid}
use laboratorio_valen_el_noo.Pipe.Stream.{pipewrite-Wrote, piperead_lem}

-- A pipe, with the bytes that writers have handed over and readers have received so far.
pub record Net : Type 0 where
  pub pipe : Pipe
  pub sent : List ℕ
  pub received : List ℕ

-- A run of a writer with bytes `ys ++ rest` left to write, of a reader, or of `pipeclose` that leaves
-- an end open.
pub data Step (s : Net) : Net → Type 0 where
  write :
      (killed : Bool) (n : ℕ) (xs ys : List ℕ)
      → xs ≡ ys ++ (pipewrite killed n s.pipe xs).rest
      → Step s (record s { pipe = (pipewrite killed n s.pipe xs).pipe; sent = s.sent ++ ys })
  read :
      (killed : Bool) (n : ℕ)
      → Step s (record s {
        pipe = (piperead killed n s.pipe).pipe;
        received = s.received ++ (piperead killed n s.pipe).bytes;
      })
  close :
      (writable : Bool) (p : Pipe)
      → (pipeclose writable s.pipe).0 ≡ some p
      → Step s (record s { pipe = p })

pub data Reach (page : List ℕ) : Net → Type 0 where
  start : Reach page (record { pipe = setup page; sent = []; received = [] })
  later : {s t : Net} → Reach page s → Step s t → Reach page t

pub record InOrder (s : Net) : Type 0 where
  pub valid : IsValid s.pipe
  pub balance : s.sent ≡ s.received ++ contents s.pipe

close_end_lem :
    (w : Bool) (p : Pipe)
    → IsValid p
    → IsValid (close_end w p) × (contents (close_end w p) ≡ contents p)
unfolding close_end
close_end_lem true p v = (omega arith, refl)
close_end_lem false p v = (omega arith, refl)

-- `pipeclose` frees the pipe exactly when the other end is closed already; otherwise the pipe stays
-- valid with the same bytes in it, and the given end alone is closed.
pub pipeclose_lem :
    (w : Bool) (p : Pipe)
    → IsValid p
    → (((pipeclose w p).0 ≡ none) × ((if w then p.readopen else p.writeopen) ≡ false))
      ⊎ ((q : Pipe) × ((pipeclose w p).0 ≡ some q)
          × IsValid q
          × (contents q ≡ contents p)
          × (q.writeopen ≡ (p.writeopen && not w))
          × (q.readopen ≡ (p.readopen && w))
          × ((if w then p.readopen else p.writeopen) ≡ true))
unfolding pipeclose close_end
pipeclose_lem true p v = elim (Bool-cases p.readopen) [
  | inl e ↦ inr (
    record p { writeopen = false },
    ground arith,
    omega arith,
    refl,
    ground arith,
    ground arith,
    e,
  )
  | inr e ↦ inl (ground arith, e)
]
pipeclose_lem false p v = elim (Bool-cases p.writeopen) [
  | inl e ↦ inr (
    record p { readopen = false },
    ground arith,
    omega arith,
    refl,
    ground arith,
    ground arith,
    e,
  )
  | inr e ↦ inl (ground arith, e)
]

Step-InOrder : {s t : Net} → Step s t → InOrder s → InOrder t
Step-InOrder {s} (write killed n xs ys e) h =
    let w = pipewrite-Wrote killed n s.pipe xs h.valid in
    let same : ys ≡ w.sent =
      append_cancel_right ys w.sent (pipewrite killed n s.pipe xs).rest (sym e ∙ w.split) in
    record {
      valid = w.valid;
      balance =
          ap (λ l. l ++ ys) h.balance
          ∙ append_assoc s.received (contents s.pipe) ys
          ∙ ap (λ l. s.received ++ l) (ap (λ l. contents s.pipe ++ l) same ∙ sym w.appended);
    }
Step-InOrder {s} (read killed n) h =
    let (v, c, ends) = piperead_lem killed n s.pipe h.valid in
    record {
      valid = v;
      balance =
          h.balance
          ∙ ap (λ l. s.received ++ l) c
          ∙ sym (append_assoc s.received (piperead killed n s.pipe).bytes _);
    }
Step-InOrder {s} (close w p e) h = elim (pipeclose_lem w s.pipe h.valid) [
  | inl freed ↦ absurd (ground (arith, e, freed.0))
  | inr (q, o, v, c, a, b, d) ↦
      let same : p ≡ q = ground (arith, e, o) in
      record {
        valid = rw same v;
        balance = h.balance ∙ ap (λ l. s.received ++ l) (rw same (sym c));
      }
]

-- In every state that runs of writers, readers and closings reach from a fresh pipe, the pipe is
-- valid, and the bytes handed over are those received followed by those in the pipe: none is
-- lost, doubled or overtaken.
pub Reach-InOrder : (page : List ℕ) {s : Net} → length page ≡ pipesize → Reach page s → InOrder s
Reach-InOrder page len start =
    let (v, c) = setup-IsValid page len in record { valid = v; balance = sym c }
Reach-InOrder page len (later r st) = Step-InOrder st (Reach-InOrder page len r)
