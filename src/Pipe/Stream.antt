-- ===== src/Pipe/Stream.antt =====
-- Pipes as byte streams: what runs of `pipewrite` and `piperead` (xv6/pipe.c) do to the queue, and
-- any interleaving of them.
use laboratorio_valen_el_noo.Base.{
  ℕ, zero, suc, ◌<◌, ◌≡◌, ◌≢◌, refl, sym, ap, ◌∙◌, ◌⊎◌, inl, inr, Bool, true, false, ◌||◌, not,
  List, [], ◌∷◌, ◌++◌, arith, length, append-nil, append_assoc, min, pos, minus_one, Bool-cases,
  if◌then◌else◌, ◌&&◌,
}
use laboratorio_valen_el_noo.Pipe.{
  Pipe, returned, asleep, readers, writers, pipesize, is_full, is_empty, put, front, advance,
  WriteRun, pipewrite, ReadRun, piperead, copy_out, count_bytes,
}
use laboratorio_valen_el_noo.Pipe.Inv.{
  IsValid, level, contents, put-IsValid, contents-put, level_empty, level_full, contents-advance,
}

-- How a run of `pipewrite` may end: with all bytes written and the readers woken; with -1, on a full
-- pipe, only if no reader is left or the process is killed; or asleep on a full pipe, with the
-- readers woken first.
abbrev pub WriteEnds : Bool → ℕ → WriteRun → Type 0
WriteEnds killed n r =
    ((r.status ≡ returned (pos n)) × (r.rest ≡ []) × (r.woken ≡ readers ∷ []))
    ⊎ ((r.status ≡ returned minus_one)
        × (level r.pipe ≡ pipesize)
        × ((not r.pipe.readopen || killed) ≡ true))
    ⊎ ((r.status ≡ asleep writers)
        × (level r.pipe ≡ pipesize)
        × (r.rest ≢ [])
        × (r.woken ≡ readers ∷ [])
        × (r.pipe.readopen ≡ true))

pub record Wrote (killed : Bool) (n : ℕ) (p : Pipe) (xs : List ℕ) (r : WriteRun) : Type 0 where
  pub valid : IsValid r.pipe
  pub sent : List ℕ
  pub split : xs ≡ sent ++ r.rest
  pub appended : contents r.pipe ≡ contents p ++ sent
  pub ends : WriteEnds killed n r

-- A run of `pipewrite` on a valid pipe keeps it valid and appends to the queue a first part of the
-- bytes, in order; the rest is what it still has to write. It ends in one of three ways: all bytes
-- are written, the result is `n` and the readers are woken; the pipe is full and the read end is
-- closed or the process killed, and the result is -1; or the pipe is full, the read end open, and
-- it sleeps with bytes left, after waking the readers.
pub pipewrite-Wrote :
    (killed : Bool) (n : ℕ) (p : Pipe) (xs : List ℕ)
    → IsValid p
    → Wrote killed n p xs (pipewrite killed n p xs)
unfolding pipewrite
pipewrite-Wrote killed n p [] v = record {
  valid = v;
  sent = [];
  split = refl;
  appended = sym (append-nil (contents p));
  ends = inl (refl, refl, refl);
}
pipewrite-Wrote killed n p (x ∷ xs) v = elim (Bool-cases (is_full p)) [
  | inl e ↦ rw (e, pipewrite) (stuck (Bool-cases (not p.readopen || killed)) (level_full p v e))
  | inr e ↦
      let w = pipewrite-Wrote killed n (put p x) xs (put-IsValid x v e) in
      rw (e, pipewrite)
        (record {
          valid = w.valid;
          sent = x ∷ w.sent;
          split = ap (λ l. x ∷ l) w.split;
          appended =
              w.appended
              ∙ ap (λ l. l ++ w.sent) (contents-put p x v e)
              ∙ append_assoc (contents p) (x ∷ []) w.sent;
          ends = w.ends;
        })
]
  where
    stuck :
        (((not p.readopen || killed) ≡ true) ⊎ ((not p.readopen || killed) ≡ false))
        → level p ≡ pipesize
        → Wrote killed n p (x ∷ xs) (
            if not p.readopen || killed
            then record { status = returned minus_one; rest = x ∷ xs; pipe = p; woken = [] }
            else record { status = asleep writers; rest = x ∷ xs; pipe = p; woken = readers ∷ [] })
    stuck (inl e) full = rw e (record {
      valid = v;
      sent = [];
      split = refl;
      appended = sym (append-nil (contents p));
      ends = inr (inl (refl, full, e));
    })
    stuck (inr e) full = rw e (record {
      valid = v;
      sent = [];
      split = refl;
      appended = sym (append-nil (contents p));
      ends = inr (inr (refl, full, (λ h. cc), refl, ground arith));
    })

copy_out_lem :
    (n : ℕ) (p : Pipe)
    → IsValid p
    → IsValid (copy_out n p).1
      × (contents p ≡ (copy_out n p).0 ++ contents (copy_out n p).1)
      × (count_bytes (copy_out n p).0 ≡ min n (level p))
unfolding copy_out count_bytes
copy_out_lem zero p v = (v, refl, omega arith)
copy_out_lem (suc n) p v = elim (Bool-cases (is_empty p)) [
  | inl e ↦ rw (e, copy_out) (v, refl, omega (arith, level_empty p v e))
  | inr e ↦
      let (v', c, l) = contents-advance p v e in
      let (a, b, d) = copy_out_lem n (advance p) v' in
      rw (e, copy_out) (a, c ∙ ap (λ z. front p ∷ z) b, omega (arith, d, l))
]

-- How a run of `piperead` may end: with -1, on an empty pipe with a writer left, only if the process
-- is killed; asleep on such a pipe; or with as many bytes as there are, `n` at most.
abbrev pub ReadEnds : Bool → ℕ → Pipe → ReadRun → Type 0
ReadEnds killed n p r =
    ((r.status ≡ returned minus_one)
      × (level p ≡ 0)
      × (p.writeopen ≡ true)
      × (killed ≡ true)
      × (r.bytes ≡ []))
    ⊎ ((r.status ≡ asleep readers) × (level p ≡ 0) × (p.writeopen ≡ true) × (r.bytes ≡ []))
    ⊎ ((r.status ≡ returned (pos (min n (level p))))
        × (length r.bytes ≡ min n (level p))
        × ((0 < level p) ⊎ (p.writeopen ≡ false))
        × (r.woken ≡ writers ∷ []))

count_bytes-eq-length : (xs : List ℕ) → count_bytes xs ≡ length xs
unfolding count_bytes
count_bytes-eq-length [] = refl
count_bytes-eq-length (x ∷ xs) = ap suc (count_bytes-eq-length xs)

nonempty : (p : Pipe) → IsValid p → is_empty p ≡ false → 0 < level p
nonempty p v e = omega (arith, (contents-advance p v e).2)

some_bytes :
    (p : Pipe)
    → IsValid p
    → (is_empty p && p.writeopen) ≡ false
    → (0 < level p) ⊎ (p.writeopen ≡ false)
some_bytes p v h = elim (Bool-cases (is_empty p)) [
  | inl e ↦ inr (ground (arith, e))
  | inr e ↦ inl (nonempty p v e)
]

-- A run of `piperead` on a valid pipe keeps it valid and takes a first part of the queue, in order.
-- It fails with -1 only if the process is killed, sleeps only on an empty pipe with a writer left,
-- and otherwise returns `n` or all bytes there are, whichever is less, and wakes the writers; so 0
-- for `n` above 0 is returned only if no writer is left.
pub piperead_lem :
    (killed : Bool) (n : ℕ) (p : Pipe)
    → IsValid p
    → IsValid (piperead killed n p).pipe
      × (contents p ≡ (piperead killed n p).bytes ++ contents (piperead killed n p).pipe)
      × ReadEnds killed n p (piperead killed n p)
unfolding piperead
piperead_lem killed n p v = elim (Bool-cases (is_empty p && p.writeopen)) [
  | inl e ↦ rw e (elim (Bool-cases killed) [
    | inl k ↦ rw k (v, refl, inl (refl, level_empty p v (ground arith), ground arith, refl, refl))
    | inr k ↦ rw k (v, refl, inr (inl (refl, level_empty p v (ground arith), ground arith, refl)))
  ])
  | inr e ↦
      let (a, b, c) = copy_out_lem n p v in
      let l : length (copy_out n p).0 ≡ min n (level p) =
        sym (count_bytes-eq-length (copy_out n p).0) ∙ c in
      rw e (a, b, inr (inr (ap (λ z. returned (pos z)) c, l, some_bytes p v e, refl)))
]
