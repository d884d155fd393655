-- ===== src/Log/Space.antt =====
-- Room in the log (xv6/log.c): `begin_op` admits operations so that `log_write` finds a free entry.
use laboratorio_valen_el_noo.Base.{
  ℕ, zero, suc, ◌+◌, ◌*◌, ◌≤◌, ◌<◌, ◌≡◌, ◌⊎◌, inl, inr, refl, Bool, true, false, some, List, [],
  ◌∷◌, ◌++◌, ◌==◌, if◌then◌else◌, length, length-append, count, count-append, lt_of_get_elem?, ◌∙◌,
  get_elem?, set, arith, ltb, Bool-cases,
}
use laboratorio_valen_el_noo.Log.{
  Dev, Log, ok, max_op_blocks, log_size, mem, begin_op, end_op, end_commit, log_write, commit,
  cleared, update, panic,
}

-- The operations under way, each with the number of blocks that it may still write.
abbrev pub Quotas : Type 0
Quotas = List ℕ

abbrev pub total : Quotas → ℕ
total [] = 0
total (q ∷ qs) = q + total qs

abbrev pub remove_at : Quotas → ℕ → Quotas
remove_at [] i = []
remove_at (q ∷ qs) zero = qs
remove_at (q ∷ qs) (suc i) = q ∷ remove_at qs i

total-set :
    (qs : Quotas) (i q : ℕ) → get_elem? qs i ≡ some (suc q) → suc (total (set qs i q)) ≡ total qs
total-set [] i q h = absurd (ground arith)
total-set (x ∷ qs) zero q h = ground arith
total-set (x ∷ qs) (suc i) q h = omega (arith, total-set qs i q h)

length-set' : (qs : Quotas) (i q : ℕ) → length (set qs i q) ≡ length qs
length-set' [] i q = refl
length-set' (x ∷ qs) zero q = refl
length-set' (x ∷ qs) (suc i) q = omega (arith, length-set' qs i q)

total-remove_at : (qs : Quotas) (i : ℕ) → total (remove_at qs i) ≤ total qs
total-remove_at [] i = omega arith
total-remove_at (x ∷ qs) zero = omega arith
total-remove_at (x ∷ qs) (suc i) = omega (arith, total-remove_at qs i)

length-remove_at :
    (qs : Quotas) (i q : ℕ) → get_elem? qs i ≡ some q → suc (length (remove_at qs i)) ≡ length qs
length-remove_at [] i q h = absurd (ground arith)
length-remove_at (x ∷ qs) zero q h = omega arith
length-remove_at (x ∷ qs) (suc i) q h = omega (arith, length-remove_at qs i q h)

pub record System : Type 0 where
  pub log : Log
  pub dev : Dev
  pub quotas : Quotas

-- What processes do: begin an operation, write a block in operation `i`, end operation `i`, and
-- finish the commit that the end of the last one has begun.
pub data Step (s : System) : System → Type 0 where
  begin :
      (l : Log)
      → begin_op s.log ≡ some l
      → Step s (record s { log = l; quotas = max_op_blocks ∷ s.quotas })
  write :
      (i q b : ℕ) (l : Log) (d : Dev)
      → get_elem? s.quotas i ≡ some (suc q)
      → log_write b s.log s.dev ≡ ok (l, d)
      → Step s (record { log = l; dev = d; quotas = set s.quotas i q })
  finish :
      (i q : ℕ) (last : Bool) (l : Log)
      → get_elem? s.quotas i ≡ some q
      → end_op s.log ≡ ok (last, l)
      → Step s (record s { log = l; quotas = remove_at s.quotas i })
  committed :
      s.log.committing ≡ true
      → Step s (record s { log = (end_commit s.log s.dev).0; dev = (end_commit s.log s.dev).1 })

pub data Reach (s : System) : System → Type 0 where
  here : Reach s s
  later : {t u : System} → Reach s t → Step t u → Reach s u

-- No operation may write more than MAXOPBLOCKS blocks.
abbrev pub Capped : Quotas → Type 0
Capped [] = Unit {0}
Capped (q ∷ qs) = (q ≤ max_op_blocks) × Capped qs

total-Capped : (qs : Quotas) → Capped qs → total qs ≤ length qs * max_op_blocks
total-Capped [] c = omega arith
total-Capped (q ∷ qs) c = omega (arith, c.0, total-Capped qs c.1)

Capped-set :
    (qs : Quotas) (i q : ℕ) → get_elem? qs i ≡ some (suc q) → Capped qs → Capped (set qs i q)
Capped-set [] i q h c = tt
Capped-set (x ∷ qs) zero q h c = (ground (arith, c.0), c.1)
Capped-set (x ∷ qs) (suc i) q h c = (c.0, Capped-set qs i q h c.1)

Capped-remove_at : (qs : Quotas) (i : ℕ) → Capped qs → Capped (remove_at qs i)
Capped-remove_at [] i c = tt
Capped-remove_at (x ∷ qs) zero c = c.1
Capped-remove_at (x ∷ qs) (suc i) c = (c.0, Capped-remove_at qs i c.1)

-- How often a block stands in the log.
abbrev pub times : ℕ → List ℕ → ℕ
times b bs = count (λ x. x == b) bs

times-not_mem : (b : ℕ) (bs : List ℕ) → mem b bs ≡ false → times b bs ≡ 0
unfolding mem
times-not_mem b [] h = refl
times-not_mem b (x ∷ bs) h = ground (arith, times-not_mem b bs)

times-mem : (b : ℕ) (bs : List ℕ) → mem b bs ≡ true → 0 < times b bs
unfolding mem
times-mem b [] h = cc
times-mem b (x ∷ bs) h = ground (arith, times-mem b bs)

same_times : (b x : ℕ) (bs : List ℕ) → (b == x) ≡ true → times x bs ≡ times b bs
same_times b x bs h = let e : b ≡ x = ground arith in rw e

times_of_empty : (b : ℕ) (bs : List ℕ) → length bs ≡ 0 → times b bs ≤ 1
times_of_empty b [] h = omega arith
times_of_empty b (x ∷ bs) h = absurd (omega arith)

pub record Fits (s : System) : Type 0 where
  pub counted : s.log.outstanding ≡ length s.quotas
  pub capped : Capped s.quotas
  pub room : length s.log.blocks + total s.quotas ≤ log_size
  pub alone : s.log.committing ≡ true → s.log.outstanding ≡ 0
  pub distinct : (b : ℕ) → times b s.log.blocks ≤ 1

begin_op-Fits :
    (s : System) (l : Log)
    → Fits s
    → begin_op s.log ≡ some l
    → Fits (record s { log = l; quotas = max_op_blocks ∷ s.quotas })
unfolding begin_op
begin_op-Fits s l f e = record {
  counted = ground (arith, f.counted);
  capped = (omega arith, f.capped);
  room = ground (arith, total-Capped s.quotas f.capped, f.counted, f.room);
  alone = λ c. ground arith;
  distinct = λ b. ground (arith, f.distinct b);
}

log_write-Fits :
    (s : System) (i q b : ℕ) (l : Log) (d : Dev)
    → Fits s
    → get_elem? s.quotas i ≡ some (suc q)
    → log_write b s.log s.dev ≡ ok (l, d)
    → Fits (record { log = l; dev = d; quotas = set s.quotas i q })
unfolding log_write
log_write-Fits s i q b l d f h e = record {
  counted = ground (arith, length-set' s.quotas i q);
  capped = Capped-set s.quotas i q h f.capped;
  room = ground (arith, total-set s.quotas i q h, length-append s.log.blocks (b ∷ []));
  alone = λ c. ground (arith, f.alone);
  distinct = λ x. ground (
    arith,
    f.distinct x,
    count-append (λ y. y == x) s.log.blocks (b ∷ []),
    times-not_mem b s.log.blocks,
    same_times b x s.log.blocks,
  );
}

end_op-Fits :
    (s : System) (i q : ℕ) (last : Bool) (l : Log)
    → Fits s
    → get_elem? s.quotas i ≡ some q
    → end_op s.log ≡ ok (last, l)
    → Fits (record s { log = l; quotas = remove_at s.quotas i })
unfolding end_op
end_op-Fits s i q last l f h e = record {
  counted = ground (arith, length-remove_at s.quotas i q h);
  capped = Capped-remove_at s.quotas i f.capped;
  room = ground (arith, total-remove_at s.quotas i);
  alone = λ c. ground arith;
  distinct = λ x. ground (arith, f.distinct x);
}

commit_lem :
    (l : Log) (d : Dev)
    → (length (commit l d).0.blocks ≡ 0) × ((commit l d).0.outstanding ≡ l.outstanding)
unfolding commit cleared
commit_lem l d = ground arith

end_commit-Fits :
    (s : System)
    → Fits s
    → s.log.committing ≡ true
    → Fits (record s { log = (end_commit s.log s.dev).0; dev = (end_commit s.log s.dev).1 })
unfolding end_commit
end_commit-Fits s f c = record {
  counted = (commit_lem s.log s.dev).1 ∙ f.counted;
  capped = f.capped;
  room =
      omega
        (arith, (commit_lem s.log s.dev).0, total-Capped s.quotas f.capped, f.counted, f.alone c);
  alone = λ h. cc;
  distinct = λ x. times_of_empty x (commit s.log s.dev).0.blocks (commit_lem s.log s.dev).0;
}

Step-Fits : {s t : System} → Fits s → Step s t → Fits t
Step-Fits {s} f (begin l e) = begin_op-Fits s l f e
Step-Fits {s} f (write i q b l d h e) = log_write-Fits s i q b l d f h e
Step-Fits {s} f (finish i q last l h e) = end_op-Fits s i q last l f h e
Step-Fits {s} f (committed c) = end_commit-Fits s f c

-- However processes begin operations, write blocks within their quotas, end operations and commit,
-- the blocks logged and those that the operations under way may still write are at most LOGSIZE
-- together, no block is logged twice, `outstanding` counts the operations under way, and none is
-- under way during a commit; so from any state in which this holds.
pub Reach-Fits : {s t : System} → Fits s → Reach s t → Fits t
Reach-Fits f here = f
Reach-Fits f (later r st) = Step-Fits (Reach-Fits f r) st

-- A call that finds room logs one more block at most.
pub log_write_admits :
    (b : ℕ) (l : Log) (d : Dev)
    → 0 < l.outstanding
    → length l.blocks < log_size
    → suc (length l.blocks) < l.size
    → (l1 : Log) × (d1 : Dev) × (log_write b l d ≡ ok (l1, d1))
      × (length l1.blocks ≤ suc (length l.blocks))
      × (l1.size ≡ l.size)
      × (l1.outstanding ≡ l.outstanding)
unfolding log_write
log_write_admits b l d under_way low disk =
    let bs : List ℕ = if mem b l.blocks then l.blocks else l.blocks ++ (b ∷ []) in
    (
      record l { blocks = bs },
      record d { dirty = update d.dirty b true },
      ground (arith, under_way, low, disk),
      ground (arith, length-append l.blocks (b ∷ [])),
      refl,
      refl,
    )

-- In such a state an operation with quota left may call `log_write` with any block, with a log of
-- LOGSIZE blocks on disk, its header with them, as mkfs makes it: below LOGSIZE - 1 blocks the call does
-- not panic, the block is then logged exactly once, and its buffer is dirty, so that the cache keeps it;
-- and otherwise LOGSIZE - 1 blocks are logged, and the call panics, although `begin_op` let the
-- operation in.
pub log_write-admitted :
    (s : System) (i q b : ℕ)
    → Fits s
    → get_elem? s.quotas i ≡ some (suc q)
    → s.log.size ≡ log_size
    → ((suc (length s.log.blocks) < log_size)
        × ((l : Log) × (d : Dev) × (log_write b s.log s.dev ≡ ok (l, d))
            × (times b l.blocks ≡ 1)
            × (d.dirty b ≡ true)))
      ⊎ ((suc (length s.log.blocks) ≡ log_size) × (log_write b s.log s.dev ≡ panic))
unfolding log_write
log_write-admitted s i q b f h disk =
    let at_most : suc (length s.log.blocks) ≤ log_size =
      omega (arith, f.room, total-set s.quotas i q h) in
    let bs : List ℕ = if mem b s.log.blocks then s.log.blocks else s.log.blocks ++ (b ∷ []) in
    elim (Bool-cases (ltb (suc (length s.log.blocks)) log_size)) [
      | inl below ↦ inl (
        ground (arith, below),
        (
          record s.log { blocks = bs },
          record s.dev { dirty = update s.dev.dirty b true },
          ground (arith, f.counted, below, disk, lt_of_get_elem? s.quotas i (suc q) h),
          ground (
            arith,
            f.distinct b,
            times-mem b s.log.blocks,
            times-not_mem b s.log.blocks,
            count-append (λ x. x == b) s.log.blocks (b ∷ []),
          ),
          ground arith,
        ),
      )
      | inr full ↦ inr (ground (arith, full, at_most), ground (arith, full, disk))
    ]
