-- ===== src/Buffer/Progress.antt =====
-- No schedule of the two threads of lab-05/buf.c gets stuck, and none goes on for ever.
use laboratorio_valen_el_noo.Base.{
  ℕ, zero, suc, ◌+◌, ◌*◌, ◌≤◌, ◌≡◌, refl, sym, ap, ◌∙◌, none, some, List, [], ◌∷◌, length,
  length-append, arith, ℤ, pos, negsuc,
}
use laboratorio_valen_el_noo.Buffer.{
  Place, waiting, locking, copying, unlocking, posting, finished, Run, produce, produce_at, consume,
  consume_at, Reach, here, produced_on, consumed_on, start,
}
use laboratorio_valen_el_noo.Buffer.Inv.{in_flight, accessed, ended, numbers, Counts, IsValid}
use laboratorio_valen_el_noo.Buffer.Steps.{Reach-IsValid, start-IsValid}

-- Steps made in the present round, and in a thread.
abbrev rank : Place → ℕ
rank waiting = 0
rank locking = 1
rank copying = 2
rank unlocking = 3
rank posting = 4
rank finished = 1

abbrev progress : Run → ℕ
progress r = 5 * r.produced + rank r.prod + 5 * r.consumed + rank r.cons

abbrev pub steps : {r t : Run} → Reach r t → ℕ
steps here = 0
steps (produced_on run e) = suc (steps run)
steps (consumed_on run e) = suc (steps run)

produce_at-progress :
    (p : Place) (r t : Run)
    → produce_at p (record r { prod = p }) ≡ some t
    → progress t ≡ suc (progress (record r { prod = p }))
unfolding produce_at
produce_at-progress waiting r t e = ground (arith, e)
produce_at-progress locking r t e = ground (arith, e)
produce_at-progress copying r t e = ground (arith, e)
produce_at-progress unlocking r t e = ground (arith, e)
produce_at-progress posting r t e = ground (arith, e)
produce_at-progress finished r t e = absurd (ground (arith, e))

consume_at-progress :
    (p : Place) (r t : Run)
    → consume_at p (record r { cons = p }) ≡ some t
    → progress t ≡ suc (progress (record r { cons = p }))
unfolding consume_at
consume_at-progress waiting r t e = ground (arith, e)
consume_at-progress locking r t e = ground (arith, e)
consume_at-progress copying r t e = ground (arith, e)
consume_at-progress unlocking r t e = ground (arith, e)
consume_at-progress posting r t e = ground (arith, e)
consume_at-progress finished r t e = absurd (ground (arith, e))

steps-progress : {r t : Run} (run : Reach r t) → progress t ≡ progress r + steps run
unfolding produce consume
steps-progress here = omega arith
steps-progress (produced_on {s} {t} run e) =
    omega (arith, produce_at-progress s.prod s t e, steps-progress run)
steps-progress (consumed_on {s} {t} run e) =
    omega (arith, consume_at-progress s.cons s t e, steps-progress run)

rank_bound :
    (p : Place) (n m : ℕ) → in_flight p + n ≤ m → (ended p ≡ 1 → m ≤ n) → 5 * n + rank p ≤ 5 * m + 1
rank_bound waiting n m h k = omega arith
rank_bound locking n m h k = omega arith
rank_bound copying n m h k = omega arith
rank_bound unlocking n m h k = omega arith
rank_bound posting n m h k = omega arith
rank_bound finished n m h k = omega arith

-- If both threads block, both have finished.
stuck_at :
    (p q : Place) (r : Run)
    → Counts (record r { prod = p; cons = q })
    → produce_at p (record r { prod = p; cons = q }) ≡ none
    → consume_at q (record r { prod = p; cons = q }) ≡ none
    → (p ≡ finished) × (q ≡ finished)
unfolding produce_at consume_at
stuck_at copying q r c h k = absurd (ground (arith, h))
stuck_at unlocking q r c h k = absurd (ground (arith, h))
stuck_at posting q r c h k = absurd (ground (arith, h))
stuck_at waiting copying r c h k = absurd (ground (arith, k))
stuck_at waiting unlocking r c h k = absurd (ground (arith, k))
stuck_at waiting posting r c h k = absurd (ground (arith, k))
stuck_at waiting waiting r c h k = absurd (ground (arith, h, k, c))
stuck_at waiting locking r c h k = absurd (ground (arith, h, k, c))
stuck_at waiting finished r c h k = absurd (ground (arith, h, k, c))
stuck_at locking copying r c h k = absurd (ground (arith, k))
stuck_at locking unlocking r c h k = absurd (ground (arith, k))
stuck_at locking posting r c h k = absurd (ground (arith, k))
stuck_at locking waiting r c h k = absurd (ground (arith, h, k, c))
stuck_at locking locking r c h k = absurd (ground (arith, h, k, c))
stuck_at locking finished r c h k = absurd (ground (arith, h, k, c))
stuck_at finished copying r c h k = absurd (ground (arith, k))
stuck_at finished unlocking r c h k = absurd (ground (arith, k))
stuck_at finished posting r c h k = absurd (ground (arith, k))
stuck_at finished waiting r c h k = absurd (ground (arith, h, k, c))
stuck_at finished locking r c h k = absurd (ground (arith, h, k, c))
stuck_at finished finished r c h k = (refl, refl)

-- The parameters stay.
abbrev Same : Run → Run → Type 0
Same r t = (t.size ≡ r.size) × (t.items ≡ r.items)

produce_at-Same : (p : Place) (r t : Run) → produce_at p r ≡ some t → Same r t
unfolding produce_at
produce_at-Same waiting r t e = ground (arith, e)
produce_at-Same locking r t e = ground (arith, e)
produce_at-Same copying r t e = ground (arith, e)
produce_at-Same unlocking r t e = ground (arith, e)
produce_at-Same posting r t e = ground (arith, e)
produce_at-Same finished r t e = absurd (ground (arith, e))

consume_at-Same : (p : Place) (r t : Run) → consume_at p r ≡ some t → Same r t
unfolding consume_at
consume_at-Same waiting r t e = ground (arith, e)
consume_at-Same locking r t e = ground (arith, e)
consume_at-Same copying r t e = ground (arith, e)
consume_at-Same unlocking r t e = ground (arith, e)
consume_at-Same posting r t e = ground (arith, e)
consume_at-Same finished r t e = absurd (ground (arith, e))

Reach-Same : {r t : Run} → Reach r t → Same r t
unfolding produce consume
Reach-Same here = (refl, refl)
Reach-Same (produced_on {s} {t} run e) =
    ground (arith, Reach-Same run, produce_at-Same s.prod s t e)
Reach-Same (consumed_on {s} {t} run e) =
    ground (arith, Reach-Same run, consume_at-Same s.cons s t e)

start-progress : (s n : ℤ) (mem : List ℕ) (r : Run) → start s n mem ≡ some r → progress r ≡ 0
unfolding start
start-progress (pos (suc s)) (pos (suc n)) mem r e = ground (arith, e)
start-progress (pos (suc s)) (pos zero) mem r e = absurd (ground (arith, e))
start-progress (pos (suc s)) (negsuc n) mem r e = absurd (ground (arith, e))
start-progress (pos zero) n mem r e = absurd (ground (arith, e))
start-progress (negsuc s) n mem r e = absurd (ground (arith, e))

length-numbers : (n : ℕ) → length (numbers n) ≡ n
length-numbers zero = refl
length-numbers (suc n) = omega (arith, length-append (numbers n) (n ∷ []), length-numbers n)

-- When both threads have finished, every item has been read.
all_read :
    (r : Run) (p q : Place)
    → IsValid r
    → r.prod ≡ p
    → r.cons ≡ q
    → p ≡ finished
    → q ≡ finished
    → r.results ≡ numbers r.items
all_read r p q v a b c d =
    let at_q : r.cons ≡ finished = b ∙ d in
    let low : r.items ≤ r.consumed = v.counts.8 (ap ended at_q) in
    let none_yet : accessed r.cons ≡ 0 = ap accessed at_q in
    let count : r.consumed + accessed r.cons ≡ r.items = omega (arith, v.counts.6, none_yet) in
    v.read ∙ ap numbers count

-- The two threads, while the mutex and the semaphores are there.
pub thread_runs :
    (s n : ℤ) (mem : List ℕ) (r t : Run)
    → start s n mem ≡ some r
    → length mem ≡ r.size
    → (run : Reach r t)
    → (t.results ≡ numbers (length t.results))
      × (t.produced ≤ t.consumed + r.size)
      × (steps run ≤ 10 * r.items + 2)
      × (produce t ≡ none → consume t ≡ none → t.results ≡ numbers r.items)
unfolding produce consume
thread_runs s n mem r t e len run =
    let v = Reach-IsValid (start-IsValid s n mem r e len) run in
    let (size, items) = Reach-Same run in
    let count = ap length v.read ∙ length-numbers (t.consumed + accessed t.cons) in
    let rank_prod = rank_bound t.prod t.produced t.items v.counts.5 v.counts.7 in
    let rank_cons = rank_bound t.cons t.consumed t.items v.counts.6 v.counts.8 in
    (
      v.read ∙ ap numbers (sym count),
      omega (arith, v.counts.2, size),
      omega (arith, steps-progress run, start-progress s n mem r e, rank_prod, rank_cons, items),
      λ h k.
          let (c, d) = stuck_at t.prod t.cons t v.counts h k in
          all_read t t.prod t.cons v refl refl c d ∙ ap numbers items,
    )
