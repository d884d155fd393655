-- ===== src/Buffer/Steps.antt =====
-- The steps of lab-05/buf.c keep its state valid: what the consumer reads is what was produced, in
-- order, and the two threads never block each other for good.
use laboratorio_valen_el_noo.Base.{
  ℕ, zero, suc, ◌+◌, ◌-◌, ◌%◌, ◌≤◌, ◌<◌, ◌≡◌, refl, sym, ap, ap₂, ◌∙◌, true, false, inl, inr, some,
  List, [], ◌∷◌, ◌++◌, ltb, get_or, set, length, arith, dec_lt, get_or-set_self, get_or-set_ne,
  length-set, Bool-cases, ℤ, pos, negsuc,
}
use native.Mathlib.Nat.{mod-lt}
use laboratorio_valen_el_noo.Buffer.{
  Place, waiting, locking, copying, unlocking, posting, finished, Run, produce, produce_at, consume,
  consume_at, Reach, here, produced_on, consumed_on, start,
}
use laboratorio_valen_el_noo.Buffer.Inv.{numbers, IsValid, mod_ne}

-- The producer's store fills the slot of its item and no other that is full.
store_slots :
    (r : Run)
    → IsValid (record r { prod = copying })
    → (j : ℕ) → r.consumed ≤ j
    → j < r.produced + 1
    → get_or (set r.buf (r.produced % r.size) r.produced) (j % r.size) 0 ≡ j
store_slots r v j h k = elim (dec_lt j r.produced) [
  | yes lt ↦
      get_or-set_ne r.buf (r.produced % r.size) (j % r.size) r.produced 0
        (λ q. mod_ne r.size j r.produced lt (omega (arith, v.counts.2)) (sym q))
      ∙ v.slots j h (omega arith)
  | no ge ↦
      let e : j ≡ r.produced = omega arith in
      rw e (
        get_or-set_self r.buf (r.produced % r.size) r.produced 0
          (omega (arith, v.counts.1, mod-lt r.produced v.counts.0)))
]

produce_at-IsValid :
    (p : Place) (r t : Run)
    → produce_at p (record r { prod = p }) ≡ some t
    → IsValid (record r { prod = p })
    → IsValid t
unfolding produce_at
produce_at-IsValid waiting r t e v = elim (Bool-cases (ltb r.produced r.items)) [
  | inr end ↦
      let same : t ≡ record r { prod = finished } = ground (arith, e) in
      rw same (record { counts = ground (arith, v.counts); slots = v.slots; read = v.read })
  | inl more ↦
      let same : t ≡ record r { vacio = r.vacio - 1; prod = locking } = ground (arith, e) in
      rw same (record { counts = ground (arith, e, v.counts); slots = v.slots; read = v.read })
]
produce_at-IsValid locking r t e v =
    let same : t ≡ record r { locked = true; prod = copying } = ground (arith, e) in
    rw same (record { counts = ground (arith, e, v.counts); slots = v.slots; read = v.read })
produce_at-IsValid copying r t e v =
    let same : t ≡ record r { buf = set r.buf (r.produced % r.size) r.produced; prod = unlocking } =
      ground (arith, e) in
    rw same (record {
      counts = ground (arith, v.counts, length-set r.buf (r.produced % r.size) r.produced);
      slots = store_slots r v;
      read = v.read;
    })
produce_at-IsValid unlocking r t e v =
    let same : t ≡ record r { locked = false; prod = posting } = ground (arith, e) in
    rw same (record { counts = ground (arith, v.counts); slots = v.slots; read = v.read })
produce_at-IsValid posting r t e v =
    let same : t ≡ record r { lleno = r.lleno + 1; produced = r.produced + 1; prod = waiting } =
      ground (arith, e) in
    rw same (record {
      counts = ground (arith, v.counts);
      slots = λ j h k. v.slots j h (omega arith);
      read = v.read;
    })
produce_at-IsValid finished r t e v = absurd (ground (arith, e))

numbers-add : (n : ℕ) → numbers (n + 1) ≡ numbers n ++ (n ∷ [])
numbers-add n = let e : n + 1 ≡ suc n = omega arith in ap numbers e

consume_at-IsValid :
    (p : Place) (r t : Run)
    → consume_at p (record r { cons = p }) ≡ some t
    → IsValid (record r { cons = p })
    → IsValid t
unfolding consume_at
consume_at-IsValid waiting r t e v = elim (Bool-cases (ltb r.consumed r.items)) [
  | inr end ↦
      let same : t ≡ record r { cons = finished } = ground (arith, e) in
      rw same (record { counts = ground (arith, v.counts); slots = v.slots; read = v.read })
  | inl more ↦
      let same : t ≡ record r { lleno = r.lleno - 1; cons = locking } = ground (arith, e) in
      rw same (record { counts = ground (arith, e, v.counts); slots = v.slots; read = v.read })
]
consume_at-IsValid locking r t e v =
    let same : t ≡ record r { locked = true; cons = copying } = ground (arith, e) in
    rw same (record { counts = ground (arith, e, v.counts); slots = v.slots; read = v.read })
consume_at-IsValid copying r t e v =
    let x = get_or r.buf (r.consumed % r.size) 0 in
    let same : t ≡ record r { results = r.results ++ (x ∷ []); cons = unlocking } =
      ground (arith, e) in
    let none_yet : r.consumed + 0 ≡ r.consumed = omega arith in
    let old : r.results ≡ numbers r.consumed = v.read ∙ ap numbers none_yet in
    let new : x ≡ r.consumed = v.slots r.consumed (omega arith) (omega (arith, v.counts.3)) in
    rw same (record {
      counts = ground (arith, v.counts);
      slots = v.slots;
      read = ap₂ (λ l n. l ++ (n ∷ [])) old new ∙ sym (numbers-add r.consumed);
    })
consume_at-IsValid unlocking r t e v =
    let same : t ≡ record r { locked = false; cons = posting } = ground (arith, e) in
    rw same (record { counts = ground (arith, v.counts); slots = v.slots; read = v.read })
consume_at-IsValid posting r t e v =
    let same : t ≡ record r { vacio = r.vacio + 1; consumed = r.consumed + 1; cons = waiting } =
      ground (arith, e) in
    let passed : r.consumed + 1 ≡ r.consumed + 1 + 0 = omega arith in
    rw same (record {
      counts = ground (arith, v.counts);
      slots = λ j h k. v.slots j (omega arith) k;
      read = v.read ∙ ap numbers passed;
    })
consume_at-IsValid finished r t e v = absurd (ground (arith, e))

pub Reach-IsValid : {r t : Run} → IsValid r → Reach r t → IsValid t
unfolding produce consume
Reach-IsValid v here = v
Reach-IsValid v (produced_on {s} {t} run e) = produce_at-IsValid s.prod s t e (Reach-IsValid v run)
Reach-IsValid v (consumed_on {s} {t} run e) = consume_at-IsValid s.cons s t e (Reach-IsValid v run)

pub start-IsValid :
    (s n : ℤ) (mem : List ℕ) (r : Run) → start s n mem ≡ some r → length mem ≡ r.size → IsValid r
unfolding start
start-IsValid (pos (suc s)) (pos (suc n)) mem r e len =
    let same : r ≡ record {
      size = suc s;
      items = suc n;
      buf = mem;
      vacio = suc s;
      lleno = 0;
      locked = false;
      prod = waiting;
      produced = 0;
      cons = waiting;
      consumed = 0;
      results = [];
    } =
      ground (arith, e) in
    rw same (record {
      counts = ground (arith, e, len);
      slots = λ j h k. absurd (omega arith);
      read = refl;
    })
start-IsValid (pos (suc s)) (pos zero) mem r e len = absurd (ground (arith, e))
start-IsValid (pos (suc s)) (negsuc n) mem r e len = absurd (ground (arith, e))
start-IsValid (pos zero) n mem r e len = absurd (ground (arith, e))
start-IsValid (negsuc s) n mem r e len = absurd (ground (arith, e))
