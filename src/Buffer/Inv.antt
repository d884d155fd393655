-- ===== src/Buffer/Inv.antt =====
-- What holds between the calls of lab-05/buf.c, and the slots of the buffer.
use laboratorio_valen_el_noo.Base.{
  ℕ, zero, suc, ◌+◌, ◌/◌, ◌%◌, ◌≤◌, ◌<◌, ◌≡◌, ◌≢◌, List, [], ◌∷◌, ◌++◌, get_or, length, arith,
  dec_lt, to_ℕ,
}
use native.Mathlib.Nat.{mul-le-mul_left, mul-add, div-add-mod}
use laboratorio_valen_el_noo.Buffer.{
  Place, waiting, locking, copying, unlocking, posting, finished, Run,
}

-- Between `sem_wait` and `sem_post`.
abbrev pub in_flight : Place → ℕ
in_flight waiting = 0
in_flight locking = 1
in_flight copying = 1
in_flight unlocking = 1
in_flight posting = 1
in_flight finished = 0

-- After the access to the buffer.
abbrev pub accessed : Place → ℕ
accessed waiting = 0
accessed locking = 0
accessed copying = 0
accessed unlocking = 1
accessed posting = 1
accessed finished = 0

-- Between `pthread_mutex_lock` and `pthread_mutex_unlock`.
abbrev pub holding : Place → ℕ
holding waiting = 0
holding locking = 0
holding copying = 1
holding unlocking = 1
holding posting = 0
holding finished = 0

abbrev pub ended : Place → ℕ
ended waiting = 0
ended locking = 0
ended copying = 0
ended unlocking = 0
ended posting = 0
ended finished = 1

-- The numbers from 0 up to `n`.
abbrev pub numbers : ℕ → List ℕ
numbers zero = []
numbers (suc n) = numbers n ++ (n ∷ [])

-- The semaphores count free and full slots, the mutex is held by one thread at most, and no thread
-- goes past the last item.
abbrev pub Counts : Run → Type 0
Counts r =
    (0 < r.size)
    × (length r.buf ≡ r.size)
    × (r.vacio + in_flight r.prod + r.produced ≡ r.size + r.consumed)
    × (r.lleno + in_flight r.cons + r.consumed ≡ r.produced)
    × (holding r.prod + holding r.cons ≡ to_ℕ r.locked)
    × (in_flight r.prod + r.produced ≤ r.items)
    × (in_flight r.cons + r.consumed ≤ r.items)
    × (ended r.prod ≡ 1 → r.items ≤ r.produced)
    × (ended r.cons ≡ 1 → r.items ≤ r.consumed)

-- The slots from `consumed` on hold the items not consumed, and the consumer has read the items in
-- order.
pub record IsValid (r : Run) : Type 0 where
  pub counts : Counts r
  pub slots :
      (j : ℕ) → r.consumed ≤ j → j < r.produced + accessed r.prod → get_or r.buf (j % r.size) 0 ≡ j
  pub read : r.results ≡ numbers (r.consumed + accessed r.cons)

suc_le : {a b : ℕ} → a < b → a + 1 ≤ b
suc_le h = omega arith

not_lt : {a b : ℕ} → ¬ (a < b) → b ≤ a
not_lt h = omega arith

-- Two items less than `s` apart are in different slots.
pub mod_ne : (s a b : ℕ) → a < b → b < a + s → a % s ≢ b % s
mod_ne s a b h k e = elim (dec_lt (a / s) (b / s)) [
  | yes p ↦ omega (
    arith,
    mul-le-mul_left s (suc_le p),
    mul-add s (a / s) 1,
    div-add-mod a s,
    div-add-mod b s,
    e,
  )
  | no p ↦ omega (arith, mul-le-mul_left s (not_lt p), div-add-mod a s, div-add-mod b s, e)
]
