-- ===== src/Buffer/Main.antt =====
-- `main` of lab-05/buf.c after it has created the threads: it destroys the mutex and the semaphores, at
-- any time between the calls of the threads. A call on an object that is destroyed is undefined, and so is
-- the destruction of a mutex that is held or of a semaphore that a thread waits for.
use laboratorio_valen_el_noo.Base.{
  ℕ, suc, ◌+◌, ◌*◌, ◌≤◌, ◌≡◌, refl, Bool, true, false, Option, none, some, List, length, ltb, ◌&&◌,
  ◌==◌, if◌then◌else◌, arith, ℤ,
}
use laboratorio_valen_el_noo.Buffer.{
  Place, waiting, locking, copying, unlocking, posting, finished, Run, produce, consume, Reach,
  here, produced_on, consumed_on, start,
}
use laboratorio_valen_el_noo.Buffer.Inv.{numbers}
use laboratorio_valen_el_noo.Buffer.Progress.{steps, thread_runs}

pub data Object : Type 0 where
  the_mutex the_lleno the_vacio : Object

-- The next call of `main`: `pthread_mutex_destroy`, the two of `sem_destroy`, and `pthread_exit`.
pub data MainPlace : Type 0 where
  at_mutex at_lleno at_vacio at_exit : MainPlace

unfoldable pub is_gone : Object → MainPlace → Bool
is_gone o at_mutex = false
is_gone the_mutex at_lleno = true
is_gone the_lleno at_lleno = false
is_gone the_vacio at_lleno = false
is_gone the_mutex at_vacio = true
is_gone the_lleno at_vacio = true
is_gone the_vacio at_vacio = false
is_gone o at_exit = true

-- The object of the next call of the producer, and of the consumer.
unfoldable pub used_by_producer : Place → Run → Option Object
used_by_producer waiting r = if ltb r.produced r.items then some the_vacio else none
used_by_producer locking r = some the_mutex
used_by_producer copying r = none
used_by_producer unlocking r = some the_mutex
used_by_producer posting r = some the_lleno
used_by_producer finished r = none

unfoldable pub used_by_consumer : Place → Run → Option Object
used_by_consumer waiting r = if ltb r.consumed r.items then some the_lleno else none
used_by_consumer locking r = some the_mutex
used_by_consumer copying r = none
used_by_consumer unlocking r = some the_mutex
used_by_consumer posting r = some the_vacio
used_by_consumer finished r = none

pub is_object : Object → Option Object → Bool
is_object the_mutex (some the_mutex) = true
is_object the_lleno (some the_lleno) = true
is_object the_vacio (some the_vacio) = true
is_object _ _ = false

unfoldable pub is_undefined : Option Object → MainPlace → Bool
is_undefined none m = false
is_undefined (some o) m = is_gone o m

-- A thread holds the mutex, or waits for the semaphore, that `main` is about to destroy; a thread that
-- is to wait for it next counts as one that does.
unfoldable pub is_busy : MainPlace → Run → Bool
is_busy at_mutex r = r.locked
is_busy at_lleno r = is_object the_lleno (used_by_consumer r.cons r) && r.lleno == 0
is_busy at_vacio r = is_object the_vacio (used_by_producer r.prod r) && r.vacio == 0
is_busy at_exit r = false

pub record Program : Type 0 where
  pub run : Run
  pub main : MainPlace

unfoldable pub destroy : MainPlace → Option MainPlace
destroy at_mutex = some at_lleno
destroy at_lleno = some at_vacio
destroy at_vacio = some at_exit
destroy at_exit = none

pub data Outcome : Type 0 where
  goes_on : Program → Outcome
  undefined : Outcome

-- The steps of the two threads and of `main`, in any order.
pub data Leads (p : Program) : Outcome → Type 0 where
  begun : Leads p (goes_on p)
  producer_on :
      {q : Program} {r : Run}
      → Leads p (goes_on q)
      → is_undefined (used_by_producer q.run.prod q.run) q.main ≡ false
      → produce q.run ≡ some r
      → Leads p (goes_on (record q { run = r }))
  consumer_on :
      {q : Program} {r : Run}
      → Leads p (goes_on q)
      → is_undefined (used_by_consumer q.run.cons q.run) q.main ≡ false
      → consume q.run ≡ some r
      → Leads p (goes_on (record q { run = r }))
  main_on :
      {q : Program} {m : MainPlace}
      → Leads p (goes_on q)
      → is_busy q.main q.run ≡ false
      → destroy q.main ≡ some m
      → Leads p (goes_on (record q { main = m }))
  producer_fails :
      {q : Program}
      → Leads p (goes_on q)
      → is_undefined (used_by_producer q.run.prod q.run) q.main ≡ true
      → Leads p undefined
  consumer_fails :
      {q : Program}
      → Leads p (goes_on q)
      → is_undefined (used_by_consumer q.run.cons q.run) q.main ≡ true
      → Leads p undefined
  main_fails : {q : Program} → Leads p (goes_on q) → is_busy q.main q.run ≡ true → Leads p undefined

abbrev pub calls : {p : Program} {o : Outcome} → Leads p o → ℕ
calls begun = 0
calls (producer_on run d e) = suc (calls run)
calls (consumer_on run d e) = suc (calls run)
calls (main_on run d e) = suc (calls run)
calls (producer_fails run d) = suc (calls run)
calls (consumer_fails run d) = suc (calls run)
calls (main_fails run d) = suc (calls run)

-- How many calls `main` has made.
abbrev made : MainPlace → ℕ
made at_mutex = 0
made at_lleno = 1
made at_vacio = 2
made at_exit = 3

destroy-made : (m w : MainPlace) → destroy m ≡ some w → made w ≡ suc (made m)
unfolding destroy
destroy-made at_mutex w e = ground (arith, e)
destroy-made at_lleno w e = ground (arith, e)
destroy-made at_vacio w e = ground (arith, e)
destroy-made at_exit w e = absurd (ground (arith, e))

-- What the threads do in a run of the program that goes on.
threads_of :
    {p q : Program} (run : Leads p (goes_on q))
    → (r : Reach p.run q.run) × (calls run + made p.main ≡ steps r + made q.main)
threads_of begun = (here, refl)
threads_of (producer_on run d e) =
    let (r, n) = threads_of run in (produced_on r e, omega (arith, n))
threads_of (consumer_on run d e) =
    let (r, n) = threads_of run in (consumed_on r e, omega (arith, n))
threads_of (main_on {q} {m} run d e) =
    let (r, n) = threads_of run in (r, omega (arith, n, destroy-made q.main m e))

made_le : (m : MainPlace) → made m ≤ 3
made_le at_mutex = omega arith
made_le at_lleno = omega arith
made_le at_vacio = omega arith
made_le at_exit = omega arith

-- From a start of the program with a buffer of the size asked for, whatever the order in which the two
-- threads run and `main` destroys the mutex and the semaphores: as long as no thread has made a call on an
-- object destroyed before, and none was destroyed in use, what the consumer has read is 0, 1, 2 and so on, without a gap; at most `size`
-- items are produced and not consumed; and at most 10 calls are made for each item, and five more; and
-- if then neither thread can go on, the consumer has read all the items.
pub buffer_runs :
    (s n : ℤ) (mem : List ℕ) (r : Run) (q : Program)
    → start s n mem ≡ some r
    → length mem ≡ r.size
    → (run : Leads (record { run = r; main = at_mutex }) (goes_on q))
    → (q.run.results ≡ numbers (length q.run.results))
      × (q.run.produced ≤ q.run.consumed + r.size)
      × (calls run ≤ 10 * r.items + 5)
      × (produce q.run ≡ none → consume q.run ≡ none → q.run.results ≡ numbers r.items)
buffer_runs s n mem r q e len run =
    let (threads, count) = threads_of run in
    let (read, room, bound, ended) = thread_runs s n mem r q.run e len threads in
    (read, room, omega (arith, count, bound, made_le q.main), ended)
