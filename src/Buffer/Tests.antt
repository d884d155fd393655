-- ===== src/Buffer/Tests.antt =====
-- A run of lab-05/buf.c with a buffer of one slot.
use laboratorio_valen_el_noo.Base.{◌+◌, ◌*◌, ◌≤◌, ◌≡◌, refl, none, [], ◌∷◌, pos, false}
use laboratorio_valen_el_noo.Buffer.{
  Run, waiting, posting, produce, produce_at, consume, consume_at, start,
}
use laboratorio_valen_el_noo.Buffer.Inv.{numbers}
use laboratorio_valen_el_noo.Buffer.Main.{
  Program, Leads, begun, producer_on, consumer_on, main_on, producer_fails, goes_on, undefined,
  at_mutex, at_lleno, destroy, used_by_producer, used_by_consumer, is_undefined, is_gone, is_busy,
  main_fails, calls, buffer_runs,
}

abbrev begun_run : Run
begun_run = record {
  size = 1;
  items = 2;
  buf = 9 ∷ [];
  vacio = 1;
  lleno = 0;
  locked = false;
  prod = waiting;
  produced = 0;
  cons = waiting;
  consumed = 0;
  results = [];
}

-- The producer has stored item 0, and the consumer has read it.
abbrev handed_over : Run
handed_over = record begun_run {
  buf = 0 ∷ [];
  vacio = 0;
  prod = waiting;
  produced = 1;
  cons = posting;
  results = 0 ∷ [];
}

abbrev before : Program
before = record { run = begun_run; main = at_mutex }

-- `main` destroys the mutex while the consumer is in its last call of the round.
nine_calls : Leads before (goes_on (record { run = handed_over; main = at_lleno }))
unfolding produce produce_at consume consume_at destroy used_by_producer used_by_consumer
    is_undefined is_gone is_busy
nine_calls =
    let locked = producer_on (producer_on begun refl refl) refl refl in
    let stored = producer_on (producer_on locked refl refl) refl refl in
    let posted = producer_on stored refl refl in
    let read = consumer_on (consumer_on (consumer_on posted refl refl) refl refl) refl refl in
    main_on (consumer_on read refl refl) refl refl

-- The producer goes on to the next item, and takes the mutex that is gone.
undefined_use : Leads (record { run = begun_run; main = at_mutex }) undefined
unfolding produce produce_at destroy used_by_producer is_undefined is_gone is_busy
undefined_use = producer_fails (main_on (producer_on begun refl refl) refl refl) refl

-- The mutex is destroyed while the producer holds it.
destroyed_held : Leads before undefined
unfolding produce produce_at used_by_producer is_undefined is_gone is_busy
destroyed_held = main_fails (producer_on (producer_on begun refl refl) refl refl) refl

buffer_runs_example :
    (handed_over.results ≡ numbers 1)
    × (handed_over.produced ≤ handed_over.consumed + 1)
    × (calls nine_calls ≤ 10 * 2 + 5)
    × (produce handed_over ≡ none → consume handed_over ≡ none → handed_over.results ≡ numbers 2)
unfolding start
buffer_runs_example =
    buffer_runs (pos 1) (pos 2) (9 ∷ []) begun_run (record { run = handed_over; main = at_lleno })
      refl refl nine_calls
