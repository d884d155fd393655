-- ===== src/Uthread/Tests.antt =====
-- xv6/uthreadlib.c with two threads.
use laboratorio_valen_el_noo.Base.{◌≡◌, refl, ◌∷◌, replicate}
use laboratorio_valen_el_noo.Uthread.{
  free, running, runnable, Threads, goes_on, find_next, thread_schedule, thread_create,
  thread_yield, thread_exit, thread_init,
}
use laboratorio_valen_el_noo.Uthread.Inv.{
  IsValid, Ends, Creates, Reach, here, later, creates, hands_over, calls-IsValid,
}

-- `main` has created two threads and handed over to the first.
abbrev pair : Threads
pair = record { all = running ∷ running ∷ runnable ∷ replicate 5 free; current = 1 }

abbrev one_created : Threads
one_created = record { all = running ∷ runnable ∷ replicate 6 free; current = 0 }

abbrev two_created : Threads
two_created = record { all = running ∷ runnable ∷ runnable ∷ replicate 5 free; current = 0 }

begun : Reach thread_init pair
unfolding thread_init thread_create thread_schedule find_next
begun =
    later (later (later here (creates {u = one_created} refl)) (creates {u = two_created} refl))
      (hands_over refl refl)

second_runs :
    thread_yield pair
    ≡ goes_on (record { all = running ∷ runnable ∷ running ∷ replicate 5 free; current = 2 })
unfolding thread_yield thread_schedule find_next
second_runs = refl

calls-IsValid_example :
    IsValid pair
    × ((u : Threads) × (thread_yield pair ≡ goes_on u) × IsValid u)
    × Ends (thread_exit pair)
    × (pair.current ≡ 0 → Ends (thread_schedule pair))
    × Creates pair
calls-IsValid_example = calls-IsValid pair begun
