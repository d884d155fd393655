-- ===== src/Sim/Safety.antt =====
-- The properties of `modify_process` of lab-07/sim.c.
use laboratorio_valen_el_noo.Base.{
  ℕ, ◌<◌, ◌≡◌, refl, ap, inl, inr, Bool, true, false, none, some, arith, count, count_pos,
  find_index, find_index-some, find_index-none, ℤ, Option-cases, Bool-cases,
}
use laboratorio_valen_el_noo.Sim.{
  Memory, Policy, next, int_max, holds, is_free, is_full, counter, touch, bring, resolve,
  modify_process, ◌>>=◌,
}
use laboratorio_valen_el_noo.Sim.Inv.{in_range, resident, IsValid, free_of_running}
use laboratorio_valen_el_noo.Sim.Request.{Brought}
use laboratorio_valen_el_noo.Sim.Modify.{
  Touched, touch_lem, fill_frame_lem, evict_lem, exchange_lem, HasVictim, Ensures,
}

-- `modify_process` from its two parts and the test at its end.
finish :
    (P : Memory → Type 0) (pol : Policy) (pid page : ℤ) (hit : Bool) (m m1 t : Memory)
    → touch pid page m ≡ next (hit, m1)
    → resolve pol pid page hit (find_index (holds pid page) m.secondary) m1 ≡ next t
    → P t
    → Ensures P (modify_process pol pid page m)
unfolding modify_process
finish P pol pid page hit m m1 t e1 e2 h = elim (Bool-cases (is_full t)) [
  | inl f ↦ rw (e1, ◌>>=◌) (rw (e2, ◌>>=◌) (rw f (h, f)))
  | inr f ↦ rw (e1, ◌>>=◌) (rw (e2, ◌>>=◌) (rw f (h, f)))
]

bring_lem :
    (pol : Policy) (pid page : ℤ) (m : Memory)
    → IsValid m
    → is_full m ≡ false
    → in_range pid page ≡ true
    → resident pid page m ≡ 0
    → HasVictim pol m
    → m.cont_fifo < int_max
    → m.cont_lru < int_max
    → (t : Memory) × (bring pol pid page m ≡ next t) × Brought pid page m t
unfolding bring
bring_lem pol pid page m v run ok absent w a b =
    elim (Option-cases (find_index is_free m.primary)) [
      | inr (i, e) ↦ rw (e, bring) (fill_frame_lem pid page i m v ok absent e a b)
      | inl e ↦
          let (j, f) = free_of_running m v.slots run in
          rw (e, bring) (evict_lem pol pid page j m v ok absent e f w (below pol))
    ]
  where
    below : (q : Policy) → counter q m < int_max
    below Policy.fifo = a
    below Policy.lru = b

-- A request for a page that the tables have room for, in a valid state in which the program still
-- runs, some frame of primary memory is stamped below NUM_MAX and the counters have not reached
-- INT_MAX, meets no undefined behaviour, and the program ends exactly when the last frame of
-- secondary memory is taken. The new state is valid, holds the page in exactly one frame of
-- primary memory, and holds every other page as often as before: none is lost or doubled.
pub modify_process-Brought :
    (pol : Policy) (pid page : ℤ) (m : Memory)
    → IsValid m
    → is_full m ≡ false
    → in_range pid page ≡ true
    → HasVictim pol m
    → m.cont_fifo < int_max
    → m.cont_lru < int_max
    → Ensures (Brought pid page m) (modify_process pol pid page m)
unfolding resolve
modify_process-Brought pol pid page m v run ok w a b =
    let (hit, m1, e, seen) = touch_lem pid page m v b in
    elim (Option-cases (find_index (holds pid page) m.secondary)) [
      | inr (j, q) ↦ in_secondary hit m1 e seen j q
      | inl q ↦ not_in_secondary hit m1 e seen q
    ]
  where
    below : (q : Policy) → counter q m < int_max
    below Policy.fifo = a
    below Policy.lru = b

    in_secondary :
        (hit : Bool) (m1 : Memory)
        → touch pid page m ≡ next (hit, m1)
        → Touched pid page m hit m1
        → (j : ℕ) → find_index (holds pid page) m.secondary ≡ some j
        → Ensures (Brought pid page m) (modify_process pol pid page m)
    in_secondary true m1 e seen j q =
        let (f, at_j, h) = find_index-some (holds pid page) m.secondary j q in
        absurd (
          omega (
            arith,
            seen.on_hit refl,
            count_pos (holds pid page) m.secondary j f at_j h,
            seen.valid.single pid page ok,
            ap (count (holds pid page)) seen.secondary,
          ))
    in_secondary false m1 e seen j q =
        let (t, r, done) = exchange_lem pol pid page j m v ok q w (below pol) in
        finish (Brought pid page m) pol pid page false m m t (rw (seen.on_miss refl).0 at e)
          (rw (q, resolve) r) done

    not_in_secondary :
        (hit : Bool) (m1 : Memory)
        → touch pid page m ≡ next (hit, m1)
        → Touched pid page m hit m1
        → find_index (holds pid page) m.secondary ≡ none
        → Ensures (Brought pid page m) (modify_process pol pid page m)
    not_in_secondary true m1 e seen q =
        finish (Brought pid page m) pol pid page true m m1 m1 e (rw (q, resolve)) (record {
          valid = seen.valid;
          present = omega (arith, seen.on_hit refl, seen.valid.single pid page ok);
          kept = λ p q h ne. seen.same p q;
        })
    not_in_secondary false m1 e seen q =
        let absent : resident pid page m ≡ 0 =
          omega (arith, (seen.on_miss refl).1, find_index-none (holds pid page) m.secondary q) in
        let (t, r, done) = bring_lem pol pid page m v run ok absent w a b in
        finish (Brought pid page m) pol pid page false m m t (rw (seen.on_miss refl).0 at e)
          (rw (q, resolve) r) done
