-- ===== src/Sim/Unwritten.antt =====
-- The undefined behaviour of lab-07/sim.c: `rem_memory` read before it is written.
use laboratorio_valen_el_noo.Base.{
  ℕ, zero, suc, ◌≡◌, refl, inl, inr, false, ◌&&◌, none, some, List, arith, ltb, ◌==◌, length,
  find_index, ℤ, pos, negsuc, Option-cases, Bool-cases,
}
use laboratorio_valen_el_noo.Sim.{
  Memory, Frame, Policy, Outcome, next, exited, fault, int_max, num_max, tam_secondary, holds,
  is_free, is_full, key, counter, count_up, scan_min, touch, put_primary, put_secondary, evict,
  store_victim, bring, resolve, modify_process, place_page, ◌>>=◌,
}
use laboratorio_valen_el_noo.Sim.Victim.{AllGe, AllGe-get_elem?, scan_min_lem}
use laboratorio_valen_el_noo.Sim.Inv.{free_of_running}

-- A step that does not end the program, and leaves secondary memory as it was.
abbrev Leaves : List Frame → Outcome Memory → Type 0
Leaves fs (next t) = t.secondary ≡ fs
Leaves fs (exited t) = ⊥
Leaves fs fault = Unit {0}

place_page-Leaves : (p q : ℤ) (i : ℕ) (m : Memory) → Leaves m.secondary (place_page p q i m)
unfolding place_page
place_page-Leaves (pos p) (pos (suc q)) i m =
    elim (Bool-cases (ltb p (length m.processes) && ltb q 16)) [
      | inl e ↦ rw e refl
      | inr e ↦ rw e tt
    ]
place_page-Leaves (pos p) (pos zero) i m = tt
place_page-Leaves (pos p) (negsuc q) i m = tt
place_page-Leaves (negsuc p) q i m = tt

put_primary-Leaves :
    (pol : Policy) (cont : ℕ) (pid page : ℤ) (m : Memory)
    → Leaves m.secondary (put_primary pol cont pid page m)
unfolding put_primary count_up
put_primary-Leaves pol cont pid page m =
    elim (Option-cases (find_index (λ f. key pol f == cont) m.primary)) [
      | inl e ↦ rw (e, put_primary) refl
      | inr (i, e) ↦ elim (Bool-cases (ltb (counter pol m) int_max)) [
        | inl r ↦ rw (e, put_primary) (rw (r, count_up) (place_page-Leaves pid page i _))
        | inr r ↦ rw (e, put_primary) (rw (r, count_up) tt)
      ]
    ]

-- The scan finds nothing below NUM_MAX.
scan_min-none :
    (pol : Policy) (fs : List Frame)
    → AllGe pol num_max fs
    → scan_min pol num_max none fs ≡ (num_max, none)
scan_min-none pol fs ge = elim (scan_min_lem pol num_max none fs) [
  | inl h ↦ h.0
  | inr v ↦
      absurd (omega (arith, v.small, AllGe-get_elem? pol fs num_max v.index v.frame ge v.at_index))
]

evict_unwritten :
    (pol : Policy) (pid page : ℤ) (m : Memory)
    → is_full m ≡ false
    → AllGe pol num_max m.primary
    → length m.secondary ≡ tam_secondary
    → evict pol pid page m ≡ fault
unfolding evict store_victim put_secondary
evict_unwritten pol pid page m run ge len =
    rw (scan_min-none pol m.primary ge)
      (go (put_primary pol num_max pid page m) (put_primary-Leaves pol num_max pid page m))
  where
    go : (o : Outcome Memory) → Leaves m.secondary o → (o >>= store_victim pol none) ≡ fault
    go (next t) h =
        let (j, e) = free_of_running m len run in
        let e1 : find_index is_free t.secondary ≡ some j = rw h e in rw (e1, store_victim)
    go (exited t) h = absurd h
    go fault h = refl

-- Once every frame of primary memory is stamped NUM_MAX or later, in the field that the policy
-- compares, a request for a page that is in neither memory, while primary memory is full and
-- the program still runs, always meets undefined behaviour: no frame passes the test of the
-- scan, and `rem_memory` is read without a value.
pub modify_process_unwritten :
    (pol : Policy) (pid page : ℤ) (m : Memory)
    → is_full m ≡ false
    → length m.secondary ≡ tam_secondary
    → find_index is_free m.primary ≡ none
    → AllGe pol num_max m.primary
    → find_index (holds pid page) m.primary ≡ none
    → find_index (holds pid page) m.secondary ≡ none
    → modify_process pol pid page m ≡ fault
unfolding modify_process touch resolve bring
modify_process_unwritten pol pid page m run len full ge e1 e2 =
    rw (e1, e2, touch) (rw (full, bring) (rw (evict_unwritten pol pid page m run ge len)))
