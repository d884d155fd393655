-- ===== src/Sim/Request.antt =====
-- What one request does to the memory of lab-07/sim.c.
use laboratorio_valen_el_noo.Base.{
  ℕ, ◌+◌, ◌≤◌, ◌<◌, ◌≡◌, refl, inl, inr, Bool, true, false, ◌&&◌, some, arith, to_ℕ, ap, ◌∙◌,
  get_elem?, find_index, ◌==◌, get_elem?-modify_self, Bool-cases, modify, length, count, count_pos,
  count-modify, length-modify, ℤ, int_eq, int_eq_iff, int_eq_refl,
}
use laboratorio_valen_el_noo.Sim.{
  Memory, Frame, Policy, next, int_max, max_process, holds, is_free, key, put_key, counter,
  put_counter, count_up, put_primary, put_secondary,
}
use laboratorio_valen_el_noo.Sim.Inv.{
  in_range, is_bad, resident, IsValid, place_page_lem, not_free_of_in_range, holds_free,
  in_range_of_good,
}

-- The frame that `put_primary` writes.
abbrev pub newcomer : Policy → ℤ → ℤ → Memory → Frame → Frame
newcomer pol pid page m f = put_key pol (counter pol m) (record f { process = pid; page = page })

abbrev pub moved_out : Policy → Frame → Frame → Frame
moved_out pol r f = put_key pol (key pol r) (record f { process = r.process; page = r.page })

pub record PutPrimary (pol : Policy) (pid page : ℤ) (i : ℕ) (m t : Memory) : Type 0 where
  pub primary : t.primary ≡ modify m.primary i (newcomer pol pid page m)
  pub secondary : t.secondary ≡ m.secondary
  pub tables : length t.processes ≡ length m.processes

pub put_primary_lem :
    (pol : Policy) (pid page : ℤ) (cont i : ℕ) (m : Memory)
    → find_index (λ f. key pol f == cont) m.primary ≡ some i
    → in_range pid page ≡ true
    → length m.processes ≡ max_process
    → counter pol m < int_max
    → (t : Memory) × (put_primary pol cont pid page m ≡ next t) × PutPrimary pol pid page i m t
unfolding put_primary count_up
put_primary_lem pol pid page cont i m found ok len room =
    let m1 : Memory =
      put_counter pol (counter pol m + 1)
        (record m { primary = modify m.primary i (newcomer pol pid page m) }) in
    let (ps, e, l) = place_page_lem pid page i m1 ok len in
    (
      record m1 { processes = ps },
      ground (arith, found, e),
      record { primary = refl; secondary = refl; tables = l },
    )

pub record PutSecondary (pol : Policy) (r : Frame) (j : ℕ) (m t : Memory) : Type 0 where
  pub primary : t.primary ≡ m.primary
  pub secondary : t.secondary ≡ modify m.secondary j (moved_out pol r)
  pub tables : length t.processes ≡ length m.processes
  pub counters : (t.cont_fifo ≡ m.cont_fifo) × (t.cont_lru ≡ m.cont_lru)

pub put_secondary_lem :
    (pol : Policy) (r : Frame) (j : ℕ) (m : Memory)
    → in_range r.process r.page ≡ true
    → length m.processes ≡ max_process
    → (t : Memory) × (put_secondary pol (some r) j m ≡ next t) × PutSecondary pol r j m t
unfolding put_secondary
put_secondary_lem pol r j m ok len =
    let m1 : Memory = record m { secondary = modify m.secondary j (moved_out pol r) } in
    let (ps, e, l) = place_page_lem r.process r.page j m1 ok len in
    (
      record m1 { processes = ps },
      e,
      record { primary = refl; secondary = refl; tables = l; counters = (refl, refl) },
    )

-- What a request for a page achieves, if the program goes on or ends by itself.
pub record Brought (pid page : ℤ) (m t : Memory) : Type 0 where
  pub valid : IsValid t
  pub present : count (holds pid page) t.primary ≡ 1
  pub kept :
      (p q : ℤ)
      → in_range p q ≡ true
      → (int_eq pid p && int_eq page q) ≡ false
      → resident p q t ≡ resident p q m

pub same_page :
    (pid page p q : ℤ) (m : Memory)
    → (int_eq pid p && int_eq page q) ≡ true
    → resident p q m ≡ resident pid page m
same_page pid page p q m h =
    let a : pid ≡ p = ground (arith, int_eq_iff pid p) in
    let b : page ≡ q = ground (arith, int_eq_iff page q) in rw (a, b)

-- The victim `r` at `i` moves to frame `j` of secondary memory, and the page takes its place. `b` is
-- what stood at `j`.
module _ (pol : Policy) (pid page : ℤ) (c m t : Memory) (i j : ℕ) (r b : Frame) (v : IsValid m)
    (ok : in_range pid page ≡ true) (full : count is_free m.primary ≡ 0)
    (at_i : get_elem? m.primary i ≡ some r) (at_j : get_elem? m.secondary j ≡ some b)
    (eq_p : t.primary ≡ modify m.primary i (newcomer pol pid page c))
    (eq_s : t.secondary ≡ modify m.secondary j (moved_out pol r))
    (eq_t : length t.processes ≡ length m.processes) where
  used : is_free r ≡ false
  used = ground (arith, count_pos is_free m.primary i r at_i)

  pub r_ok : in_range r.process r.page ≡ true
  r_ok = in_range_of_good m.primary i r v.primary_good at_i used

  primary_count :
      (p : Frame → Bool)
      → count p t.primary + to_ℕ (p r) ≡ count p m.primary + to_ℕ (p (newcomer pol pid page c r))
  primary_count p = rw eq_p (count-modify p m.primary i (newcomer pol pid page c) r at_i)

  secondary_count :
      (p : Frame → Bool)
      → count p t.secondary + to_ℕ (p b) ≡ count p m.secondary + to_ℕ (p (moved_out pol r b))
  secondary_count p = rw eq_s (count-modify p m.secondary j (moved_out pol r) b at_j)

  swapped_present : 0 < count (holds pid page) t.primary
  swapped_present = rw eq_p (
      count_pos (holds pid page) _ i (newcomer pol pid page c r)
        (get_elem?-modify_self m.primary i (newcomer pol pid page c) r at_i)
        (rw (int_eq_refl pid, int_eq_refl page)))

  not_free : is_free (newcomer pol pid page c r) ≡ false
  not_free = not_free_of_in_range (newcomer pol pid page c r) ok

  swapped_good : (count is_bad t.primary ≡ 0) × (count is_bad t.secondary ≡ 0)
  swapped_good = (
    ground (arith, primary_count is_bad, v.primary_good),
    ground (arith, secondary_count is_bad, r_ok, v.secondary_good),
  )

  swapped_full : count is_free t.primary ≡ 0
  swapped_full = ground (arith, primary_count is_free, not_free)

  swapped-IsValid : ((p q : ℤ) → in_range p q ≡ true → resident p q t ≤ 1) → IsValid t
  swapped-IsValid single = record {
    tables = eq_t ∙ v.tables;
    frames = rw eq_p (length-modify m.primary i _ ∙ v.frames);
    slots = rw eq_s (length-modify m.secondary j _ ∙ v.slots);
    primary_good = swapped_good.0;
    secondary_good = swapped_good.1;
    primary_first = inl swapped_full;
    single = single;
  }

  -- Into a free frame: the page is in memory once more than before.
  evicted_count :
      is_free b ≡ true
      → (p q : ℤ) → in_range p q ≡ true
      → resident p q t ≡ resident p q m + to_ℕ (int_eq pid p && int_eq page q)
  evicted_count free p q h = omega (
    arith,
    primary_count (holds p q),
    secondary_count (holds p q),
    ap to_ℕ (holds_free p q b h free),
  )

  evicted_single :
      is_free b ≡ true
      → resident pid page m ≡ 0
      → (p q : ℤ) → in_range p q ≡ true
      → resident p q t ≤ 1
  evicted_single free absent p q h = elim (Bool-cases (int_eq pid p && int_eq page q)) [
    | inl e ↦ omega (arith, evicted_count free p q h, ap to_ℕ e, same_page pid page p q m e)
    | inr e ↦ omega (arith, evicted_count free p q h, ap to_ℕ e, v.single p q h)
  ]

  pub evicted-Brought : is_free b ≡ true → resident pid page m ≡ 0 → Brought pid page m t
  evicted-Brought free absent = record {
    valid = swapped-IsValid (evicted_single free absent);
    present = omega (arith, swapped_present, evicted_single free absent pid page ok);
    kept = λ p q h e. omega (arith, evicted_count free p q h, ap to_ℕ e);
  }

  -- Into the frame of the page itself: the two change places.
  exchanged_count : holds pid page b ≡ true → (p q : ℤ) → resident p q t ≡ resident p q m
  exchanged_count e p q =
      let a : b.process ≡ pid = ground (arith, int_eq_iff b.process pid) in
      let d : b.page ≡ page = ground (arith, int_eq_iff b.page page) in
      let same : to_ℕ (holds p q b) ≡ to_ℕ (int_eq pid p && int_eq page q) = rw (a, d) in
      omega (arith, primary_count (holds p q), secondary_count (holds p q), same)

  pub exchanged-Brought : holds pid page b ≡ true → Brought pid page m t
  exchanged-Brought e = record {
    valid = swapped-IsValid (λ p q h. rw (exchanged_count e p q) (v.single p q h));
    present = omega (arith, swapped_present, exchanged_count e pid page, v.single pid page ok);
    kept = λ p q h ne. exchanged_count e p q;
  }
