-- ===== src/Sim/Modify.antt =====
-- `modify_process` of lab-07/sim.c, from its parts.
use laboratorio_valen_el_noo.Base.{
  ℕ, ◌+◌, ◌<◌, ◌≡◌, refl, ap, ◌∙◌, inl, inr, Bool, true, false, ◌&&◌, none, some, arith, to_ℕ,
  get_elem?, modify, count, count_pos, count_lt_length, ◌==◌, count-modify, length-modify,
  find_index, find_index-some, find_index-none, ℤ, int_eq, int_eq_refl, Option-cases, Bool-cases,
}
use laboratorio_valen_el_noo.Sim.{
  Memory, Frame, Policy, Outcome, next, exited, fault, int_max, num_max, holds, is_free, is_full,
  key, counter, count_up, scan_min, touch, fill_frame, put_primary, put_secondary, evict,
  store_victim, exchange,
}
use laboratorio_valen_el_noo.Sim.Victim.{scan_min-Victim}
use laboratorio_valen_el_noo.Sim.Inv.{
  in_range, is_bad, resident, IsValid, place_page_lem, not_free_of_in_range, holds_free,
  in_range_of_holds, in_range_of_good,
}
use laboratorio_valen_el_noo.Sim.Request.{
  Brought, put_primary_lem, put_secondary_lem, evicted-Brought, exchanged-Brought, same_page,
}

-- The first loop writes stamps only.
pub record Touched (pid page : ℤ) (m : Memory) (hit : Bool) (t : Memory) : Type 0 where
  pub valid : IsValid t
  pub same : (p q : ℤ) → resident p q t ≡ resident p q m
  pub secondary : t.secondary ≡ m.secondary
  pub on_hit : hit ≡ true → 0 < count (holds pid page) t.primary
  pub on_miss : hit ≡ false → (t ≡ m) × (count (holds pid page) m.primary ≡ 0)

pub touch_lem :
    (pid page : ℤ) (m : Memory)
    → IsValid m
    → m.cont_lru < int_max
    → (hit : Bool) × (t : Memory) × (touch pid page m ≡ next (hit, t)) × Touched pid page m hit t
unfolding touch count_up
touch_lem pid page m v room = elim (Option-cases (find_index (holds pid page) m.primary)) [
  | inl e ↦ (
    false,
    m,
    ground (arith, e),
    record {
      valid = v;
      same = λ p q. refl;
      secondary = refl;
      on_hit = λ h. cc;
      on_miss = λ h. (refl, find_index-none (holds pid page) m.primary e);
    },
  )
  | inr (i, e) ↦
      let (f, at_i, hit) = find_index-some (holds pid page) m.primary i e in
      let stamp : Frame → Frame = λ g. record g { lru = m.cont_lru } in
      let counts : (p : Frame → Bool)
          → count p (modify m.primary i stamp) + to_ℕ (p f)
            ≡ count p m.primary + to_ℕ (p (stamp f)) =
        λ p. count-modify p m.primary i stamp f at_i in
      (
        true,
        record m { primary = modify m.primary i stamp; cont_lru = m.cont_lru + 1 },
        ground (arith, e),
        record {
          valid = record {
            tables = v.tables;
            frames = length-modify m.primary i stamp ∙ v.frames;
            slots = v.slots;
            primary_good = omega (arith, counts is_bad, v.primary_good);
            secondary_good = v.secondary_good;
            primary_first = elim v.primary_first [
              | inl z ↦ inl (omega (arith, z, counts is_free))
              | inr z ↦ inr z
            ];
            single = λ p q h. omega (arith, counts (holds p q), v.single p q h);
          };
          same = λ p q. omega (arith, counts (holds p q));
          secondary = refl;
          on_hit = λ h.
              omega
                (arith, counts (holds pid page), count_pos (holds pid page) m.primary i f at_i hit);
          on_miss = λ h. cc;
        },
      )
]

int_eq_refl2 : (p q : ℤ) → (int_eq p p && int_eq q q) ≡ true
int_eq_refl2 p q = rw (int_eq_refl p, int_eq_refl q)

-- A free frame takes the page.
pub fill_frame_lem :
    (pid page : ℤ) (i : ℕ) (m : Memory)
    → IsValid m
    → in_range pid page ≡ true
    → resident pid page m ≡ 0
    → find_index is_free m.primary ≡ some i
    → m.cont_fifo < int_max
    → m.cont_lru < int_max
    → (t : Memory) × (fill_frame pid page i m ≡ next t) × Brought pid page m t
unfolding fill_frame count_up
fill_frame_lem pid page i m v ok absent e a b =
    let (f, at_i, free) = find_index-some is_free m.primary i e in
    let new : Frame → Frame =
      λ g. record { process = pid; page = page; fifo = m.cont_fifo; lru = m.cont_lru } in
    let m1 : Memory = record m { primary = modify m.primary i new } in
    let (ps, placed, len) = place_page_lem pid page i m1 ok v.tables in
    let counts : (p : Frame → Bool)
        → count p (modify m.primary i new) + to_ℕ (p f) ≡ count p m.primary + to_ℕ (p (new f)) =
      λ p. count-modify p m.primary i new f at_i in
    let used : is_free (new f) ≡ false = not_free_of_in_range (new f) ok in
    (
      record m1 { processes = ps; cont_fifo = m.cont_fifo + 1; cont_lru = m.cont_lru + 1 },
      ground (arith, placed),
      record {
        valid = record {
          tables = len ∙ v.tables;
          frames = length-modify m.primary i new ∙ v.frames;
          slots = v.slots;
          primary_good = ground (arith, counts is_bad, v.primary_good);
          secondary_good = v.secondary_good;
          primary_first = elim v.primary_first [
            | inl z ↦ absurd (omega (arith, z, count_pos is_free m.primary i f at_i free))
            | inr z ↦ inr z
          ];
          single = λ p q h. elim (Bool-cases (int_eq pid p && int_eq page q)) [
            | inl h1 ↦ omega (arith, counts (holds p q), ap to_ℕ h1, same_page pid page p q m h1)
            | inr h1 ↦ omega (arith, counts (holds p q), ap to_ℕ h1, v.single p q h)
          ];
        };
        present = omega (
          arith,
          counts (holds pid page),
          ap to_ℕ (holds_free pid page f ok free),
          ap to_ℕ (int_eq_refl2 pid page),
        );
        kept = λ p q h ne.
            omega (arith, counts (holds p q), ap to_ℕ ne, ap to_ℕ (holds_free p q f h free));
      },
    )

used_in_range :
    (m : Memory) (i : ℕ) (r : Frame)
    → IsValid m
    → count is_free m.primary ≡ 0
    → get_elem? m.primary i ≡ some r
    → in_range r.process r.page ≡ true
used_in_range m i r v full at_i =
    in_range_of_good m.primary i r v.primary_good at_i
      (ground (arith, full, count_pos is_free m.primary i r at_i))

-- Some frame of primary memory has a stamp below NUM_MAX.
abbrev pub HasVictim : Policy → Memory → Type 0
HasVictim pol m = (i : ℕ) × (f : Frame) × (get_elem? m.primary i ≡ some f) × (key pol f < num_max)

evict_run :
    (pol : Policy) (pid page : ℤ) (c j : ℕ) (r : Frame) (m m1 t : Memory)
    → scan_min pol num_max none m.primary ≡ (c, some r)
    → put_primary pol c pid page m ≡ next m1
    → find_index is_free m1.secondary ≡ some j
    → put_secondary pol (some r) j m1 ≡ next t
    → evict pol pid page m ≡ next t
unfolding evict store_victim
evict_run pol pid page c j r m m1 t e1 e2 e3 e4 = ground arith

exchange_run :
    (pol : Policy) (pid page : ℤ) (c j : ℕ) (r : Frame) (m m1 t : Memory)
    → scan_min pol num_max none m.primary ≡ (c, some r)
    → find_index (holds pid page) m.secondary ≡ some j
    → put_secondary pol (some r) j m ≡ next m1
    → put_primary pol c pid page m1 ≡ next t
    → exchange pol pid page m ≡ next t
unfolding exchange
exchange_run pol pid page c j r m m1 t e1 e2 e3 e4 = ground arith

-- The victim makes room.
pub evict_lem :
    (pol : Policy) (pid page : ℤ) (j : ℕ) (m : Memory)
    → IsValid m
    → in_range pid page ≡ true
    → resident pid page m ≡ 0
    → find_index is_free m.primary ≡ none
    → find_index is_free m.secondary ≡ some j
    → HasVictim pol m
    → counter pol m < int_max
    → (t : Memory) × (evict pol pid page m ≡ next t) × Brought pid page m t
evict_lem pol pid page j m v ok absent none_free e (k, g, at_k, small) room =
    let w = scan_min-Victim pol num_max k g m.primary at_k small in
    let (b, at_j, free) = find_index-some is_free m.secondary j e in
    let full = find_index-none is_free m.primary none_free in
    let (m1, e1, one) =
      put_primary_lem pol pid page (key pol w.frame) w.index m w.found ok v.tables room in
    let good = used_in_range m w.index w.frame v full w.at_index in
    let (t, e2, two) = put_secondary_lem pol w.frame j m1 good (one.tables ∙ v.tables) in
    (
      t,
      evict_run pol pid page (key pol w.frame) j w.frame m m1 t w.result e1 (rw one.secondary e) e2,
      evicted-Brought pol pid page m m t w.index j w.frame b v ok full w.at_index at_j
          (two.primary ∙ one.primary) (rw two.secondary (rw one.secondary))
          (two.tables ∙ one.tables) free absent,
    )

-- A page is in secondary memory only if primary memory is full.
full_of_secondary :
    (pid page : ℤ) (j : ℕ) (b : Frame) (m : Memory)
    → IsValid m
    → in_range pid page ≡ true
    → get_elem? m.secondary j ≡ some b
    → holds pid page b ≡ true
    → count is_free m.primary ≡ 0
full_of_secondary pid page j b m v ok at_j hit = elim v.primary_first [
  | inl z ↦ z
  | inr all ↦ absurd (
      omega (
        arith,
        all,
        v.slots,
        count_lt_length is_free m.secondary j b at_j
            (not_free_of_in_range b (in_range_of_holds pid page b ok hit)),
      ))
]

-- The page and the victim change places.
pub exchange_lem :
    (pol : Policy) (pid page : ℤ) (j : ℕ) (m : Memory)
    → IsValid m
    → in_range pid page ≡ true
    → find_index (holds pid page) m.secondary ≡ some j
    → HasVictim pol m
    → counter pol m < int_max
    → (t : Memory) × (exchange pol pid page m ≡ next t) × Brought pid page m t
exchange_lem pol pid page j m v ok e (k, g, at_k, small) room =
    let w = scan_min-Victim pol num_max k g m.primary at_k small in
    let (b, at_j, hit) = find_index-some (holds pid page) m.secondary j e in
    let full = full_of_secondary pid page j b m v ok at_j hit in
    let good = used_in_range m w.index w.frame v full w.at_index in
    let (m1, e1, one) = put_secondary_lem pol w.frame j m good v.tables in
    let found : find_index (λ f. key pol f == key pol w.frame) m1.primary ≡ some w.index =
      rw one.primary w.found in
    let room1 : counter pol m1 < int_max = rw (one.counters.0, one.counters.1) room in
    let (t, e2, two) =
      put_primary_lem pol pid page (key pol w.frame) w.index m1 found ok (one.tables ∙ v.tables)
        room1 in
    (
      t,
      exchange_run pol pid page (key pol w.frame) j w.frame m m1 t w.result e e1 e2,
      exchanged-Brought pol pid page m1 m t w.index j w.frame b v ok full w.at_index at_j
          (rw two.primary (rw one.primary)) (two.secondary ∙ one.secondary)
          (two.tables ∙ one.tables) hit,
    )

-- The program goes on, or ends by itself once secondary memory is full; in either case `P` holds.
abbrev pub Ensures : (Memory → Type 0) → Outcome Memory → Type 0
Ensures P (next t) = P t × (is_full t ≡ false)
Ensures P (exited t) = P t × (is_full t ≡ true)
Ensures P fault = ⊥
