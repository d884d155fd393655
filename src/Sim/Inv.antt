-- ===== src/Sim/Inv.antt =====
-- What holds of the memory of lab-07/sim.c between two requests.
use laboratorio_valen_el_noo.Base.{
  ℕ, zero, suc, ◌+◌, ◌≤◌, ◌≡◌, refl, ◌⊎◌, inl, inr, Bool, true, false, ◌&&◌, ◌||◌, not, some, List,
  arith, ltb, get_elem?, get_elem?_of_lt, modify, set, length, count, count_pos, length-modify,
  find_index, find_index-none, ℤ, pos, negsuc, minus_one, int_eq, int_eq_iff, Option-cases,
}
use laboratorio_valen_el_noo.Sim.{
  Memory, Frame, Process, next, max_process, tam_process, tam_primary, tam_secondary, holds,
  is_free, is_full, place_page,
}

-- A process that `processes` has room for, and a page of its table.
abbrev pub in_range : ℤ → ℤ → Bool
in_range (pos p) (pos (suc q)) = ltb p max_process && ltb q tam_process
in_range (pos p) (pos zero) = false
in_range (pos p) (negsuc q) = false
in_range (negsuc p) q = false

-- A frame that is neither free nor in range.
abbrev pub is_bad : Frame → Bool
is_bad f = not (is_free f || in_range f.process f.page)

-- In how many frames of either memory a page is.
abbrev pub resident : ℤ → ℤ → Memory → ℕ
resident p q m = count (holds p q) m.primary + count (holds p q) m.secondary

pub record IsValid (m : Memory) : Type 0 where
  pub tables : length m.processes ≡ max_process
  pub frames : length m.primary ≡ tam_primary
  pub slots : length m.secondary ≡ tam_secondary
  pub primary_good : count is_bad m.primary ≡ 0
  pub secondary_good : count is_bad m.secondary ≡ 0
  -- Secondary memory is used only once primary memory is full.
  pub primary_first : (count is_free m.primary ≡ 0) ⊎ (count is_free m.secondary ≡ tam_secondary)
  pub single : (p q : ℤ) → in_range p q ≡ true → resident p q m ≤ 1

pub place_page_lem :
    (p q : ℤ) (i : ℕ) (m : Memory)
    → in_range p q ≡ true
    → length m.processes ≡ max_process
    → (ps : List Process) × (place_page p q i m ≡ next (record m { processes = ps }))
      × (length ps ≡ length m.processes)
unfolding place_page
place_page_lem (pos p) (pos (suc q)) i m h e =
    let f : Process → Process = λ r. record r { page = set r.page q (pos i) } in
    (modify m.processes p f, ground arith, length-modify m.processes p f)
place_page_lem (pos p) (pos zero) i m h e = cc
place_page_lem (pos p) (negsuc q) i m h e = cc
place_page_lem (negsuc p) q i m h e = cc

pub not_free_of_in_range : (f : Frame) → in_range f.process f.page ≡ true → is_free f ≡ false
not_free_of_in_range f h = go f.process f.page h
  where
    go : (p q : ℤ) → in_range p q ≡ true → int_eq p minus_one ≡ false
    go (pos p) q h = refl
    go (negsuc p) q h = cc

pub holds_free :
    (p q : ℤ) (f : Frame) → in_range p q ≡ true → is_free f ≡ true → holds p q f ≡ false
holds_free p q f h e = go p q f.process f.page h e
  where
    go :
        (p q a b : ℤ)
        → in_range p q ≡ true
        → int_eq a minus_one ≡ true
        → (int_eq a p && int_eq b q) ≡ false
    go (pos p) q (pos a) b h e = cc
    go (pos p) q (negsuc a) b h e = refl
    go (negsuc p) q a b h e = cc

-- A frame that holds a page of that number is in range when the page is.
pub in_range_of_holds :
    (p q : ℤ) (f : Frame)
    → in_range p q ≡ true
    → holds p q f ≡ true
    → in_range f.process f.page ≡ true
in_range_of_holds p q f h e = ground (arith, int_eq_iff f.process p, int_eq_iff f.page q)

-- A used frame of a memory without bad frames is in range.
pub in_range_of_good :
    (fs : List Frame) (i : ℕ) (f : Frame)
    → count is_bad fs ≡ 0
    → get_elem? fs i ≡ some f
    → is_free f ≡ false
    → in_range f.process f.page ≡ true
in_range_of_good fs i f g e u = ground (arith, count_pos is_bad fs i f e)

-- While the simulator runs, secondary memory has a free frame.
pub free_of_running :
    (m : Memory)
    → length m.secondary ≡ tam_secondary
    → is_full m ≡ false
    → (j : ℕ) × (find_index is_free m.secondary ≡ some j)
unfolding is_full
free_of_running m e r = elim (Option-cases (find_index is_free m.secondary)) [
  | inr h ↦ h
  | inl n ↦
      let (f, g) = get_elem?_of_lt m.secondary 15 (omega arith) in
      absurd (
        ground
          (arith, g, count_pos is_free m.secondary 15 f g, find_index-none is_free m.secondary n))
]
