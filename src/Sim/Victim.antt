-- ===== src/Sim/Victim.antt =====
-- The scan for a victim (lab-07/sim.c, the loops over `cont`).
use laboratorio_valen_el_noo.Base.{
  ℕ, zero, suc, ◌≤◌, ◌<◌, ◌≡◌, refl, ◌⊎◌, inl, inr, Option, none, some, List, [], ◌∷◌, arith, ltb,
  ◌==◌, get_elem?, find_index, Bool-cases,
}
use laboratorio_valen_el_noo.Sim.{Frame, Policy, key, scan_min}

-- No frame has a smaller key.
abbrev pub AllGe : Policy → ℕ → List Frame → Type 0
AllGe pol c [] = Unit {0}
AllGe pol c (f ∷ fs) = (c ≤ key pol f) × AllGe pol c fs

AllGe-mono : (pol : Policy) (fs : List Frame) (a b : ℕ) → a ≤ b → AllGe pol b fs → AllGe pol a fs
AllGe-mono pol [] a b h g = tt
AllGe-mono pol (f ∷ fs) a b h g = (omega arith, AllGe-mono pol fs a b h g.1)

pub AllGe-get_elem? :
    (pol : Policy) (fs : List Frame) (c i : ℕ) (f : Frame)
    → AllGe pol c fs
    → get_elem? fs i ≡ some f
    → c ≤ key pol f
AllGe-get_elem? pol [] c i f g e = absurd (ground arith)
AllGe-get_elem? pol (x ∷ fs) c zero f g e = ground arith
AllGe-get_elem? pol (x ∷ fs) c (suc i) f g e = AllGe-get_elem? pol fs c i f g.1 e

-- What the scan and the loop behind it find: the first frame of the smallest key.
pub record Victim (pol : Policy) (fs : List Frame) (cont : ℕ) (out : ℕ × Option Frame)
    : Type 0 where
  pub index : ℕ
  pub frame : Frame
  pub result : out ≡ (key pol frame, some frame)
  pub at_index : get_elem? fs index ≡ some frame
  pub found : find_index (λ f. key pol f == key pol frame) fs ≡ some index
  pub small : key pol frame < cont
  pub least : AllGe pol (key pol frame) fs

pub scan_min_lem :
    (pol : Policy) (cont : ℕ) (rem : Option Frame) (fs : List Frame)
    → ((scan_min pol cont rem fs ≡ (cont, rem)) × AllGe pol cont fs)
      ⊎ Victim pol fs cont (scan_min pol cont rem fs)
unfolding scan_min
scan_min_lem pol cont rem [] = inl (refl, tt)
scan_min_lem pol cont rem (f ∷ fs) = elim (Bool-cases (ltb (key pol f) cont)) [
  | inl lt ↦ rw lt (elim (scan_min_lem pol (key pol f) (some f) fs) [
    | inl h ↦ inr (record {
      index = 0;
      frame = f;
      result = h.0;
      at_index = refl;
      found = ground arith;
      small = ground arith;
      least = (ground arith, h.1);
    })
    | inr v ↦ inr (record {
      index = suc v.index;
      frame = v.frame;
      result = v.result;
      at_index = v.at_index;
      found = ground (arith, v.small, v.found);
      small = ground (arith, v.small);
      least = (ground (arith, v.small), v.least);
    })
  ])
  | inr ge ↦ rw ge (elim (scan_min_lem pol cont rem fs) [
    | inl h ↦ inl (h.0, (ground arith, h.1))
    | inr v ↦ inr (record {
      index = suc v.index;
      frame = v.frame;
      result = v.result;
      at_index = v.at_index;
      found = ground (arith, v.small, v.found);
      small = v.small;
      least = (ground (arith, v.small), v.least);
    })
  ])
]

-- A frame with a key below the limit gives a victim.
pub scan_min-Victim :
    (pol : Policy) (cont i : ℕ) (f : Frame) (fs : List Frame)
    → get_elem? fs i ≡ some f
    → key pol f < cont
    → Victim pol fs cont (scan_min pol cont none fs)
scan_min-Victim pol cont i f fs e lt = elim (scan_min_lem pol cont none fs) [
  | inl h ↦ absurd (omega (arith, AllGe-get_elem? pol fs cont i f h.1 e))
  | inr v ↦ v
]
