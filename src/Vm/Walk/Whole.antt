-- ===== src/Vm/Walk/Whole.antt =====
-- `walkpgdir` of xv6/vm.c, on every path.
use laboratorio_valen_el_noo.Base.{
  ℕ, ◌/◌, ◌%◌, ◌<◌, ◌≡◌, ◌≢◌, refl, sym, ap, ap₂, ◌∙◌, ◌⊎◌, inl, inr, Bool, true, false, none, some,
  List, [], ◌∷◌, length, times, arith, Bool-cases,
}
use laboratorio_valen_el_noo.Vm.{
  Vm, p2v, pte_addr, is_present, kalloc, new_table, walkpgdir, pdx, ptx,
}
use laboratorio_valen_el_noo.Vm.Own.{IsApart, take-IsApart, take-IsSpare}
use laboratorio_valen_el_noo.Vm.Space.{frame, frame-pte, own, users}
use laboratorio_valen_el_noo.Vm.Walk.{entry, IsSpace}
use laboratorio_valen_el_noo.Vm.Walk.Write.{IsUnused}
use laboratorio_valen_el_noo.Vm.Walk.Enter.{
  Walked, entered, entered-root_here, entered-entry, entered-IsSpace, entered-IsUnused, popped,
}

-- The entry is found, with a new table if there was none, or there is no page for that.
abbrev pub Walks : ℕ → ℕ → ℕ → Vm → Type 0
Walks d va n s =
    ((walkpgdir d va true s ≡ (none, s)) × (s.free ≡ []))
    ⊎ ((p k : ℕ) × (t : Vm) × (walkpgdir d va true s ≡ (some (p, k), t)) × Walked d n p k s t)

pub walk_there :
    (d va n : ℕ) (s : Vm)
    → IsSpace d s
    → pdx va ≡ n / 1024
    → ptx va ≡ n % 1024
    → is_present (s.words d (n / 1024)) ≡ true
    → (alloc : Bool) → walkpgdir d va alloc s ≡ (some (frame (s.words d (n / 1024)), n % 1024), s)
unfolding walkpgdir frame
walk_there d va n s a q r p alloc =
    let p0 : is_present (s.words d (pdx va)) ≡ true = ap (λ i. is_present (s.words d i)) q ∙ p in
    let at : p2v (pte_addr (s.words d (pdx va))) ≡ frame (s.words d (n / 1024)) =
      ap (λ i. p2v (pte_addr (s.words d i))) q ∙ ground (arith, p) in
    let run : walkpgdir d va alloc s ≡ (some (p2v (pte_addr (s.words d (pdx va))), ptx va), s) =
      rw (walkpgdir, p0) refl in
    run ∙ ap₂ (λ (x y : ℕ). (some (x, y), s)) at r

pub popped-IsSpace :
    (d v : ℕ) (vs : List ℕ) (s : Vm)
    → s.free ≡ v ∷ vs
    → IsSpace d s
    → IsSpace d (popped vs s) × IsUnused d (popped vs s) v
unfolding entry
popped-IsSpace d v vs s e a =
    let b : IsApart s.kend users (own d (s.words d) (entry d s)) (v ∷ vs) = rw (sym e) a.pages in
    (
      record {
        pages = take-IsApart s.kend users (own d (s.words d) (entry d s)) vs v b;
        tables = a.tables;
        frames = a.frames;
        root = a.root;
      },
      take-IsSpare s.kend users (own d (s.words d) (entry d s)) vs v b,
    )

pub popped-IsUnused :
    (d v w : ℕ) (vs : List ℕ) (s : Vm)
    → s.free ≡ v ∷ vs
    → IsSpace d s
    → IsUnused d s w
    → IsUnused d (popped vs s) w × (w ≢ v)
unfolding entry
popped-IsUnused d v w vs s e a u =
    let off : times w (v ∷ vs) ≡ 0 = ap (times w) (sym e) ∙ u.off_list in
    (
      record { unused = u.unused; off_list = ground (arith, off); fits = u.fits },
      ground (arith, off),
    )

new_table-Walked :
    (d n v : ℕ) (vs : List ℕ) (s : Vm)
    → s.free ≡ v ∷ vs
    → IsSpace d s
    → n < 1048576
    → is_present (s.words d (n / 1024)) ≡ false
    → Walked d n v (n % 1024) s (entered d (n / 1024) v (popped vs s))
unfolding entry
new_table-Walked d n v vs s e a h p =
    let s1 = popped vs s in
    let (b, u) = popped-IsSpace d v vs s e a in
    let (is_v, there) = frame-pte s.kend v 7 u.fits (omega arith) in
    let here = entered-root_here d n v s1 b u h p in
    record {
      present = ap is_present here ∙ there;
      page = sym (ap frame here ∙ is_v);
      index = refl;
      space = entered-IsSpace d n v s1 b u h p;
      entries = entered-entry d n v s1 b u h p;
      spare = λ w x.
          let (y, ne) = popped-IsUnused d v w vs s e a x in
          entered-IsUnused d n v s1 b u h p w ne y;
      kept = λ w x r off.
          let off1 : times w (v ∷ vs) ≡ 0 = ap (times w) (sym e) ∙ off in
          let ne : w ≢ v = ground (arith, off1) in ground (arith, ne, r);
      listed = λ w off.
          let off1 : times w (v ∷ vs) ≡ 0 = ap (times w) (sym e) ∙ off in ground (arith, off1);
      cost = omega (arith, ap (length {A = ℕ}) e);
      same_end = refl;
    }

walk_from :
    (d va n : ℕ) (s : Vm) (free : List ℕ)
    → s.free ≡ free
    → IsSpace d s
    → n < 1048576
    → pdx va ≡ n / 1024
    → ptx va ≡ n % 1024
    → is_present (s.words d (n / 1024)) ≡ false
    → Walks d va n s
unfolding walkpgdir kalloc new_table
walk_from d va n s free e a h q r p =
    let p0 : is_present (s.words d (pdx va)) ≡ false = ap (λ i. is_present (s.words d i)) q ∙ p in
    go free e p0
  where
    go : (free : List ℕ) → s.free ≡ free → is_present (s.words d (pdx va)) ≡ false → Walks d va n s
    go [] e p0 = inl (rw (walkpgdir, p0, e) refl, e)
    go (v ∷ vs) e p0 =
        let run : walkpgdir d va true s ≡ (some (v, ptx va), entered d (pdx va) v (popped vs s)) =
          rw (walkpgdir, p0, kalloc, e) refl in
        inr (
          v,
          n % 1024,
          entered d (n / 1024) v (popped vs s),
          run ∙ ap₂ (λ (x y : ℕ). (some (v, y), entered d x v (popped vs s))) q r,
          new_table-Walked d n v vs s e a h p,
        )

there-Walked :
    (d n : ℕ) (s : Vm)
    → IsSpace d s
    → is_present (s.words d (n / 1024)) ≡ true
    → Walked d n (frame (s.words d (n / 1024))) (n % 1024) s s
there-Walked d n s a p = record {
  present = p;
  page = refl;
  index = refl;
  space = a;
  entries = λ m l. refl;
  spare = λ v u. u;
  kept = λ v x r off. refl;
  listed = λ v off. off;
  cost = omega arith;
  same_end = refl;
}

pub walkpgdir-Walks :
    (d va n : ℕ) (s : Vm)
    → IsSpace d s
    → n < 1048576
    → pdx va ≡ n / 1024
    → ptx va ≡ n % 1024
    → Walks d va n s
walkpgdir-Walks d va n s a h q r = elim (Bool-cases (is_present (s.words d (n / 1024)))) [
  | inl p ↦ inr (
    frame (s.words d (n / 1024)),
    n % 1024,
    s,
    walk_there d va n s a q r p true,
    there-Walked d n s a p,
  )
  | inr p ↦ walk_from d va n s s.free refl a h q r p
]

-- Without `alloc` nothing is changed, and null is returned where there is no table.
pub walkpgdir-none :
    (d va n : ℕ) (s : Vm)
    → pdx va ≡ n / 1024
    → is_present (s.words d (n / 1024)) ≡ false
    → walkpgdir d va false s ≡ (none, s)
unfolding walkpgdir
walkpgdir-none d va n s q p =
    let p0 : is_present (s.words d (pdx va)) ≡ false = ap (λ i. is_present (s.words d i)) q ∙ p in
    rw (walkpgdir, p0) refl
