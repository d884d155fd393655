-- ===== src/Vm/Grow/Restore.antt =====
-- What a call of `allocuvm` of xv6/vm.c that fails gives back.
use laboratorio_valen_el_noo.Base.{
  ℕ, ◌+◌, ◌≤◌, ◌<◌, ◌≡◌, ◌≢◌, refl, sym, ap, ◌∙◌, ◌⊎◌, true, false, List, ◌∷◌, arith,
}
use laboratorio_valen_el_noo.Vm.{Vm, is_present, set_page}
use laboratorio_valen_el_noo.Vm.Space.{frame, own, own_frame, users, user_entries, IsMap}
use laboratorio_valen_el_noo.Vm.{done, kfree}
use laboratorio_valen_el_noo.Vm.Own.{give-IsApart}
use laboratorio_valen_el_noo.Vm.Space.{eq-IsMap}
use laboratorio_valen_el_noo.Vm.Walk.{entry, IsSpace}
use laboratorio_valen_el_noo.Vm.Walk.Write.{spare-IsElsewhere, set_page-root, set_page-entry}
use laboratorio_valen_el_noo.Kalloc.{junk}
use laboratorio_valen_el_noo.Vm.Shrink.{Shrunk}
use laboratorio_valen_el_noo.Vm.Grow.{Grown, zeroed, zeroed-entry, zeroed-IsUnused, zeroed-contents}

-- What a call that fails leaves: the range is empty again, and the rest is as it was.
pub record Restored (d lo hi : ℕ) (s t : Vm) : Type 0 where
  pub space : IsSpace d t
  pub cleared : (m : ℕ) → lo ≤ m → m < hi → is_present (entry d t m) ≡ false
  pub others : (l : ℕ) → l < 1048576 → (l < lo) ⊎ (hi ≤ l) → entry d t l ≡ entry d s l
  pub contents :
      (l k : ℕ)
      → l < user_entries
      → (l < lo) ⊎ (hi ≤ l)
      → is_present (entry d s l) ≡ true
      → t.words (frame (entry d s l)) k ≡ s.words (frame (entry d s l)) k

pub Shrunk-Restored : (d lo hi : ℕ) (s t : Vm) → Shrunk d lo hi s t → Restored d lo hi s t
Shrunk-Restored d lo hi s t r = record {
  space = r.space;
  cleared = r.cleared;
  others = r.others;
  contents = r.contents;
}

pub Restored-Grown :
    (d lo m hi : ℕ) (s0 s t : Vm)
    → m ≤ hi
    → hi ≤ user_entries
    → Grown d lo m s0 s
    → Restored d lo hi s t
    → Restored d lo hi s0 t
Restored-Grown d lo m hi s0 s t h top g r = record {
  space = r.space;
  cleared = r.cleared;
  others = λ l k o. r.others l k o ∙ g.others l k (ground (arith, o, h));
  contents = λ l k b o p.
      let x = g.others l (omega arith) (ground (arith, o, h)) in
      ap (λ y. t.words (frame y) k) (sym x)
      ∙ r.contents l k b o (ap is_present x ∙ p)
      ∙ ap (λ y. s.words (frame y) k) x
      ∙ g.contents l k b (ground (arith, o, h)) p;
}

-- The page in hand is given back too.
abbrev pub given : ℕ → Vm → Vm
given v u = record (set_page v (λ k. junk) u) { free = v ∷ u.free }

pub given-Restored :
    (d lo hi v : ℕ) (vs : List ℕ) (s u : Vm)
    → s.free ≡ v ∷ vs
    → hi ≤ user_entries
    → IsSpace d s
    → Shrunk d lo hi (zeroed v vs s) u
    → (kfree v u ≡ done tt (given v u)) × Restored d lo hi s (given v u)
unfolding kfree entry
given-Restored d lo hi v vs s u e top a r =
    let y = r.spare v (zeroed-IsUnused d v vs s e a) in
    let (keeps, _, _) = y.fits in
    let off = spare-IsElsewhere d u r.space v y in
    let now : (l : ℕ) → l < 1048576 → entry d (given v u) l ≡ entry d u l =
      λ l h. set_page-entry d v l (λ k. junk) u off h in
    let listed : IsMap u.kend d (u.words d) (entry d u) (v ∷ u.free) = record {
      pages = give-IsApart u.kend users (own d (u.words d) (entry d u)) u.free v r.space.pages y;
      tables = r.space.tables;
      frames = r.space.frames;
      root = r.space.root;
    } in
    (
      rw (kfree, keeps) refl,
      record {
        space =
            eq-IsMap u.kend d (u.words d) (entry d u) ((given v u).words d) (entry d (given v u))
              (v ∷ u.free) listed (λ j. set_page-root d v j (λ k. junk) u off.not_root)
              (λ l h. now l (omega arith));
        cleared = λ m l h. ap is_present (now m (omega arith)) ∙ r.cleared m l h;
        others = λ l k o. now l k ∙ r.others l k o ∙ zeroed-entry d v vs s e a l k;
        contents = λ l k b o p.
            let q = zeroed-entry d v vs s e a l (omega arith) in
            let x = r.others l (omega arith) o ∙ q in
            let ne : frame (entry d s l) ≢ v = λ z.
              y.unused (l + 1025) (omega arith)
                (own_frame d l (u.words d) (entry d u) ∙ ap frame x ∙ z) in
            other_word l k ne
            ∙ ap (λ c. u.words (frame c) k) (sym q)
            ∙ r.contents l k b o (ap is_present q ∙ p)
            ∙ ap (λ c. (zeroed v vs s).words (frame c) k) q
            ∙ zeroed-contents d v vs s e a l k b p;
      },
    )
  where
    other_word :
        (l k : ℕ)
        → frame (entry d s l) ≢ v
        → (given v u).words (frame (entry d s l)) k ≡ u.words (frame (entry d s l)) k
    other_word l k ne = ground (arith, ne)
