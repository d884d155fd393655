-- ===== src/Vm/Grow.antt =====
-- `allocuvm` of xv6/vm.c.

pub mod Restore
use laboratorio_valen_el_noo.Base.{
  ℕ, ◌+◌, ◌-◌, ◌*◌, ◌%◌, ◌≤◌, ◌<◌, ◌≡◌, ◌≢◌, sym, ap, ◌∙◌, ◌⊎◌, inl, inr, true, List, ◌∷◌, length,
  ◌==◌, times, arith, Bool-cases,
}
use laboratorio_valen_el_noo.Kalloc.{refused, kernbase, address_range, v2p}
use laboratorio_valen_el_noo.Vm.{Vm, pte, is_present, is_user, set_page}
use laboratorio_valen_el_noo.Vm.Own.{Fit}
use laboratorio_valen_el_noo.Vm.Space.{frame, frame-pte, own_eq, user_entries}
use laboratorio_valen_el_noo.Vm.Space.{eq-IsMap}
use laboratorio_valen_el_noo.Vm.Walk.{entry, IsSpace}
use laboratorio_valen_el_noo.Vm.Walk.Write.{
  IsUnused, IsElsewhere, spare-IsElsewhere, set_page-root, set_page-entry,
}
use laboratorio_valen_el_noo.Vm.{pte_wu}
use laboratorio_valen_el_noo.Vm.Walk.Enter.{popped}
use laboratorio_valen_el_noo.Vm.Walk.Whole.{popped-IsSpace}
use laboratorio_valen_el_noo.Vm.Map.{Mapped, busy_frame}

-- Each entry from `lo` to below `hi` is present in `t`, for user mode, with a page of zeros; the rest
-- is as in `s`.
pub record Grown (d lo hi : ℕ) (s t : Vm) : Type 0 where
  pub space : IsSpace d t
  pub mapped :
      (m : ℕ)
      → lo ≤ m
      → m < hi
      → (is_present (entry d t m) ≡ true)
        × (is_user (entry d t m) ≡ true)
        × ((k : ℕ) → t.words (frame (entry d t m)) k ≡ 0)
  pub others : (l : ℕ) → l < 1048576 → (l < lo) ⊎ (hi ≤ l) → entry d t l ≡ entry d s l
  pub contents :
      (l k : ℕ)
      → l < user_entries
      → (l < lo) ⊎ (hi ≤ l)
      → is_present (entry d s l) ≡ true
      → t.words (frame (entry d s l)) k ≡ s.words (frame (entry d s l)) k
  pub cost : length s.free ≤ length t.free + 2 * (hi - lo)
  pub same_end : t.kend ≡ s.kend

-- A page taken off the list and zeroed.
abbrev pub zeroed : ℕ → List ℕ → Vm → Vm
zeroed v vs s = set_page v (λ k. 0) (popped vs s)

module _ (d v : ℕ) (vs : List ℕ) (s : Vm) (e : s.free ≡ v ∷ vs) (a : IsSpace d s) where
  zeroed-IsElsewhere : IsElsewhere d (popped vs s) v
  zeroed-IsElsewhere =
      let (b, u) = popped-IsSpace d v vs s e a in spare-IsElsewhere d (popped vs s) b v u

  pub zeroed-entry : (l : ℕ) → l < 1048576 → entry d (zeroed v vs s) l ≡ entry d s l
  unfolding entry
  zeroed-entry l h = set_page-entry d v l (λ k. 0) (popped vs s) zeroed-IsElsewhere h

  zeroed-root : (k : ℕ) → (zeroed v vs s).words d k ≡ s.words d k
  zeroed-root k = set_page-root d v k (λ k. 0) (popped vs s) zeroed-IsElsewhere.not_root

  pub zeroed-IsSpace : IsSpace d (zeroed v vs s)
  unfolding entry
  zeroed-IsSpace =
      let (b, u) = popped-IsSpace d v vs s e a in
      eq-IsMap s.kend d (s.words d) (entry d s) ((zeroed v vs s).words d) (entry d (zeroed v vs s))
        vs b zeroed-root (λ l h. zeroed-entry l (omega arith))

  pub zeroed-IsUnused : IsUnused d (zeroed v vs s) v
  unfolding entry
  zeroed-IsUnused =
      let (b, u) = popped-IsSpace d v vs s e a in
      record {
        unused = λ i h z. u.unused i h (
            sym (
              own_eq d (s.words d) (entry d s) ((zeroed v vs s).words d) (entry d (zeroed v vs s)) i
                h (λ j g k. zeroed-root j) (λ m g k. zeroed-entry m (omega arith)))
            ∙ z);
        off_list = u.off_list;
        fits = u.fits;
      }

  pub zeroed-contents :
      (l k : ℕ)
      → l < user_entries
      → is_present (entry d s l) ≡ true
      → (zeroed v vs s).words (frame (entry d s l)) k ≡ s.words (frame (entry d s l)) k
  zeroed-contents l k h p =
      let off : times (frame (entry d s l)) (v ∷ vs) ≡ 0 =
        ap (times (frame (entry d s l))) (sym e) ∙ busy_frame d l s a h p in
      let ne : frame (entry d s l) ≢ v = ground (arith, off) in ground (arith, ne)

user-pte : (kend v : ℕ) → Fit kend v → is_user (pte (v2p v) pte_wu) ≡ true
unfolding v2p refused
user-pte kend v (r, a, b) =
    let whole : v % 4096 ≡ 0 = ground (arith, r) in
    let low : (v + address_range - kernbase) % address_range ≡ v - kernbase = omega arith in
    let p : is_user (pte (v - kernbase) pte_wu) ≡ true = ground (arith, whole) in
    ap (λ x. is_user (pte x pte_wu)) low ∙ p

-- One more page is mapped.
pub Grown-more :
    (d lo m v : ℕ) (vs : List ℕ) (s0 s t : Vm)
    → s.free ≡ v ∷ vs
    → lo ≤ m
    → m < user_entries
    → Grown d lo m s0 s
    → Mapped d m v (pte (v2p v) pte_wu) (zeroed v vs s) t
    → Grown d lo (m + 1) s0 t
Grown-more d lo m v vs s0 s t e h top g r =
    let u = zeroed-IsUnused d v vs s e g.space in
    let (f, there) = frame-pte s.kend v pte_wu u.fits (omega arith) in
    let now : (l : ℕ) → l < 1048576 → l ≢ m → entry d t l ≡ entry d s l =
      λ l k ne. r.others l k ne ∙ zeroed-entry d v vs s e g.space l k in
    let page_now : (l k : ℕ)
        → l < user_entries
        → is_present (entry d s l) ≡ true
        → t.words (frame (entry d s l)) k ≡ s.words (frame (entry d s l)) k =
      λ l k b p.
        let q = zeroed-entry d v vs s e g.space l (omega arith) in
        ap (λ x. t.words (frame x) k) (sym q)
        ∙ r.contents l k b (ap is_present q ∙ p)
        ∙ ap (λ x. (zeroed v vs s).words (frame x) k) q
        ∙ zeroed-contents d v vs s e g.space l k b p in
    record {
      space = r.space;
      mapped = λ l a b. elim (Bool-cases (l == m)) [
        | inl same ↦
            let q : l ≡ m = ground (arith, same) in
            let x = ap (entry d t) q ∙ r.here in
            (
              ap is_present x ∙ there,
              ap is_user x ∙ user-pte s.kend v u.fits,
              λ k.
                  ap (λ y. t.words (frame y) k) x
                  ∙ ap (λ y. t.words y k) f
                  ∙ r.fresh k
                  ∙ new_zero k,
            )
        | inr other ↦
            let ne : l ≢ m = ground (arith, other) in
            let (p, q, w) = g.mapped l a (omega arith) in
            let x = now l (omega arith) ne in
            (
              ap is_present x ∙ p,
              ap is_user x ∙ q,
              λ k. ap (λ y. t.words (frame y) k) x ∙ page_now l k (omega arith) p ∙ w k,
            )
      ];
      others = λ l k o. now l k (ground (arith, o, h)) ∙ g.others l k (ground (arith, o));
      contents = λ l k b o p.
          let x = g.others l (omega arith) (ground (arith, o)) in
          ap (λ y. t.words (frame y) k) (sym x)
          ∙ page_now l k b (ap is_present x ∙ p)
          ∙ ap (λ y. s.words (frame y) k) x
          ∙ g.contents l k b (ground (arith, o)) p;
      cost = omega (arith, g.cost, r.cost, ap (length {A = ℕ}) e, h);
      same_end = r.same_end ∙ g.same_end;
    }
  where
    new_zero : (k : ℕ) → (zeroed v vs s).words v k ≡ 0
    new_zero k = ground arith
