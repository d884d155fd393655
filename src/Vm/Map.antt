-- ===== src/Vm/Map.antt =====
-- `mappages` of xv6/vm.c on a single page, as `allocuvm` calls it.
use laboratorio_valen_el_noo.Base.{
  ℕ, suc, ◌+◌, ◌-◌, ◌*◌, ◌/◌, ◌%◌, ◌≤◌, ◌<◌, ◌≡◌, ◌≢◌, refl, sym, ap, ap₂, ◌∙◌, ◌⊎◌, inl, inr, Bool,
  true, false, none, some, [], length, ◌==◌, times, arith,
}
use laboratorio_valen_el_noo.Kalloc.{address_range, v2p, pgsize}
use laboratorio_valen_el_noo.Vm.{Vm, pte, is_present, set_word, walkpgdir}
use laboratorio_valen_el_noo.Vm.Space.{frame, frame-pte, own_frame, user_entries}
use laboratorio_valen_el_noo.Vm.{Call, done, map_at, map_loop, mappages, pg_round_down, add}
use laboratorio_valen_el_noo.Vm.Space.{frame-IsMap}
use laboratorio_valen_el_noo.Vm.Walk.{entry, IsSpace}
use laboratorio_valen_el_noo.Vm.Walk.Write.{
  IsUnused, spare-IsElsewhere, frame-IsElsewhere, set_word-root, set_word-entry, set_word-entry_ne,
}
use laboratorio_valen_el_noo.Vm.Walk.Enter.{Walked}
use laboratorio_valen_el_noo.Vm.Walk.Whole.{walkpgdir-Walks}

-- `t` is `s` with the spare page `v` mapped at page number `m` by the entry `x`.
pub record Mapped (d m v x : ℕ) (s t : Vm) : Type 0 where
  pub space : IsSpace d t
  pub here : entry d t m ≡ x
  pub others : (l : ℕ) → l < 1048576 → l ≢ m → entry d t l ≡ entry d s l
  pub fresh : (k : ℕ) → t.words v k ≡ s.words v k
  pub contents :
      (l k : ℕ)
      → l < user_entries
      → is_present (entry d s l) ≡ true
      → t.words (frame (entry d s l)) k ≡ s.words (frame (entry d s l)) k
  pub cost : length s.free ≤ length t.free + 1
  pub same_end : t.kend ≡ s.kend

pub present-entry :
    (d m : ℕ) (t : Vm)
    → is_present (t.words d (m / 1024)) ≡ true
    → t.words (frame (t.words d (m / 1024))) (m % 1024) ≡ entry d t m
unfolding entry
present-entry d m t p = ground (arith, p)

pub busy_frame :
    (d l : ℕ) (s : Vm)
    → IsSpace d s
    → l < user_entries
    → is_present (entry d s l) ≡ true
    → times (frame (entry d s l)) s.free ≡ 0
busy_frame d l s a h p =
    let at = own_frame d l (s.words d) (entry d s) in
    ap (λ v. times v s.free) (sym at)
    ∙ a.pages.busy (l + 1025) (omega arith) (λ z. a.frames l h p (sym at ∙ z))

-- After the walk the entry is set.
set-Mapped :
    (d m v x p k : ℕ) (s t : Vm)
    → IsSpace d s
    → IsUnused d s v
    → m < user_entries
    → frame x ≡ v
    → Walked d m p k s t
    → Mapped d m v x s (set_word (frame (t.words d (m / 1024))) (m % 1024) x t)
set-Mapped d m v x p k s t a u h f w =
    let i_lt : m / 1024 < 1024 = omega arith in
    let k_lt : m % 1024 < 1024 = omega arith in
    let at : m ≡ m / 1024 * 1024 + m % 1024 = omega arith in
    let root = set_word-root d (m / 1024) (m % 1024) x t w.space i_lt k_lt w.present in
    let same = set_word-entry_ne d (m / 1024) (m % 1024) x t w.space i_lt k_lt w.present in
    let set = set_word-entry d (m / 1024) (m % 1024) x t w.space i_lt k_lt w.present m at in
    let y = w.spare v u in
    record {
      space =
          frame-IsMap t.kend d (t.words d) (entry d t) _ _ t.free w.space m v y h (ap frame set ∙ f)
            root (λ l g ne. same l (omega arith) (λ e. ne (e ∙ sym at)));
      here = set;
      others = λ l g ne. same l g (λ e. ne (e ∙ sym at)) ∙ w.entries l g;
      fresh = λ j.
          let e = spare-IsElsewhere d t w.space v y in
          let e0 = spare-IsElsewhere d s a v u in
          let ne = e.not_table (m / 1024) i_lt w.present in
          other_word (frame (t.words d (m / 1024))) v (m % 1024) x j t ne
          ∙ w.kept v j e0.not_root u.off_list;
      contents = λ l j g q.
          let v1 = frame (entry d s l) in
          let q1 : is_present (entry d t l) ≡ true =
            ap is_present (w.entries l (omega arith)) ∙ q in
          let e = frame-IsElsewhere d t w.space l v1 g q1 (ap frame (w.entries l (omega arith))) in
          let e0 = frame-IsElsewhere d s a l v1 g q refl in
          let ne = e.not_table (m / 1024) i_lt w.present in
          other_word (frame (t.words d (m / 1024))) v1 (m % 1024) x j t ne
          ∙ w.kept v1 j e0.not_root (busy_frame d l s a g q);
      cost = w.cost;
      same_end = w.same_end;
    }
  where
    other_word : (b c i y j : ℕ) (r : Vm) → b ≢ c → (set_word b i y r).words c j ≡ r.words c j
    other_word b c i y j r ne = ground (arith, ne)

-- What `mappages` of one page comes to: there is no page for a table and nothing is changed, or the
-- page is mapped.
abbrev pub Maps : ℕ → ℕ → ℕ → ℕ → ℕ → Vm → Type 0
Maps d m v va perm s =
    ((mappages d va pgsize (v2p v) perm s ≡ done false s) × (s.free ≡ []))
    ⊎ ((t : Vm) × (mappages d va pgsize (v2p v) perm s ≡ done true t)
        × Mapped d m v (pte (v2p v) perm) s t)

one_round_none :
    (fuel d a pa perm : ℕ) (s t : Vm)
    → walkpgdir d a true s ≡ (none, t)
    → map_loop (suc fuel) d a a pa perm s ≡ done false t
unfolding map_loop map_at
one_round_none fuel d a pa perm s t e =
    ap
      (map_at
        (λ t. elim (a == a) [
          | true ↦ done true t
          | false ↦ map_loop fuel d (add a pgsize) a (add pa pgsize) perm t
        ])
        pa perm)
      e

set_at_last :
    (next : Vm → Call Bool) (pa perm p k : ℕ) (t : Vm)
    → is_present (t.words p k) ≡ false
    → ((u : Vm) → next u ≡ done true u)
    → map_at next pa perm (some (p, k), t) ≡ done true (set_word p k (pte pa perm) t)
unfolding map_at
set_at_last next pa perm p k t e h = simp (map_at, e) (h (set_word p k (pte pa perm) t))

one_round_some :
    (fuel d a pa perm p k : ℕ) (s t : Vm)
    → walkpgdir d a true s ≡ (some (p, k), t)
    → is_present (t.words p k) ≡ false
    → map_loop (suc fuel) d a a pa perm s ≡ done true (set_word p k (pte pa perm) t)
unfolding map_loop
one_round_some fuel d a pa perm p k s t e absent =
    let next : Vm → Call Bool = λ t. elim (a == a) [
      | true ↦ done true t
      | false ↦ map_loop fuel d (add a pgsize) a (add pa pgsize) perm t
    ] in
    let last : (a == a) ≡ true = ground arith in
    ap (map_at next pa perm) e ∙ set_at_last next pa perm p k t absent (λ u. rw (last) refl)

mappages_one :
    (d va pa perm : ℕ) (s : Vm)
    → va % 4096 ≡ 0
    → va < 2147483648
    → mappages d va pgsize pa perm s ≡ map_loop (suc 1048575) d va va pa perm s
unfolding mappages
mappages_one d va pa perm s h l =
    let first : pg_round_down va ≡ va = omega arith in
    let last : pg_round_down ((va + pgsize + address_range - 1) % address_range) ≡ va =
      omega arith in
    ap₂ (λ (x y : ℕ). map_loop (suc 1048575) d x y pa perm s) first last

pub mappages-Maps :
    (d m v va perm : ℕ) (s : Vm)
    → IsSpace d s
    → IsUnused d s v
    → m < user_entries
    → va ≡ m * 4096
    → perm < 4096
    → is_present (entry d s m) ≡ false
    → Maps d m v va perm s
mappages-Maps d m v va perm s a u h e l absent =
    let one = mappages_one d va (v2p v) perm s (omega arith) (omega arith) in
    elim (walkpgdir-Walks d va m s a (omega arith) (omega arith) (omega arith)) [
      | inl (run, empty) ↦ inl (one ∙ one_round_none _ d va (v2p v) perm s s run, empty)
      | inr (p, k, t, run, w) ↦
          let at = ap₂ (λ (x y : ℕ). t.words x y) w.page w.index in
          let gone : is_present (t.words p k) ≡ false =
            ap is_present (at ∙ present-entry d m t w.present ∙ w.entries m (omega arith))
            ∙ absent in
          let (f, _) = frame-pte s.kend v perm u.fits l in
          inr (
            set_word (frame (t.words d (m / 1024))) (m % 1024) (pte (v2p v) perm) t,
            one
                ∙ one_round_some _ d va (v2p v) perm p k s t run gone
                ∙ ap₂ (λ (x y : ℕ). done true (set_word x y (pte (v2p v) perm) t)) w.page w.index,
            set-Mapped d m v (pte (v2p v) perm) p k s t a u h f w,
          )
    ]
