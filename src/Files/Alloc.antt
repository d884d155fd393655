-- ===== src/Files/Alloc.antt =====
-- `pipealloc` on the table of files (xv6/pipe.c, xv6/file.c).
use laboratorio_valen_el_noo.Base.{
  ℕ, zero, suc, ◌≡◌, ◌≢◌, refl, sym, ap, ap₂, ◌∙◌, ◌⊎◌, inl, inr, Option, none, some, List, [], ◌∷◌,
  get_elem?, modify, modify-modify, find_index, find_index-some, get_elem?-modify_self,
  get_elem?-modify_ne, arith, Option-cases,
}
use laboratorio_valen_el_noo.Files.{
  fd_none, File, ok, is_unused, filealloc, Closing, nothing, closing, fileclose, opened, failed,
  read_end, write_end, close_after, bad, pipealloc, with_page, with_first, pipe_files,
}
use laboratorio_valen_el_noo.Files.Count.{close_last}

-- A free entry has no type.
abbrev pub IsClean : List File → Type 0
IsClean t = (i : ℕ) (f : File) → get_elem? t i ≡ some f → f.ref ≡ 0 → f.type ≡ fd_none

-- A change that changes nothing.
modify_same :
    (t : List File) (i : ℕ) (g : File → File) (f : File)
    → get_elem? t i ≡ some f
    → g f ≡ f
    → modify t i g ≡ t
modify_same [] i g f h k = refl
modify_same (x ∷ t) zero g f h k =
    let e : x ≡ f = ground (arith, h) in ap (λ y. y ∷ t) (ap g e ∙ k ∙ sym e)
modify_same (x ∷ t) (suc i) g f h k = ap (λ y. x ∷ y) (modify_same t i g f h k)

abbrev taken : File → File
taken f = record f { ref = 1 }

abbrev dropped : File → File
dropped f = record f { ref = 0; type = fd_none }

closing_none : (f : File) → f.type ≡ fd_none → closing (taken f) ≡ nothing
unfolding closing
closing_none f n = rw (n, closing) refl

same_file : (f : File) → f.ref ≡ 0 → f.type ≡ fd_none → dropped (taken f) ≡ f
same_file f z n = ground (arith, z, n)

-- To close an entry just allocated undoes the allocation, and closes nothing.
close_fresh :
    (t : List File) (i : ℕ) (f : File)
    → get_elem? t i ≡ some f
    → f.ref ≡ 0
    → f.type ≡ fd_none
    → fileclose i (modify t i taken) ≡ ok (nothing, t)
close_fresh t i f at z n =
    close_last (modify t i taken) i (taken f) (get_elem?-modify_self t i taken f at) refl
    ∙ ap₂ (λ (c : Closing) (u : List File). ok (c, u)) (closing_none f n)
        (modify-modify t i taken dropped ∙ modify_same t i _ f at (same_file f z n))

modify_comm :
    (t : List File) (i j : ℕ) (f g : File → File)
    → i ≢ j
    → modify (modify t i f) j g ≡ modify (modify t j g) i f
modify_comm [] i j f g ne = refl
modify_comm (x ∷ t) zero zero f g ne = absurd (ne refl)
modify_comm (x ∷ t) zero (suc j) f g ne = refl
modify_comm (x ∷ t) (suc i) zero f g ne = refl
modify_comm (x ∷ t) (suc i) (suc j) f g ne =
    ap (λ y. x ∷ y) (modify_comm t i j f g (λ e. ne (ap suc e)))

-- The first of two entries just allocated is closed.
close_first :
    (t : List File) (i j : ℕ) (f : File)
    → i ≢ j
    → get_elem? t i ≡ some f
    → f.ref ≡ 0
    → f.type ≡ fd_none
    → fileclose i (modify (modify t i taken) j taken) ≡ ok (nothing, modify t j taken)
close_first t i j f ne at z n =
    let at_i = get_elem?-modify_ne t j i taken (λ e. ne (sym e)) ∙ at in
    ap (fileclose i) (modify_comm t i j taken taken ne)
    ∙ close_fresh (modify t j taken) i f at_i z n

abbrev pub AllNothing : List Closing → Type 0
AllNothing [] = Unit {0}
AllNothing (c ∷ cs) = (c ≡ nothing) × AllNothing cs

-- What `pipealloc` may come to: nothing is changed and nothing closed, or two entries that were
-- free are the ends of the pipe in the page, with one reference each, and no other is changed.
abbrev pub Allocated : Option ℕ → List File → Type 0
Allocated page t =
    ((cs : List Closing) × (pipealloc page t ≡ ok (failed cs, t)) × AllNothing cs)
    ⊎ ((p i j : ℕ) × (f g : File) × (u : List File) × (page ≡ some p)
        × (pipealloc page t ≡ ok (opened i j, u))
        × (i ≢ j)
        × ((get_elem? t i ≡ some f) × (f.ref ≡ 0))
        × ((get_elem? t j ≡ some g) × (g.ref ≡ 0))
        × (get_elem? u i ≡ some (read_end p (taken f)))
        × (get_elem? u j ≡ some (write_end p (taken g)))
        × ((k : ℕ) → i ≢ k → j ≢ k → get_elem? u k ≡ get_elem? t k))

first_free :
    (t : List File)
    → (filealloc t ≡ (none, t))
      ⊎ ((i : ℕ) × (f : File) × (filealloc t ≡ (some i, modify t i taken))
          × (get_elem? t i ≡ some f)
          × (f.ref ≡ 0))
unfolding filealloc
first_free t = elim (Option-cases (find_index is_unused t)) [
  | inl n ↦ inl (rw (n, filealloc) refl)
  | inr (i, k) ↦
      let (f, at, z) = find_index-some is_unused t i k in
      inr (i, f, rw (k, filealloc) refl, at, ground (arith, z))
]

-- Without a page both entries are given back.
bad_two :
    (t : List File) (i j : ℕ) (f g : File)
    → i ≢ j
    → get_elem? t i ≡ some f
    → f.ref ≡ 0
    → f.type ≡ fd_none
    → get_elem? t j ≡ some g
    → g.ref ≡ 0
    → g.type ≡ fd_none
    → bad (some i) (some j) (modify (modify t i taken) j taken)
      ≡ ok (failed (nothing ∷ nothing ∷ []), t)
unfolding bad close_after
bad_two t i j f g ne at z n at_j z_j n_j =
    rw (close_first t i j f ne at z n, close_fresh t j g at_j z_j n_j, close_after, bad) refl

bad_one :
    (t : List File) (i : ℕ) (f : File)
    → get_elem? t i ≡ some f
    → f.ref ≡ 0
    → f.type ≡ fd_none
    → bad (some i) none (modify t i taken) ≡ ok (failed (nothing ∷ []), t)
unfolding bad close_after
bad_one t i f at z n = rw (close_fresh t i f at z n, close_after, bad) refl

-- The second entry found is another than the first.
second_free :
    (t : List File) (i j : ℕ) (f g : File)
    → get_elem? t i ≡ some f
    → get_elem? (modify t i taken) j ≡ some g
    → g.ref ≡ 0
    → (i ≢ j) × (get_elem? t j ≡ some g)
second_free t i j f g at at_j z =
    let ne : i ≢ j = λ e.
      let same : some g ≡ some (taken f) =
        sym at_j
        ∙ ap (get_elem? (modify t i taken)) (sym e)
        ∙ get_elem?-modify_self t i taken f at in
      ground (arith, same, z) in
    (ne, sym (get_elem?-modify_ne t i j taken ne) ∙ at_j)

-- The two entries once they are the ends of a pipe; the others keep their contents.
set_ends :
    (t : List File) (i j p : ℕ) (f g : File)
    → i ≢ j
    → get_elem? t i ≡ some f
    → get_elem? (modify t i taken) j ≡ some g
    → (let u = modify (modify (modify (modify t i taken) j taken) i (read_end p)) j (write_end p) in
        (get_elem? u i ≡ some (read_end p (taken f)))
        × (get_elem? u j ≡ some (write_end p (taken g)))
        × ((k : ℕ) → i ≢ k → j ≢ k → get_elem? u k ≡ get_elem? t k))
set_ends t i j p f g ne at at_j =
    let t0 = modify t i taken in
    let t1 = modify t0 j taken in
    let t2 = modify t1 i (read_end p) in
    let en : j ≢ i = λ e. ne (sym e) in
    (
      get_elem?-modify_ne t2 j i (write_end p) en
          ∙ get_elem?-modify_self t1 i (read_end p) (taken f)
              (get_elem?-modify_ne t0 j i taken en ∙ get_elem?-modify_self t i taken f at),
      get_elem?-modify_self t2 j (write_end p) (taken g)
          (get_elem?-modify_ne t1 i j (read_end p) ne ∙ get_elem?-modify_self t0 j taken g at_j),
      λ k nk mk.
          get_elem?-modify_ne t2 j k (write_end p) mk
          ∙ get_elem?-modify_ne t1 i k (read_end p) nk
          ∙ get_elem?-modify_ne t0 j k taken mk
          ∙ get_elem?-modify_ne t i k taken nk,
    )

-- `pipealloc`, on a table in which a free entry has no type, comes to one of the two.
pub pipealloc-Allocated : (page : Option ℕ) (t : List File) → IsClean t → Allocated page t
unfolding pipealloc pipe_files with_first with_page bad close_after
pipealloc-Allocated page t clean = elim (first_free t) [
  | inl e ↦ inl ([], ap (pipe_files page) e, tt)
  | inr (i, f, e, at, z) ↦
      let t0 = modify t i taken in
      let n = clean i f at z in
      elim (first_free t0) [
        | inl e1 ↦ inl (
          nothing ∷ [],
          ap (pipe_files page) e ∙ ap (with_first page i) e1 ∙ bad_one t i f at z n,
          (refl, tt),
        )
        | inr (j, g, e1, at_j, z1) ↦
            let (ne, old_j) = second_free t i j f g at at_j z1 in
            let n1 = clean j g old_j z1 in
            let run = ap (pipe_files page) e ∙ ap (with_first page i) e1 in
            elim (Option-cases page) [
              | inl missing ↦ inl (
                nothing ∷ (nothing ∷ []),
                run
                    ∙ ap (λ o. with_page o i j (modify t0 j taken)) missing
                    ∙ bad_two t i j f g ne at z n old_j z1 n1,
                (refl, (refl, tt)),
              )
              | inr (p, is_p) ↦
                  let (at_first, at_second, at_others) = set_ends t i j p f g ne at at_j in
                  inr (
                    p,
                    i,
                    j,
                    f,
                    g,
                    modify (modify (modify t0 j taken) i (read_end p)) j (write_end p),
                    is_p,
                    run ∙ ap (λ o. with_page o i j (modify t0 j taken)) is_p,
                    ne,
                    (at, z),
                    (old_j, z1),
                    at_first,
                    at_second,
                    at_others,
                  )
            ]
      ]
]
