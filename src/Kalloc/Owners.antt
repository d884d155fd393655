-- ===== src/Kalloc/Owners.antt =====
-- Pages of xv6/kalloc.c and who holds them.
use laboratorio_valen_el_noo.Base.{
  times, remove, times-remove, times_self, ℕ, ◌+◌, ◌≤◌, ◌<◌, ◌≡◌, ◌≢◌, refl, sym, ap, ◌∙◌, false,
  some, List, [], ◌∷◌, ◌==◌, arith,
}
use laboratorio_valen_el_noo.Kalloc.{junk, Kmem, put_word, refused, kfree, kalloc}

-- The pages `ps` form the list that starts at `h`.
abbrev pub Linked : (ℕ → ℕ) → ℕ → List ℕ → Type 0
Linked w h [] = h ≡ 0
Linked w h (p ∷ ps) = (h ≡ p) × (0 < p) × Linked w (w p) ps

pub record System : Type 0 where
  pub kmem : Kmem
  pub held : List ℕ

-- The users of the allocator take pages, write to pages that they hold, and give these back.
pub data Step (kend : ℕ) (s : System) : System → Type 0 where
  take_page :
      (v : ℕ) (k : Kmem)
      → kalloc s.kmem ≡ (v, k)
      → v ≢ 0
      → Step kend s (record { kmem = k; held = v ∷ s.held })
  give_back :
      (v : ℕ) (k : Kmem)
      → 0 < times v s.held
      → kfree kend v s.kmem ≡ some k
      → Step kend s (record { kmem = k; held = remove v s.held })
  write_word :
      (v x : ℕ)
      → 0 < times v s.held
      → Step kend s (record s { kmem = record s.kmem { word = put_word v x s.kmem.word } })

pub data Reach (kend : ℕ) (s : System) : System → Type 0 where
  here : Reach kend s s
  later : {t u : System} → Reach kend s t → Step kend t u → Reach kend s u

-- The free list and the held pages make up the pages `ps`, each once and each fit for `kfree`.
pub record IsPartition (kend : ℕ) (ps : List ℕ) (s : System) : Type 0 where
  pub free : List ℕ
  pub linked : Linked s.kmem.word s.kmem.freelist free
  pub split : (x : ℕ) → times x free + times x s.held ≡ times x ps
  pub once : (x : ℕ) → times x ps ≤ 1
  pub fit : (x : ℕ) → 0 < times x ps → (0 < x) × (refused kend x ≡ false)

put_word-Linked :
    (w : ℕ → ℕ) (v x h : ℕ) (ps : List ℕ)
    → times v ps ≡ 0
    → Linked w h ps
    → Linked (put_word v x w) h ps
put_word-Linked w v x h [] e l = l
put_word-Linked w v x h (p ∷ ps) e (a, b, l) =
    let other : (p == v) ≡ false = ground (arith, e) in
    (a, b, rw other (put_word-Linked w v x (w p) ps (ground (arith, e)) l))

-- `kfree` puts a page in front.
pub pushed-Linked :
    (w : ℕ → ℕ) (v h : ℕ) (free : List ℕ)
    → times v free ≡ 0
    → 0 < v
    → Linked w h free
    → Linked (put_word v h (put_word v junk w)) v (v ∷ free)
pushed-Linked w v h free absent p l =
    let next : put_word v h (put_word v junk w) v ≡ h = ground arith in
    (
      refl,
      p,
      rw next (put_word-Linked _ v h h free absent (put_word-Linked w v junk h free absent l)),
    )

-- A list that is not empty starts with its first page.
uncons-Linked :
    (w : ℕ → ℕ) (h : ℕ) (free : List ℕ)
    → Linked w h free
    → h ≢ 0
    → (rest : List ℕ) × (free ≡ h ∷ rest) × Linked w (w h) rest
uncons-Linked w h [] l ne = absurd (ne l)
uncons-Linked w h (p ∷ ps) (a, b, l) ne = (ps, ap (λ q. q ∷ ps) (sym a), rw a l)

empty-Linked : (w : ℕ → ℕ) (h : ℕ) (free : List ℕ) → Linked w h free → h ≡ 0 → free ≡ []
empty-Linked w h [] l z = refl
empty-Linked w h (p ∷ ps) (a, b, l) z = absurd (omega arith)

take-IsPartition :
    (kend : ℕ) (ps : List ℕ) (s : System) (v : ℕ) (k : Kmem)
    → kalloc s.kmem ≡ (v, k)
    → v ≢ 0
    → IsPartition kend ps s
    → IsPartition kend ps (record { kmem = k; held = v ∷ s.held })
unfolding kalloc
take-IsPartition kend ps s v k e ne f =
    let head : s.kmem.freelist ≡ v = ground (arith, e) in
    let (rest, eq, l) =
      uncons-Linked s.kmem.word s.kmem.freelist f.free f.linked (λ z. ne (sym head ∙ z)) in
    let same : k ≡ record s.kmem { freelist = s.kmem.word v } = ground (arith, e) in
    let tail : Linked s.kmem.word (s.kmem.word v) rest = rw (← head) l in
    record {
      free = rest;
      linked = rw same tail;
      split = λ x. ground (arith, f.split x, ap (times x) eq, head);
      once = f.once;
      fit = f.fit;
    }

give-IsPartition :
    (kend : ℕ) (ps : List ℕ) (s : System) (v : ℕ) (k : Kmem)
    → 0 < times v s.held
    → kfree kend v s.kmem ≡ some k
    → IsPartition kend ps s
    → IsPartition kend ps (record { kmem = k; held = remove v s.held })
unfolding kfree
give-IsPartition kend ps s v k h e f =
    let w = put_word v s.kmem.freelist (put_word v junk s.kmem.word) in
    let same : k ≡ record { freelist = v; word = w } = ground (arith, e) in
    let absent : times v f.free ≡ 0 = omega (arith, f.split v, f.once v) in
    let whole : IsPartition kend ps
        (record { kmem = record { freelist = v; word = w }; held = remove v s.held }) =
      record {
        free = v ∷ f.free;
        linked =
            pushed-Linked s.kmem.word v s.kmem.freelist f.free absent
              (f.fit v (omega (arith, f.split v))).0 f.linked;
        split = λ x. omega (arith, f.split x, times-remove v x s.held h);
        once = f.once;
        fit = f.fit;
      } in
    rw same whole

write-IsPartition :
    (kend : ℕ) (ps : List ℕ) (s : System) (v x : ℕ)
    → 0 < times v s.held
    → IsPartition kend ps s
    → IsPartition kend ps (record s { kmem = record s.kmem { word = put_word v x s.kmem.word } })
write-IsPartition kend ps s v x h f = record {
  free = f.free;
  linked =
      put_word-Linked s.kmem.word v x s.kmem.freelist f.free (omega (arith, f.split v, f.once v))
        f.linked;
  split = f.split;
  once = f.once;
  fit = f.fit;
}

Step-IsPartition :
    {kend : ℕ} {ps : List ℕ} {s t : System}
    → Step kend s t
    → IsPartition kend ps s
    → IsPartition kend ps t
Step-IsPartition {kend} {ps} {s} (take_page v k e ne) f = take-IsPartition kend ps s v k e ne f
Step-IsPartition {kend} {ps} {s} (give_back v k h e) f = give-IsPartition kend ps s v k h e f
Step-IsPartition {kend} {ps} {s} (write_word v x h) f = write-IsPartition kend ps s v x h f

pub Reach-IsPartition :
    {kend : ℕ} {ps : List ℕ} {s t : System}
    → IsPartition kend ps s
    → Reach kend s t
    → IsPartition kend ps t
Reach-IsPartition f here = f
Reach-IsPartition f (later r st) = Step-IsPartition st (Reach-IsPartition f r)

pub kfree_accepts :
    (kend v : ℕ) (k : Kmem) → refused kend v ≡ false → (l : Kmem) × (kfree kend v k ≡ some l)
unfolding kfree
kfree_accepts kend v k h = (
  record { freelist = v; word = put_word v k.freelist (put_word v junk k.word) },
  ground (arith, h),
)

-- The free list and the pages held go on making up the same pages, however users take pages, give
-- them back and write to those that they hold: no page is lost, and none is handed to two users.
-- From then on `kalloc` returns 0 only when every page is held, and otherwise a page that is not
-- held; and `kfree` accepts each page that is held.
pub pages_exclusive :
    (kend : ℕ) (ps : List ℕ) (s t : System)
    → IsPartition kend ps s
    → Reach kend s t
    → ((x : ℕ) → times x t.held ≤ 1)
      × ((kalloc t.kmem).0 ≡ 0 → (x : ℕ) → times x t.held ≡ times x ps)
      × ((kalloc t.kmem).0 ≢ 0
          → (times (kalloc t.kmem).0 t.held ≡ 0) × (times (kalloc t.kmem).0 ps ≡ 1))
      × ((v : ℕ) → 0 < times v t.held → (k : Kmem) × (kfree kend v t.kmem ≡ some k))
unfolding kalloc kfree
pages_exclusive kend ps s t f run =
    let g = Reach-IsPartition f run in
    (
      λ x. omega (arith, g.split x, g.once x),
      λ z x.
          let eq = empty-Linked t.kmem.word t.kmem.freelist g.free g.linked z in
          omega (arith, g.split x, ap (times x) eq),
      λ z.
          let v = t.kmem.freelist in
          let (rest, eq, l) = uncons-Linked t.kmem.word v g.free g.linked z in
          let here_once = ap (times v) eq ∙ times_self v rest in
          (
            omega (arith, g.split v, g.once v, here_once),
            omega (arith, g.split v, g.once v, here_once),
          ),
      λ v h. kfree_accepts kend v t.kmem (g.fit v (omega (arith, g.split v))).1,
    )
