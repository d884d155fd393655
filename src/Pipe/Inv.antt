-- ===== src/Pipe/Inv.antt =====
-- The representation of a pipe (xv6/pipe.c) as the queue of the bytes in it.
use laboratorio_valen_el_noo.Base.{
  ℕ, zero, suc, ◌+◌, ◌-◌, ◌%◌, ◌≤◌, ◌<◌, ◌≡◌, refl, ap, ap₂, ◌∙◌, true, false, List, [], ◌∷◌, ◌++◌,
  arith, get_or, set, length, length-set, get_or-set_self, get_or-set_ne,
}
use laboratorio_valen_el_noo.Pipe.{
  Pipe, pipesize, uint_range, setup, is_full, is_empty, put, front, advance,
}

-- How many bytes are in the pipe: `nwrite - nread` in `uint` arithmetic.
abbrev pub level : Pipe → ℕ
level p = (p.nwrite + uint_range - p.nread) % uint_range

pub record IsValid (p : Pipe) : Type 0 where
  pub storage : length p.buf ≡ pipesize
  pub read_word : p.nread < uint_range
  pub write_word : p.nwrite < uint_range
  pub fits : level p ≤ pipesize

-- The `k` bytes from counter `r` on.
abbrev pub window : List ℕ → ℕ → ℕ → List ℕ
window buf r zero = []
window buf r (suc k) = get_or buf (r % pipesize) 0 ∷ window buf ((r + 1) % uint_range) k

-- The bytes in the pipe, oldest first.
abbrev pub contents : Pipe → List ℕ
contents p = window p.buf p.nread (level p)

pub length-window : (buf : List ℕ) (r k : ℕ) → length (window buf r k) ≡ k
length-window buf r zero = refl
length-window buf r (suc k) = ap suc (length-window buf ((r + 1) % uint_range) k)

-- A write at counter `r + k` extends the window of `k` bytes.
window-set :
    (buf : List ℕ) (x k r i : ℕ)
    → length buf ≡ pipesize
    → r < uint_range
    → k < pipesize
    → i ≡ (r + k) % pipesize
    → window (set buf i x) r (suc k) ≡ window buf r k ++ (x ∷ [])
window-set buf x zero r i len hr hk e =
    let e' : i ≡ r % pipesize = omega arith in
    ap (λ b. b ∷ []) (rw e' (get_or-set_self buf (r % pipesize) x 0 (omega arith)))
window-set buf x (suc k) r i len hr hk e =
    ap₂ ◌∷◌ (get_or-set_ne buf i (r % pipesize) x 0 (omega arith))
      (window-set buf x k ((r + 1) % uint_range) i len (omega arith) (omega arith) (omega arith))

pub put-IsValid : {p : Pipe} (x : ℕ) → IsValid p → is_full p ≡ false → IsValid (put p x)
unfolding put is_full
put-IsValid {p} x v h = ground (arith, length-set p.buf (p.nwrite % pipesize) x)

pub level-put : (p : Pipe) (x : ℕ) → IsValid p → is_full p ≡ false → level (put p x) ≡ suc (level p)
unfolding put is_full
level-put p x v h = ground arith

-- `put` appends a byte to a pipe that is not full.
pub contents-put :
    (p : Pipe) (x : ℕ) → IsValid p → is_full p ≡ false → contents (put p x) ≡ contents p ++ (x ∷ [])
unfolding put is_full
contents-put p x v h =
    ap (window (put p x).buf p.nread) (level-put p x v h)
    ∙ window-set p.buf x (level p) p.nread (p.nwrite % pipesize) v.storage v.read_word
        (ground arith) (omega arith)

pub level_empty : (p : Pipe) → IsValid p → is_empty p ≡ true → level p ≡ 0
unfolding is_empty
level_empty p v h = ground arith

-- `front` and `advance` take the oldest byte from a pipe that is not empty.
pub contents-advance :
    (p : Pipe)
    → IsValid p
    → is_empty p ≡ false
    → IsValid (advance p)
      × (contents p ≡ front p ∷ contents (advance p))
      × (level p ≡ suc (level (advance p)))
unfolding is_empty advance front
contents-advance p v h =
    let e : level p ≡ suc (level (advance p)) = ground arith in
    (ground arith, ap (window p.buf p.nread) e, e)

pub level_full : (p : Pipe) → IsValid p → is_full p ≡ true → level p ≡ pipesize
unfolding is_full
level_full p v h = ground arith

-- What `pipealloc` sets up is valid and empty.
pub setup-IsValid :
    (page : List ℕ) → length page ≡ pipesize → IsValid (setup page) × (contents (setup page) ≡ [])
unfolding setup
setup-IsValid page len = (omega (arith, len), refl)
