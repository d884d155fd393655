-- ===== src/Log/Crash.antt =====
-- Loss of power during `commit` and during recovery (xv6/log.c).
use laboratorio_valen_el_noo.Base.{
  ℕ, suc, ◌-◌, ◌≤◌, ◌<◌, ◌≡◌, refl, ap, ◌∙◌, true, false, inl, inr, List, [], ◌∷◌, ltb, ◌==◌,
  if◌then◌else◌, length, arith, Bool-cases, take-append, drop,
}
use laboratorio_valen_el_noo.Log.{
  Block, Dev, Log, install_from, mem, put_header, get_header, install_trans, write_head, cleared,
}
use laboratorio_valen_el_noo.Log.Install.{
  is_home, AllHome, Logged, Logged-ext, Installed-outside, install_from-Installed,
  bwrite-fill_cache, bwrite-fill_disk, bwrite-fill_power,
}

get_header-put_header : (bs : List ℕ) (w : Block) → get_header (put_header bs w) ≡ bs
unfolding get_header put_header
get_header-put_header bs w = take-append bs (drop (suc (length bs)) w)

-- A block of the log is none of the blocks to install.
not_mem_of_home :
    (lo n x : ℕ) (bs : List ℕ) → AllHome lo n bs → is_home lo n x ≡ false → mem x bs ≡ false
unfolding mem
not_mem_of_home lo n x [] a h = refl
not_mem_of_home lo n x (b ∷ bs) a h = ground (arith, a.0, h, not_mem_of_home lo n x bs a.1 h)

-- The disk `f` of a machine that stopped: its header names the blocks `hs`, which the log holds.
pub record Pending (s n : ℕ) (target : ℕ → Block) (hs : List ℕ) (f : ℕ → Block) : Type 0 where
  pub header : get_header (f s) ≡ hs
  pub short : length hs ≤ n
  pub home : AllHome s n hs
  pub logged : Logged target (suc s) hs f

-- What the blocks outside the log will be once the log is installed.
abbrev pub outcome : (ℕ → Block) → List ℕ → (ℕ → Block) → ℕ → Block
outcome target hs f x = if mem x hs then target x else f x

-- `write_head` with power, and without.
pub write_head_on :
    (l : Log) (d : Dev)
    → 0 < d.power
    → (get_header ((write_head l d).disk l.start) ≡ l.blocks)
      × ((x : ℕ) → (l.start == x) ≡ false → (write_head l d).disk x ≡ d.disk x)
unfolding write_head
write_head_on l d p =
    let v = put_header l.blocks (d.cache l.start) in
    (
      ap get_header (bwrite-fill_disk l.start v d l.start ∙ ground arith)
          ∙ get_header-put_header l.blocks (d.cache l.start),
      λ x e. bwrite-fill_disk l.start v d x ∙ ground (arith, e),
    )

pub write_head_off :
    (l : Log) (d : Dev) → d.power ≡ 0 → (x : ℕ) → (write_head l d).disk x ≡ d.disk x
unfolding write_head
write_head_off l d p x =
    bwrite-fill_disk l.start (put_header l.blocks (d.cache l.start)) d x ∙ ground arith

pub write_head_power : (l : Log) (d : Dev) → (write_head l d).power ≡ d.power - 1
unfolding write_head
write_head_power l d = bwrite-fill_power l.start (put_header l.blocks (d.cache l.start)) d

pub write_head_cache :
    (l : Log) (d : Dev) (x : ℕ) → (l.start == x) ≡ false → (write_head l d).cache x ≡ d.cache x
unfolding write_head
write_head_cache l d x e =
    ap (λ f. f x) (bwrite-fill_cache l.start (put_header l.blocks (d.cache l.start)) d)
    ∙ ground (arith, e)

-- What installing and clearing the log leaves: the same blocks are pending, or none is; and nothing
-- outside the log turns out otherwise.
pub record Resumed (s n : ℕ) (target : ℕ → Block) (hs : List ℕ) (f g : ℕ → Block) (k : ℕ)
    : Type 0 where
  pub left : List ℕ
  pub pending : Pending s n target left g
  pub same : (x : ℕ) → is_home s n x ≡ true → outcome target left g x ≡ outcome target hs f x
  pub finished : length hs < k → left ≡ []

on_power : (d : Dev) → ltb 0 d.power ≡ true → 0 < d.power
on_power d h = ground arith

pub install_clear :
    (l : Log) (n : ℕ) (target : ℕ → Block) (d : Dev)
    → Pending l.start n target l.blocks d.disk
    → Logged target (suc l.start) l.blocks d.cache
    → Resumed l.start n target l.blocks d.disk
        (write_head (cleared l) (install_trans l d)).disk
        d.power
unfolding install_trans cleared mem
install_clear l n target d p g =
    let i =
      install_from-Installed target l.start n (suc l.start) l.blocks d (omega arith)
        (omega (arith, p.short)) p.home g in
    let d1 : Dev = install_from (suc l.start) l.blocks d in
    let kept : (x : ℕ) → is_home l.start n x ≡ false → d1.disk x ≡ d.disk x =
      λ x h. Installed-outside i x (not_mem_of_home l.start n x l.blocks p.home h) in
    elim (Bool-cases (ltb 0 d1.power)) [
      | inl on ↦
          let (hd, rest) = write_head_on (cleared l) d1 (ground arith) in
          record {
            left = [];
            pending = record { header = hd; short = omega arith; home = tt; logged = tt };
            same = λ x h.
                let e = rest x (ground (arith, h)) in
                elim (Bool-cases (mem x l.blocks)) [
                  | inl t ↦ rw t (e ∙ i.done (omega (arith, i.power, on_power d1 on)) x t)
                  | inr t ↦ rw t (e ∙ Installed-outside i x t)
                ];
            finished = λ h. refl;
          }
      | inr off ↦
          let zero_power : d1.power ≡ 0 = ground arith in
          record {
            left = l.blocks;
            pending = record {
              header =
                  ap get_header
                    (write_head_off (cleared l) d1 zero_power l.start ∙ kept l.start (ground arith))
                  ∙ p.header;
              short = p.short;
              home = p.home;
              logged =
                  Logged-ext target d.disk _ (suc l.start) l.blocks
                    (λ x a b.
                      write_head_off (cleared l) d1 zero_power x ∙ kept x (ground (arith, p.short)))
                    p.logged;
            };
            same = λ x h. elim (Bool-cases (mem x l.blocks)) [
              | inl t ↦ rw t refl
              | inr t ↦ rw t (write_head_off (cleared l) d1 zero_power x ∙ Installed-outside i x t)
            ];
            finished = λ h. absurd (omega (arith, i.power));
          }
    ]
