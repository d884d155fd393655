-- ===== src/Fs/Dir/Lookup.antt =====
-- `dirlookup` of xv6/fs.c on the entries of a directory.
use laboratorio_valen_el_noo.Base.{
  ℕ, zero, suc, ◌+◌, ◌*◌, ◌%◌, ◌≤◌, ◌<◌, ◌≡◌, ◌≢◌, refl, sym, ap, ap₂, ◌∙◌, ◌⊎◌, inl, inr, Bool,
  true, false, Option, some, none, ◌==◌, ltb, arith, Bool-cases, not, ◌&&◌,
}
use laboratorio_valen_el_noo.Strings.{Bytes}
use laboratorio_valen_el_noo.Strings.Compare.{is_zero, read_text, read_text_same, strncmp-Compares}
use laboratorio_valen_el_noo.Fs.{
  Locked, Result, ok, ◌>>=◌, io_done, readi, maxfile, bsize, copied, add,
}
use laboratorio_valen_el_noo.Fs.Slots.{byte_at}
use laboratorio_valen_el_noo.Fs.Read.{HasBlocks}
use laboratorio_valen_el_noo.Fs.Guards.{readable}
use laboratorio_valen_el_noo.Fs.Content.{readi_lem}
use laboratorio_valen_el_noo.Fs.Path.{dirsiz}
use laboratorio_valen_el_noo.Fs.Dir.{
  t_dir, dirent_size, inum_of, namecmp, is_entry, whole_entry, dir_loop, dirlookup,
}

-- Entry `k` of a directory: its inode number, and its name.
unfoldable pub inum_at : Locked → ℕ → ℕ
inum_at s k = byte_at s (16 * k) + 256 * byte_at s (16 * k + 1)

-- Entry `k` is in use and has the name.
abbrev pub IsMatch : Locked → Bytes → ℕ → Type 0
IsMatch s name k =
    (inum_at s k ≢ 0) × (read_text dirsiz 0 name ≡ read_text dirsiz (16 * k + 2) (byte_at s))

abbrev pub NoMatch : Locked → Bytes → ℕ → Type 0
NoMatch s name k =
    (inum_at s k ≡ 0) ⊎ (read_text dirsiz 0 name ≢ read_text dirsiz (16 * k + 2) (byte_at s))

-- The first entry with the name, or there is none.
abbrev pub Found : Locked → Bytes → Option (ℕ × ℕ) → Type 0
Found s name r =
    ((r ≡ none) × ((k : ℕ) → 16 * k < s.ip.copy.size → NoMatch s name k))
    ⊎ ((k : ℕ) × (r ≡ some (16 * k, inum_at s k))
        × (16 * k < s.ip.copy.size)
        × IsMatch s name k
        × ((j : ℕ) → j < k → NoMatch s name j))

-- `de` holds entry `k`.
abbrev Reads : Locked → ℕ → Bytes → Type 0
Reads s k de = (x : ℕ) → x < 16 → de x ≡ byte_at s (16 * k + x)

inum_read : (s : Locked) (k : ℕ) (de : Bytes) → Reads s k de → inum_of de ≡ inum_at s k
unfolding inum_at
inum_read s k de r =
    ap₂ (λ (a b : ℕ). a + 256 * b) (r 0 (omega arith) ∙ ap (byte_at s) (omega arith))
      (r 1 (omega arith))

text_read :
    (s : Locked) (k : ℕ) (de : Bytes)
    → Reads s k de
    → read_text dirsiz 2 de ≡ read_text dirsiz (16 * k + 2) (byte_at s)
text_read s k de r =
    read_text_same dirsiz 2 (16 * k + 2) de (byte_at s)
      (λ x h. r (2 + x) (omega arith) ∙ ap (byte_at s) (omega arith))

entry_unused : (name de : Bytes) → (inum_of de == 0) ≡ true → is_entry name de ≡ false
unfolding is_entry
entry_unused name de e = ap (λ b. not b && is_zero (namecmp 0 name 2 de)) e

entry_used :
    (name de : Bytes) (b : Bool)
    → (inum_of de == 0) ≡ false
    → is_zero (namecmp 0 name 2 de) ≡ b
    → is_entry name de ≡ b
unfolding is_entry
entry_used name de b e f = ap₂ (λ c d. not c && d) e f

-- The test of the loop on entry `k`.
entry-IsMatch :
    (s : Locked) (name : Bytes) (k : ℕ) (de : Bytes)
    → Reads s k de
    → ((is_entry name de ≡ true) × IsMatch s name k)
      ⊎ ((is_entry name de ≡ false) × NoMatch s name k)
unfolding namecmp
entry-IsMatch s name k de r =
    let num = inum_read s k de r in
    let text = text_read s k de r in
    elim (Bool-cases (inum_of de == 0)) [
      | inl e ↦ inr (entry_unused name de e, inl (sym num ∙ ground (arith, e)))
      | inr e ↦ elim (strncmp-Compares dirsiz 0 2 name de) [
        | inl (z, t) ↦
            inl (entry_used name de true e z, ((λ q. ground (arith, e, num, q)), t ∙ text))
        | inr (z, ne) ↦ inr (entry_used name de false e z, inr (λ t. ne (t ∙ sym text)))
      ]
    ]

-- A directory whose entries can be read.
pub record IsDir (s : Locked) : Type 0 where
  pub blocks : HasBlocks s.ip.copy.size s
  pub small : s.ip.copy.size ≤ maxfile * bsize
  pub entries : s.ip.copy.size % 16 ≡ 0
  pub kind : s.ip.copy.type ≡ t_dir

read_entry :
    (present : ℕ → Bool) (s : Locked) (k : ℕ) (de : Bytes)
    → IsDir s
    → 16 * k < s.ip.copy.size
    → (u : Bytes) × ((readi present de (16 * k) dirent_size s >>= whole_entry) ≡ ok (u, s))
      × Reads s k u
unfolding whole_entry
read_entry present s k de v h =
    let e : s.ip.copy.size % 16 ≡ 0 = v.entries in
    let top : s.ip.copy.size ≤ 71680 = v.small in
    let type : s.ip.copy.type ≡ 1 = v.kind in
    let (u, run, same) =
      readi_lem present de (16 * k) 16 s v.blocks v.small (λ z. absurd (omega (arith, type, z)))
        (omega (arith, h)) (omega (arith, h, top)) in
    let full : readable s.ip.copy.size (16 * k) 16 ≡ 16 = ground (arith, h, e) in
    (
      u,
      ap (λ (r : Result _). r >>= whole_entry) (run ∙ ap (λ (c : ℕ). ok (io_done c (u, s))) full),
      λ x l. same x ∙ ap (λ (c : ℕ). copied c 0 (16 * k) (byte_at s) de x) full ∙ ground (arith, l),
    )

dir_end :
    (fuel off : ℕ) (present : ℕ → Bool) (name de : Bytes) (s : Locked)
    → ltb off s.ip.copy.size ≡ false
    → dir_loop (suc fuel) present name off de s ≡ ok (none, s)
unfolding dir_loop
dir_end fuel off present name de s h = rw (dir_loop, h) refl

dir_hit :
    (fuel off : ℕ) (present : ℕ → Bool) (name de u : Bytes) (s : Locked)
    → ltb off s.ip.copy.size ≡ true
    → (readi present de off dirent_size s >>= whole_entry) ≡ ok (u, s)
    → is_entry name u ≡ true
    → dir_loop (suc fuel) present name off de s ≡ ok (some (off, inum_of u), s)
unfolding dir_loop
dir_hit fuel off present name de u s h run hit = rw (dir_loop, h, run) (rw (◌>>=◌, hit) refl)

dir_miss :
    (fuel off : ℕ) (present : ℕ → Bool) (name de u : Bytes) (s : Locked)
    → ltb off s.ip.copy.size ≡ true
    → (readi present de off dirent_size s >>= whole_entry) ≡ ok (u, s)
    → is_entry name u ≡ false
    → add off dirent_size ≡ off + 16
    → dir_loop (suc fuel) present name off de s ≡ dir_loop fuel present name (off + 16) u s
unfolding dir_loop
dir_miss fuel off present name de u s h run hit small =
    rw (dir_loop, h, run) (rw (◌>>=◌, hit, small) refl)

no_wrap : (off : ℕ) → off ≤ 71680 → add off dirent_size ≡ off + 16
no_wrap off h = omega (arith, h)

no_more :
    (s : Locked) (name : Bytes) (k : ℕ)
    → s.ip.copy.size ≤ 16 * k
    → ((j : ℕ) → j < k → NoMatch s name j)
    → Found s name none
no_more s name k h none_before = inl (refl, λ j l. none_before j (omega (arith, h, l)))

one_more :
    (s : Locked) (name : Bytes) (k : ℕ)
    → NoMatch s name k
    → ((j : ℕ) → j < k → NoMatch s name j)
    → (j : ℕ) → j < suc k
    → NoMatch s name j
one_more s name k now before j h = elim (Bool-cases (ltb j k)) [
  | inl low ↦ before j (ground (arith, low))
  | inr high ↦ let e : k ≡ j = ground (arith, high, h) in rw (sym e) now
]

dir_loop-Found :
    (fuel k : ℕ) (present : ℕ → Bool) (name de : Bytes) (s : Locked)
    → IsDir s
    → 16 * k ≤ s.ip.copy.size
    → s.ip.copy.size < 16 * k + fuel
    → ((j : ℕ) → j < k → NoMatch s name j)
    → (r : Option (ℕ × ℕ)) × (dir_loop fuel present name (16 * k) de s ≡ ok (r, s)) × Found s name r
dir_loop-Found zero k present name de s v h l before = absurd (omega (arith, h, l))
dir_loop-Found (suc fuel) k present name de s v h l before =
    elim (Bool-cases (ltb (16 * k) s.ip.copy.size)) [
      | inr end ↦ (
        none,
        dir_end fuel (16 * k) present name de s end,
        no_more s name k (ground (arith, end)) before,
      )
      | inl in_range ↦
          let below : 16 * k < s.ip.copy.size = ground (arith, in_range) in
          let (u, run, same) = read_entry present s k de v below in
          elim (entry-IsMatch s name k u same) [
            | inl (hit, match) ↦ (
              some (16 * k, inum_at s k),
              dir_hit fuel (16 * k) present name de u s in_range run hit
                  ∙ ap (λ (i : ℕ). ok (some (16 * k, i), s)) (inum_read s k u same),
              inr (k, refl, below, match, before),
            )
            | inr (miss, now) ↦
                let e : s.ip.copy.size % 16 ≡ 0 = v.entries in
                let top : s.ip.copy.size ≤ 71680 = v.small in
                let next : 16 * k + 16 ≡ 16 * suc k = omega arith in
                let (r, go, found) =
                  dir_loop-Found fuel (suc k) present name u s v (ground (arith, below, e))
                    (omega (arith, l)) (one_more s name k now before) in
                (
                  r,
                  dir_miss fuel (16 * k) present name de u s in_range run miss
                        (no_wrap (16 * k) (omega (arith, h, top)))
                      ∙ ap (λ (o : ℕ). dir_loop fuel present name o u s) next
                      ∙ go,
                  found,
                )
          ]
    ]

dirlookup_dir :
    (present : ℕ → Bool) (name de : Bytes) (s : Locked)
    → (s.ip.copy.type == t_dir) ≡ true
    → dirlookup present name de s ≡ dir_loop (s.ip.copy.size + 1) present name 0 de s
unfolding dirlookup
dirlookup_dir present name de s h = rw (dirlookup, h) refl

-- On a directory of whole entries, no longer than MAXFILE blocks, that are allocated as far as its size,
-- `dirlookup` does not panic and changes nothing: it finds the first entry in use whose name is, up to 14
-- bytes, the one asked for, with its offset and its inode number, or returns null where there is none.
pub dirlookup-Found :
    (present : ℕ → Bool) (name de : Bytes) (s : Locked)
    → IsDir s
    → (r : Option (ℕ × ℕ)) × (dirlookup present name de s ≡ ok (r, s)) × Found s name r
dirlookup-Found present name de s v =
    let (r, run, found) =
      dir_loop-Found (s.ip.copy.size + 1) 0 present name de s v (omega arith) (omega arith)
        (λ j h. absurd (omega (arith, h))) in
    let type : (s.ip.copy.type == t_dir) ≡ true = let k = v.kind in ground (arith, k) in
    (r, dirlookup_dir present name de s type ∙ run, found)
