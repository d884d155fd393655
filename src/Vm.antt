-- ===== src/Vm.antt =====
-- xv6/vm.c: page tables of two levels in the pages that the allocator hands out, and `sys_pgcnt` of
-- xv6/sysproc.c. A page is named by its kernel address and read as its words (uint). `free` is the
-- list of `kalloc`, the next page first; `kend` is the end of the kernel, which the linker sets.
-- Masks of a uint are written as division and remainder; a page address has no bit in common with the
-- flags, so that `|` of the two is their sum.

pub mod Own
pub mod Space
pub mod Walk
pub mod Map
pub mod Shrink
pub mod Grow
pub mod Alloc
pub mod Count
pub mod Resize
pub mod Sample
mod Tests
use laboratorio_valen_el_noo.Base.{
  ℕ, zero, suc, ◌+◌, ◌-◌, ◌*◌, ◌/◌, ◌%◌, Bool, true, false, ◌&&◌, Option, none, some, List, [], ◌∷◌,
  ◌==◌, ltb, leb, if◌then◌else◌, ℤ, pos, negsuc,
}
use laboratorio_valen_el_noo.Log.{update}
use laboratorio_valen_el_noo.Kalloc.{
  pgsize, kernbase, address_range, v2p, refused, junk, pg_round_up,
}

pub record Vm : Type 0 where
  pub words : ℕ → ℕ → ℕ
  pub free : List ℕ
  pub kend : ℕ

-- A call that returns or panics; `fault` is an access through a null pointer.
pub data Call (A : Type 0) : Type 0 where
  done : A → Vm → Call A
  panic : Call A
  fault : Call A
  out_of_fuel : Call A

infixl 5 ◌>>=◌
abbrev pub ◌>>=◌ : {A B : Type 0} → Call A → (A → Vm → Call B) → Call B
done a s >>= k = k a s
panic >>= k = panic
fault >>= k = fault
out_of_fuel >>= k = out_of_fuel

abbrev pub set_page : ℕ → (ℕ → ℕ) → Vm → Vm
set_page v w s = record s { words = update s.words v w }

abbrev pub set_word : ℕ → ℕ → ℕ → Vm → Vm
set_word v k x s = set_page v (update (s.words v) k x) s

-- `kalloc` takes the first page of the list, and `kfree` fills a page and puts it in front.
pub kalloc : Vm → Option ℕ × Vm
kalloc s = elim s.free [ [] ↦ (none, s) | v ∷ vs ↦ (some v, record s { free = vs }) ]

pub kfree : ℕ → Vm → Call Unit
kfree v s =
    if refused s.kend v
    then panic
    else done tt (record (set_page v (λ k. junk) s) { free = v ∷ s.free })

-- NPDENTRIES and NPTENTRIES; PDX and PTX; `P2V`, PTE_ADDR, PTE_FLAGS, PTE_P, PTE_U
abbrev pub entries : ℕ
entries = 1024

abbrev pub pdx : ℕ → ℕ
pdx va = va / 4194304 % 1024

abbrev pub ptx : ℕ → ℕ
ptx va = va / 4096 % 1024

abbrev pub p2v : ℕ → ℕ
p2v a = (a + kernbase) % address_range

abbrev pub pte_addr : ℕ → ℕ
pte_addr x = x / 4096 * 4096

abbrev pub pte_flags : ℕ → ℕ
pte_flags x = x % 4096

abbrev pub is_present : ℕ → Bool
is_present x = x % 2 == 1

abbrev pub is_user : ℕ → Bool
is_user x = x / 4 % 2 == 1

-- `PTE_W | PTE_U`, and `pa | perm | PTE_P`
abbrev pub pte_wu : ℕ
pte_wu = 6

abbrev pub pte : ℕ → ℕ → ℕ
pte pa perm = pa + (perm / 2 * 2 + 1)

-- `PGROUNDDOWN`, and the sum of two uint.
abbrev pub pg_round_down : ℕ → ℕ
pg_round_down a = a / 4096 * 4096

abbrev pub add : ℕ → ℕ → ℕ
add a b = (a + b) % address_range

-- `walkpgdir`: the page and the index of the entry, or null. Its second part takes what `kalloc` gives.
pub new_table : ℕ → ℕ → Option ℕ × Vm → Option (ℕ × ℕ) × Vm
new_table d va (none, s) = (none, s)
new_table d va (some v, s) =
    (some (v, ptx va), set_word d (pdx va) (v2p v + 7) (set_page v (λ k. 0) s))

pub walkpgdir : ℕ → ℕ → Bool → Vm → Option (ℕ × ℕ) × Vm
walkpgdir d va alloc s = elim (is_present (s.words d (pdx va))) [
  | true ↦ (some (p2v (pte_addr (s.words d (pdx va))), ptx va), s)
  | false ↦ elim alloc [ false ↦ (none, s) | true ↦ new_table d va (kalloc s) ]
]

-- `mappages`: a round at the entry found, and the loop from `a` to `last`. The result is whether it
-- returns 0, not -1.
pub map_at : (Vm → Call Bool) → ℕ → ℕ → Option (ℕ × ℕ) × Vm → Call Bool
map_at next pa perm (none, s) = done false s
map_at next pa perm (some (v, k), s) =
    if is_present (s.words v k) then panic else next (set_word v k (pte pa perm) s)

pub map_loop : ℕ → ℕ → ℕ → ℕ → ℕ → ℕ → Vm → Call Bool
map_loop zero d a last pa perm s = out_of_fuel
map_loop (suc fuel) d a last pa perm s =
    map_at
      (λ t. elim (a == last) [
        | true ↦ done true t
        | false ↦ map_loop fuel d (add a pgsize) last (add pa pgsize) perm t
      ])
      pa perm (walkpgdir d a true s)

-- A round for each page of the address space is enough.
pub mappages : ℕ → ℕ → ℕ → ℕ → ℕ → Vm → Call Bool
mappages d va size pa perm s =
    map_loop 1048576 d (pg_round_down va)
      (pg_round_down ((va + size + address_range - 1) % address_range)) pa perm s

-- `deallocuvm`: what a round does at the entry found, and the next address.
pub free_entry : ℕ → ℕ → Vm → Call Unit
free_entry v k s = elim (is_present (s.words v k)) [
  | false ↦ done tt s
  | true ↦ elim (pte_addr (s.words v k) == 0) [
    | true ↦ panic
    | false ↦ kfree (p2v (pte_addr (s.words v k))) s >>= λ _ t. done tt (set_word v k 0 t)
  ]
]

abbrev pub next_table : ℕ → ℕ
next_table a = ((pdx a + 1) * 4194304 + address_range - pgsize) % address_range

pub dealloc_at : (ℕ → Vm → Call Unit) → ℕ → Option (ℕ × ℕ) × Vm → Call Unit
dealloc_at next a (none, s) = next (add (next_table a) pgsize) s
dealloc_at next a (some (v, k), s) = free_entry v k s >>= λ _ t. next (add a pgsize) t

pub dealloc_loop : ℕ → ℕ → ℕ → ℕ → Vm → Call Unit
dealloc_loop zero d oldsz a s = out_of_fuel
dealloc_loop (suc fuel) d oldsz a s = elim (ltb a oldsz) [
  | false ↦ done tt s
  | true ↦ dealloc_at (dealloc_loop fuel d oldsz) a (walkpgdir d a false s)
]

pub deallocuvm : ℕ → ℕ → ℕ → Vm → Call ℕ
deallocuvm d oldsz newsz s = elim (leb oldsz newsz) [
  | true ↦ done oldsz s
  | false ↦ dealloc_loop (oldsz / pgsize + 2) d oldsz (pg_round_up newsz) s >>= λ _ t. done newsz t
]

-- `allocuvm`: its two ways out, a round, and the loop.
pub give_up : ℕ → ℕ → ℕ → Vm → Call ℕ
give_up d oldsz newsz s = deallocuvm d newsz oldsz s >>= λ _ t. done 0 t

pub alloc_page : (Vm → Call ℕ) → ℕ → ℕ → ℕ → ℕ → Option ℕ × Vm → Call ℕ
alloc_page next d oldsz newsz a (none, s) = give_up d oldsz newsz s
alloc_page next d oldsz newsz a (some v, s) =
    mappages d a pgsize (v2p v) pte_wu (set_page v (λ k. 0) s) >>= λ mapped t. elim mapped [
      | true ↦ next t
      | false ↦ give_up d oldsz newsz t >>= λ r u. kfree v u >>= λ _ w. done r w
    ]

pub alloc_loop : ℕ → ℕ → ℕ → ℕ → ℕ → Vm → Call ℕ
alloc_loop zero d oldsz newsz a s = out_of_fuel
alloc_loop (suc fuel) d oldsz newsz a s = elim (ltb a newsz) [
  | false ↦ done newsz s
  | true ↦ alloc_page (alloc_loop fuel d oldsz newsz (add a pgsize)) d oldsz newsz a (kalloc s)
]

pub allocuvm : ℕ → ℕ → ℕ → Vm → Call ℕ
allocuvm d oldsz newsz s =
    if leb kernbase newsz
    then done 0 s
    else if ltb newsz oldsz
    then done oldsz s
    else alloc_loop (newsz / pgsize + 2) d oldsz newsz (pg_round_up oldsz) s

-- `growproc`, on the size and the page directory of the process: whether it returns 0, and the size.
pub grown : ℕ → ℕ → Vm → Call (Bool × ℕ)
grown sz new s = if new == 0 then done (false, sz) s else done (true, new) s

pub growproc : ℤ → ℕ → ℕ → Vm → Call (Bool × ℕ)
growproc (pos zero) d sz s = done (true, sz) s
growproc (pos (suc n)) d sz s = allocuvm d sz (add sz (suc n)) s >>= grown sz
growproc (negsuc n) d sz s =
    deallocuvm d sz ((sz + address_range - suc n) % address_range) s >>= grown sz

-- `sys_pgcnt`: the loops over a table and over the directory, the last entry first counted.
pub count_table : ℕ → (ℕ → ℕ) → ℕ
count_table zero w = 0
count_table (suc j) w = count_table j w + (if is_present (w j) && is_user (w j) then 1 else 0)

pub count_directory : ℕ → ℕ → Vm → ℕ
count_directory zero d s = 0
count_directory (suc i) d s =
    count_directory i d s
    + (if is_present (s.words d i)
        then count_table entries (s.words (p2v (pte_addr (s.words d i))))
        else 0)

pub sys_pgcnt : ℕ → Vm → ℕ
sys_pgcnt d s = count_directory entries d s
