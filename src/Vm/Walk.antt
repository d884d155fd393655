-- ===== src/Vm/Walk.antt =====
-- `walkpgdir` of xv6/vm.c, and writes to the entries of an address space.

pub mod Write
pub mod Enter
pub mod Whole
use laboratorio_valen_el_noo.Base.{ℕ, suc, ◌/◌, ◌%◌, [], if◌then◌else◌}
use laboratorio_valen_el_noo.Vm.{Vm, is_present}
use laboratorio_valen_el_noo.Vm.Space.{frame, IsMap}

-- Word `k` of the table that a directory entry `x` refers to; 0 without a table.
abbrev pub cell : (ℕ → ℕ → ℕ) → ℕ → ℕ → ℕ
cell words x k = if is_present x then words (frame x) k else 0

-- The entry of page number `m`.
unfoldable pub entry : ℕ → Vm → ℕ → ℕ
entry d s m = cell s.words (s.words d (m / 1024)) (m % 1024)

abbrev pub IsSpace : ℕ → Vm → Type 0
IsSpace d s = IsMap s.kend d (s.words d) (entry d s) s.free
