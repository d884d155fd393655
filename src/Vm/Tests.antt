-- ===== src/Vm/Tests.antt =====
-- The theorems on address spaces at one with a single user page.
use laboratorio_valen_el_noo.Base.{
  ℕ, suc, ◌+◌, ◌-◌, ◌≤◌, ◌<◌, ◌≡◌, ◌⊎◌, true, false, ◌==◌, if◌then◌else◌, negsuc, arith,
}
use laboratorio_valen_el_noo.Kalloc.{kernbase}
use laboratorio_valen_el_noo.Vm.{Vm, done, is_present, allocuvm, deallocuvm, growproc, sys_pgcnt}
use laboratorio_valen_el_noo.Vm.Walk.{entry}
use laboratorio_valen_el_noo.Vm.Shrink.{Shrunk}
use laboratorio_valen_el_noo.Vm.Shrink.Loop.{pages_to, deallocuvm-Shrunk}
use laboratorio_valen_el_noo.Vm.Alloc.{Allocs, allocuvm-Allocs}
use laboratorio_valen_el_noo.Vm.Count.{sys_pgcnt-allocuvm}
use laboratorio_valen_el_noo.Vm.Resize.{growproc-Shrunk}
use laboratorio_valen_el_noo.Vm.Sample.{root, one_page, one_entry, one_page-IsSpace}

-- The entries from 4096 up to 9000 bytes.
nothing_above :
    (m : ℕ) → pages_to 4096 ≤ m → m < pages_to 9000 → is_present (entry root one_page m) ≡ false
nothing_above m h l = let e = one_entry m in ground (arith, e, h)

deallocuvm-Shrunk_example :
    (t : Vm) × (deallocuvm root 4096 0 one_page ≡ done 0 t)
    × Shrunk root (pages_to 0) (pages_to 4096) one_page t
deallocuvm-Shrunk_example =
    deallocuvm-Shrunk root 4096 0 one_page one_page-IsSpace (omega arith) (omega arith)

allocuvm-Allocs_example :
    ((kernbase ≤ 9000) × (allocuvm root 4096 9000 one_page ≡ done 0 one_page))
    ⊎ ((9000 < kernbase) × Allocs root 4096 9000 one_page (allocuvm root 4096 9000 one_page))
allocuvm-Allocs_example =
    allocuvm-Allocs root 4096 9000 one_page one_page-IsSpace (omega arith) (omega arith)
      nothing_above

sys_pgcnt-allocuvm_example :
    (t : Vm) × (((allocuvm root 4096 9000 one_page ≡ done 9000 t)
        × (sys_pgcnt root t ≡ sys_pgcnt root one_page + (pages_to 9000 - pages_to 4096)))
      ⊎ ((allocuvm root 4096 9000 one_page ≡ done 0 t)
          × (sys_pgcnt root t ≡ sys_pgcnt root one_page)))
sys_pgcnt-allocuvm_example =
    sys_pgcnt-allocuvm root 4096 9000 one_page one_page-IsSpace (omega arith) (omega arith)
      nothing_above

growproc-Shrunk_example :
    (t : Vm) × (growproc (negsuc 4095) root 4096 one_page
      ≡ done (if 4096 == suc 4095 then (false, 4096) else (true, 4096 - suc 4095)) t)
    × Shrunk root (pages_to (4096 - suc 4095)) (pages_to 4096) one_page t
growproc-Shrunk_example =
    growproc-Shrunk root 4096 4095 one_page one_page-IsSpace (omega arith) (omega arith)
