-- ===== src/Vm/Resize.antt =====
-- `growproc` of xv6/proc.c, by which `sbrk` changes the size of a process.
use laboratorio_valen_el_noo.Base.{
  ℕ, suc, ◌+◌, ◌-◌, ◌%◌, ◌≤◌, ◌<◌, ◌≡◌, ap, ◌∙◌, inl, inr, true, false, ◌==◌, if◌then◌else◌, arith,
  Bool-cases,
}
use laboratorio_valen_el_noo.Kalloc.{kernbase, address_range}
use laboratorio_valen_el_noo.Vm.{Vm}
use laboratorio_valen_el_noo.Vm.{done, ◌>>=◌, deallocuvm}
use laboratorio_valen_el_noo.Vm.Walk.{IsSpace}
use laboratorio_valen_el_noo.Vm.Shrink.{Shrunk}
use laboratorio_valen_el_noo.Vm.Shrink.Loop.{deallocuvm-Shrunk, pages_to}
use laboratorio_valen_el_noo.Base.{negsuc}
use laboratorio_valen_el_noo.Vm.{growproc, grown}

-- A process that gives back `n + 1` bytes of the `sz` that it has loses exactly the pages past its
-- new size, and `growproc` returns 0 with that size; but if it gives back all, `growproc` returns -1
-- and the size stays `sz`, although every page is gone.
pub growproc-Shrunk :
    (d sz n : ℕ) (s : Vm)
    → IsSpace d s
    → sz ≤ kernbase
    → n < sz
    → (t : Vm) × (growproc (negsuc n) d sz s
        ≡ done (if sz == suc n then (false, sz) else (true, sz - suc n)) t)
      × Shrunk d (pages_to (sz - suc n)) (pages_to sz) s t
unfolding growproc grown
growproc-Shrunk d sz n s a top h =
    let new : (sz + address_range - suc n) % address_range ≡ sz - suc n = omega arith in
    let (t, run, r) = deallocuvm-Shrunk d sz (sz - suc n) s a top (omega arith) in
    (
      t,
      ap (λ x. deallocuvm d sz x s >>= grown sz) new
          ∙ ap (λ c. c >>= grown sz) run
          ∙ elim (Bool-cases (sz == suc n)) [
            | inl all ↦
                let z : (sz - suc n == 0) ≡ true = ground (arith, all) in ground (arith, all, z)
            | inr part ↦
                let z : (sz - suc n == 0) ≡ false = ground (arith, part, h) in
                ground (arith, part, z)
          ],
      r,
    )
