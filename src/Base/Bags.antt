-- ===== src/Base/Bags.antt =====
-- Lists as bags of numbers: how often one stands in them.
use Prim.Native.Nat.{ℕ, suc, ◌+◌, ◌<◌}
use mathlib.Core.Path.{◌≡◌}
use mathlib.Core.Logic.{inl, inr}
use mathlib.Core.List.{List, [], ◌∷◌}
use native.Mathlib.Omega.{arith}
use laboratorio_valen_el_noo.Base.Lists.{count}
use laboratorio_valen_el_noo.Base.Tests.{◌==◌, if◌then◌else◌, to_ℕ, Bool-cases}

abbrev pub times : ℕ → List ℕ → ℕ
times x ps = count (λ p. p == x) ps

-- Without one occurrence of `v`.
abbrev pub remove : ℕ → List ℕ → List ℕ
remove v [] = []
remove v (p ∷ ps) = if p == v then ps else p ∷ remove v ps

pub times-remove :
    (v x : ℕ) (ps : List ℕ) → 0 < times v ps → times x (remove v ps) + to_ℕ (v == x) ≡ times x ps
times-remove v x [] h = absurd (omega arith)
times-remove v x (p ∷ ps) h = elim (Bool-cases (p == v)) [
  | inl same ↦ ground arith
  | inr other ↦ ground (arith, times-remove v x ps (ground (arith, h)))
]

pub times_self : (v : ℕ) (ps : List ℕ) → times v (v ∷ ps) ≡ suc (times v ps)
times_self v ps = ground arith
