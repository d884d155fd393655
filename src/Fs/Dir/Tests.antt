-- ===== src/Fs/Dir/Tests.antt =====
-- The theorems on paths and directories at a path and a directory of two entries.
use laboratorio_valen_el_noo.Base.{ℕ, ◌≡◌, ◌⊎◌, Option, none, List, [], ◌∷◌, arith}
use laboratorio_valen_el_noo.Fs.{ok}
use laboratorio_valen_el_noo.Fs.Path.{skipelem}
use laboratorio_valen_el_noo.Fs.Path.Elements.{elements, IsText, ended, more}
use laboratorio_valen_el_noo.Fs.Path.Name.{Takes, skipelem-elements}
use laboratorio_valen_el_noo.Fs.Dir.{dirlookup}
use laboratorio_valen_el_noo.Fs.Dir.Lookup.{Found, dirlookup-Found}
use laboratorio_valen_el_noo.Fs.Sample.{zeros, present, directory, name_a, directory-IsDir}

-- `//a/bc`
abbrev path : List ℕ
path = 47 ∷ 47 ∷ 97 ∷ 47 ∷ 98 ∷ 99 ∷ []

path-IsText : IsText path
path-IsText =
    more (λ e. absurd (omega (arith, e)))
      (more (λ e. absurd (omega (arith, e)))
        (more (λ e. absurd (omega (arith, e)))
          (more (λ e. absurd (omega (arith, e)))
            (more (λ e. absurd (omega (arith, e))) (more (λ e. absurd (omega (arith, e))) ended)))))

skipelem-elements_example :
    ((elements path ≡ []) × (skipelem path zeros ≡ (none, zeros))) ⊎ Takes path zeros
skipelem-elements_example = skipelem-elements path zeros path-IsText

dirlookup-Found_example :
    (r : Option (ℕ × ℕ)) × (dirlookup present name_a zeros directory ≡ ok (r, directory))
    × Found directory name_a r
dirlookup-Found_example = dirlookup-Found present name_a zeros directory directory-IsDir
