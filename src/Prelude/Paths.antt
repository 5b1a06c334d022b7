-- ===== src/Prelude/Paths.antt =====
-- Paths as lists of components, the last one first.
use Prim.Native.String.{String}
use mathlib.Core.Path.{◌≡◌, refl}
use mathlib.Core.Bool.{Bool, true, false, ◌&&◌}
use mathlib.Core.List.{List, [], ◌∷◌}
use native.Mathlib.Omega.{arith}
use text.Mathlib.TextPositions.{eq_refl}
use embedshim.Prelude.Tests.{str_eq, cat}

abbrev pub same_path : List String → List String → Bool
same_path [] [] = true
same_path [] (y ∷ ys) = false
same_path (x ∷ xs) [] = false
same_path (x ∷ xs) (y ∷ ys) = str_eq x y && same_path xs ys

pub same_path_refl : (p : List String) → same_path p p ≡ true
same_path_refl [] = refl
same_path_refl (x ∷ xs) = ground (arith, eq_refl x, same_path_refl xs)

-- the path from the root on, as a text
abbrev pub path_text : List String → String
path_text [] = ""
path_text (x ∷ dir) = cat (path_text dir) (cat "/" x)
