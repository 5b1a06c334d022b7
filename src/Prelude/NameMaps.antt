-- ===== src/Prelude/NameMaps.antt =====
-- Go's maps with string keys, as association lists.
use Prim.Native.String.{String}
use mathlib.Core.Path.{◌≡◌, refl}
use mathlib.Core.Option.{Option, none, some}
use mathlib.Core.List.{List, [], ◌∷◌}
use native.Mathlib.Omega.{arith}
use text.Mathlib.TextEquality.{eq_iff}
use embedshim.Prelude.Tests.{str_eq, if◌then◌else◌}

pub record Names {ℓ} (V : Type ℓ) : Type ℓ where
  pub rows : List (String × V)

module _ {ℓ} {V : Type ℓ} where
  search_rows : String → List (String × V) → Option V
  search_rows k [] = none
  search_rows k ((j, v) ∷ l) = if str_eq j k then some v else search_rows k l

  drop_rows : String → List (String × V) → List (String × V)
  drop_rows k [] = []
  drop_rows k ((j, v) ∷ l) = let rest = drop_rows k l in if str_eq j k then rest else (j, v) ∷ rest

  -- m[k]
  unfoldable pub named : Names V → String → Option V
  unfolding search_rows
  named m k = search_rows k m.rows

  -- delete(m, k)
  unfoldable pub unname : Names V → String → Names V
  unfolding drop_rows
  unname m k = record { rows = drop_rows k m.rows }

  -- m[k] = v
  unfoldable pub name : Names V → String → V → Names V
  unfolding drop_rows
  name m k v = record { rows = (k, v) ∷ drop_rows k m.rows }

  search-drop :
      (k j : String) (l : List (String × V))
      → search_rows j (drop_rows k l) ≡ (if str_eq k j then none else search_rows j l)
  unfolding search_rows drop_rows
  search-drop k j [] = ground arith
  search-drop k j ((i, v) ∷ l) =
      ground (arith, search-drop k j l, eq_iff i k, eq_iff i j, eq_iff k j)

  pub named-unname :
      (m : Names V) (k j : String) → named (unname m k) j ≡ (if str_eq k j then none else named m j)
  unfolding named unname
  named-unname m k j = search-drop k j m.rows

  pub named-name :
      (m : Names V) (k j : String) (v : V)
      → named (name m k v) j ≡ (if str_eq k j then some v else named m j)
  unfolding named name
  named-name m k j v = ground (arith, search-drop k j m.rows)

abbrev pub no_names {ℓ} : {V : Type ℓ} → Names V
no_names = record { rows = [] }

pub named-no_names {ℓ} : {V : Type ℓ} (k : String) → named (no_names {V = V}) k ≡ none
unfolding named
named-no_names k = refl
