-- ===== src/Prelude/Maps.antt =====
-- Go's maps with numeric keys, and sets of texts, as association lists.
use Prim.Native.Nat.{ℕ, suc}
use mathlib.Core.Path.{◌≡◌, refl}
use mathlib.Core.Option.{Option, none, some}
use mathlib.Core.List.{List, [], ◌∷◌}
use native.Mathlib.Omega.{arith}
use embedshim.Prelude.Tests.{◌==◌, if◌then◌else◌}

abbrev pub length {ℓ} : {A : Type ℓ} → List A → ℕ
length [] = 0
length (x ∷ xs) = suc (length xs)

pub record Map {ℓ} (V : Type ℓ) : Type ℓ where
  pub entries : List (ℕ × V)

module _ {ℓ} {V : Type ℓ} where
  find : ℕ → List (ℕ × V) → Option V
  find k [] = none
  find k ((j, v) ∷ l) = if j == k then some v else find k l

  without : ℕ → List (ℕ × V) → List (ℕ × V)
  without k [] = []
  without k ((j, v) ∷ l) = let rest = without k l in if j == k then rest else (j, v) ∷ rest

  -- m[k]
  unfoldable pub lookup : Map V → ℕ → Option V
  unfolding find
  lookup m k = find k m.entries

  -- delete(m, k)
  unfoldable pub erase : Map V → ℕ → Map V
  unfolding without
  erase m k = record { entries = without k m.entries }

  -- m[k] = v
  unfoldable pub insert : Map V → ℕ → V → Map V
  unfolding without
  insert m k v = record { entries = (k, v) ∷ without k m.entries }

  find-without :
      (k j : ℕ) (l : List (ℕ × V)) → find j (without k l) ≡ (if k == j then none else find j l)
  unfolding find without
  find-without k j [] = ground arith
  find-without k j ((i, v) ∷ l) = ground (arith, find-without k j l)

  pub lookup-erase :
      (m : Map V) (k j : ℕ) → lookup (erase m k) j ≡ (if k == j then none else lookup m j)
  unfolding lookup erase
  lookup-erase m k j = find-without k j m.entries

  pub lookup-insert :
      (m : Map V) (k j : ℕ) (v : V)
      → lookup (insert m k v) j ≡ (if k == j then some v else lookup m j)
  unfolding lookup insert
  lookup-insert m k j v = ground (arith, find-without k j m.entries)

abbrev pub empty {ℓ} : {V : Type ℓ} → Map V
empty = record { entries = [] }

pub lookup-empty {ℓ} : {V : Type ℓ} (k : ℕ) → lookup (empty {V = V}) k ≡ none
unfolding lookup
lookup-empty k = refl

pub ruleset map_laws = (lookup-erase, lookup-insert, lookup-empty)
