-- ===== src/RuncExt/Filtering.antt =====
-- pkg/runcext/utils.go: what is left of the environment that runc gets.
use embedshim.Prelude.{
  ap, ℕ, ◌+◌, String, false, List, [], ◌∷◌, ◌≡◌, refl, inl, inr, ap, str_eq, eq_iff, Bool-cases,
  if◌then◌else◌, arith, codes, has_prefix, Option, none, some, Bool, true, ◌==◌, ◌&&◌, ◌||◌, ◌∙◌,
  ◌++◌,
}
use embedshim.RuncExt.Command.{Runc, is_named, filter_env, runtime_command}

-- how often a variable stands in a list
abbrev pub occurrences : String → List String → ℕ
occurrences v [] = 0
occurrences v (w ∷ ws) = (if str_eq w v then 1 else 0) + occurrences v ws

distinct :
    (v w : String) (names : List String)
    → (is_named w names ≡ is_named v names → ⊥)
    → str_eq w v ≡ false
distinct v w names h = elim (Bool-cases (str_eq w v)) [
  | inl same ↦ elim (h (ap (λ x. is_named x names) ((eq_iff w v).0 same))) [ ]
  | inr other ↦ other
]

-- The environment that is left has exactly the variables with none of the names, each as often as
-- before.
filter_env-occurrences :
    (environ names : List String) (v : String)
    → occurrences v (filter_env environ names)
      ≡ (if is_named v names then 0 else occurrences v environ)
unfolding filter_env
filter_env-occurrences [] names v = elim (Bool-cases (is_named v names)) [
  | inl h ↦ rw h refl
  | inr h ↦ rw h refl
]
filter_env-occurrences (w ∷ ws) names v = by_name (filter_env-occurrences ws names v)
  where
    by_name :
        occurrences v (filter_env ws names) ≡ (if is_named v names then 0 else occurrences v ws)
        → occurrences v (if is_named w names then filter_env ws names else w ∷ filter_env ws names)
          ≡ (if is_named v names then 0 else (if str_eq w v then 1 else 0) + occurrences v ws)
    by_name rest = elim (Bool-cases (is_named w names)) [
      | inl gone ↦ elim (Bool-cases (is_named v names)) [
        | inl h ↦ ground (arith, rest, gone, h)
        | inr h ↦
            ground (arith, rest, gone, h, distinct v w names (λ e. ground (arith, e, h, gone)))
      ]
      | inr kept ↦ elim (Bool-cases (is_named v names)) [
        | inl h ↦
            ground (arith, rest, kept, h, distinct v w names (λ e. ground (arith, e, h, kept)))
        | inr h ↦ ground (arith, rest, kept, h)
      ]
    ]

-- the name of a variable `name=value`: what stands before the first `=`, which is character 61
abbrev name_of : List ℕ → Option (List ℕ)
name_of [] = none
name_of (c ∷ s) =
    let rest = name_of s in
    if c == 61 then some [] else elim rest [ none ↦ none | some n ↦ some (c ∷ n) ]

abbrev same_name : List ℕ → List ℕ → Bool
same_name [] [] = true
same_name (c ∷ n) (d ∷ m) = (c == d) && same_name n m
same_name _ _ = false

abbrev names : List ℕ → Option (List ℕ) → Bool
names p none = false
names p (some n) = same_name n p

-- whether an entry of the environment is a variable of this name
abbrev pub is_variable : String → String → Bool
is_variable name v = names (codes name) (name_of (codes v))

abbrev Plain : List ℕ → Type 0
Plain [] = Unit
Plain (c ∷ p) = (c == 61 ≡ false) × Plain p

-- `o` is the name of the rest
cons_name :
    (c q : ℕ) (p : List ℕ) (b : Bool) (o : Option (List ℕ))
    → q == 61 ≡ false
    → b ≡ names p o
    → (c == q) && b
      ≡ names (q ∷ p) (if c == 61 then some [] else elim o [ none ↦ none | some n ↦ some (c ∷ n) ])
cons_name c q p b none h e = ground (arith, e, h)
cons_name c q p b (some n) h e = ground (arith, e, h)

first_name :
    (c : ℕ) (o : Option (List ℕ))
    → (c == 61) && true
      ≡ names [] (if c == 61 then some [] else elim o [ none ↦ none | some n ↦ some (c ∷ n) ])
first_name c none = ground arith
first_name c (some n) = ground arith

prefix-names : (p s : List ℕ) → Plain p → has_prefix s (p ++ 61 ∷ []) ≡ names p (name_of s)
prefix-names [] [] h = refl
prefix-names [] (c ∷ s) h = first_name c (name_of s)
prefix-names (q ∷ p) [] h = refl
prefix-names (q ∷ p) (c ∷ s) h =
    cons_name c q p (has_prefix s (p ++ 61 ∷ [])) (name_of s) h.0 (prefix-names p s h.1)

unless_or : (b : Bool) (n : ℕ) → (if b || false then 0 else n) ≡ (if b then 0 else n)
unless_or true n = refl
unless_or false n = refl

letters : Plain (codes "NOTIFY_SOCKET")
letters = (
  refl,
  (
    refl,
    (refl, (refl, (refl, (refl, (refl, (refl, (refl, (refl, (refl, (refl, (refl, tt))))))))))),
  ),
)

-- The runtime gets the environment of its caller without NOTIFY_SOCKET: every entry that is no variable
-- of this name stands in it as often as before, one whose name only begins alike included, and none
-- that is. This is so for any runtime, subcommand and environment.
pub runtime_command-occurrences :
    (environ : List String) (ext : Bool) (r : Runc) (args : List String) (v : String)
    → occurrences v (runtime_command environ ext r args).env
      ≡ (if is_variable "NOTIFY_SOCKET" v then 0 else occurrences v environ)
unfolding runtime_command
runtime_command-occurrences environ ext r args v =
    filter_env-occurrences environ ("NOTIFY_SOCKET" ∷ []) v
    ∙ ap (λ b. if b || false then 0 else occurrences v environ)
        (prefix-names (codes "NOTIFY_SOCKET") (codes v) letters)
    ∙ unless_or (is_variable "NOTIFY_SOCKET" v) (occurrences v environ)
