-- ===== src/ExitSnoop/Pins.antt =====
-- pkg/exitsnoop/load.go: what is pinned in the BPF file system, as the calls made so far tell it.
-- The pinned program has to stand for both pinned maps.
use embedshim.Prelude.{
  ◌∙◌, ℕ, str_eq, String, Bool, true, false, not, ◌&&◌, ◌||◌, List, [], ◌∷◌, ◌≡◌, refl, arith,
  same_path, same_path_refl, Bool-cases, inl, inr,
}
use embedshim.GoError.{is, os_not_exist}
use embedshim.Host.{pin, remove_path, Log, Call, Reply, fails, gives, pin, remove_path}
use embedshim.ExitSnoop.Load.{prog_name, tracing_tasks, exited_events}

-- whether the path is pinned after a call, where it was `b` before it
abbrev seen : List String → Call → Reply → Bool → Bool
seen p (pin q) (gives n m) b = same_path p q || b
seen p (remove_path q) (gives n m) b = not (same_path p q) && b
seen p (remove_path q) (fails e) b = not (same_path p q && is e os_not_exist) && b
seen p _ _ b = b

-- what the calls made so far tell of a path of the BPF file system, which is empty at first
abbrev pub is_pinned : List String → Log → Bool
is_pinned p [] = false
is_pinned p (e ∷ l) = seen p e.call e.reply (is_pinned p l)

-- a call that pins and removes nothing
abbrev pub Quiet : Call → Type 0
Quiet c =
    (r : Reply) (l : Log) (p : List String)
    → is_pinned p (record { call = c; reply = r } ∷ l) ≡ is_pinned p l

module _ (root : List String) where
  -- if the program is pinned then so are the maps
  abbrev pub is_sound : Log → Bool
  is_sound l =
      not (is_pinned (prog_name ∷ root) l)
      || is_pinned (tracing_tasks ∷ root) l && is_pinned (exited_events ∷ root) l

  -- and this was so after each call
  abbrev pub Sound : Log → Type 0
  Sound [] = Unit
  Sound (e ∷ l) = (is_sound (e ∷ l) ≡ true) × Sound l

  now : (l : Log) → Sound l → is_sound l ≡ true
  now [] h = refl
  now (e ∷ l) h = h.0

  abbrev pub Without : Log → Type 0
  Without l = Sound l × (is_pinned (prog_name ∷ root) l ≡ false)

  pub extend :
      (c : Call) (r : Reply) (l : Log)
      → Without l
      → is_pinned (prog_name ∷ root) (record { call = c; reply = r } ∷ l) ≡ false
      → Without (record { call = c; reply = r } ∷ l)
  extend c r l h q = (((rw q refl), h.0), q)

  abbrev pub With : String → Log → Type 0
  With name l = is_pinned (name ∷ root) l ≡ true

  pub pinned-map :
      (name : String) (r : Reply) (l : Log)
      → str_eq prog_name name ≡ false
      → Without l
      → Without (record { call = pin (name ∷ root); reply = r } ∷ l)
  pinned-map name (gives n m) l q h =
      extend (pin (name ∷ root)) (gives n m) l h (ground (arith, q, h))
  pinned-map name (fails e) l q h = extend (pin (name ∷ root)) (fails e) l h h.1

  pub pinned-program :
      (l : Log)
      → Without l
      → With tracing_tasks l
      → With exited_events l
      → (n m : ℕ) → Sound (record { call = pin (prog_name ∷ root); reply = gives n m } ∷ l)
  pinned-program l h t x n m = (ground (arith, t, x), h.0)

  pub removed-program :
      (r : Reply) (l : Log)
      → Sound l
      → Sound (record { call = remove_path (prog_name ∷ root); reply = r } ∷ l)
  removed-program (gives n m) l h = ((rw (same_path_refl root) refl), h)
  removed-program (fails e) l h = elim (Bool-cases (is e os_not_exist)) [
    | inl gone ↦ (rw (same_path_refl root) (rw gone refl), h)
    | inr there ↦ (rw (same_path_refl root) (rw there (now l h)), h)
  ]

  pub removed-map :
      (name : String) (r : Reply) (l : Log)
      → str_eq prog_name name ≡ false
      → Without l
      → Without (record { call = remove_path (name ∷ root); reply = r } ∷ l)
  removed-map name (gives n m) l q h =
      extend (remove_path (name ∷ root)) (gives n m) l h (ground (arith, q, h))
  removed-map name (fails e) l q h =
      extend (remove_path (name ∷ root)) (fails e) l h (ground (arith, q, h))

  pub kept-Sound :
      (c : Call) (r : Reply) (l : Log)
      → Quiet c
      → Sound l
      → Sound (record { call = c; reply = r } ∷ l)
  kept-Sound c r l q h = (
    (rw (q r l (prog_name ∷ root))
        (rw (q r l (tracing_tasks ∷ root)) (rw (q r l (exited_events ∷ root)) (now l h)))),
    h,
  )

  pub kept-Without :
      (c : Call) (r : Reply) (l : Log)
      → Quiet c
      → Without l
      → Without (record { call = c; reply = r } ∷ l)
  kept-Without c r l q h = extend c r l h (q r l (prog_name ∷ root) ∙ h.1)
