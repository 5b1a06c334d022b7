-- ===== src/RuncLog/Latest.antt =====
-- getLastRuntimeError: which line of the runc log it returns.
use embedshim.Prelude.{
  ℕ, String, false, Option, none, some, List, [], ◌∷◌, ◌≡◌, refl, str_eq, trim_space, inr,
  if◌then◌else◌, arith,
}
use embedshim.Host.{Env, Outcome, ok, err, panic, Log, Decoded, entry, gives, open_file}
use embedshim.RuncLog.{
  LogLine, note_error, last_error, fresh_line, read_entries, get_last_runtime_error,
}

-- the entries of a log in which each line has both fields
abbrev pub entries : List LogLine → List Decoded
entries [] = []
entries (x ∷ xs) = entry (some x.level) (some x.message) ∷ entries xs

-- the message of the last line whose level is `error`, without the space around it
abbrev pub latest : List LogLine → Option String
latest [] = none
latest (x ∷ xs) =
    let rest = latest xs in
    elim rest [
      | some m ↦ some m
      | none ↦ if str_eq x.level "error" then some (trim_space x.message) else none
    ]

abbrev pub or_text : Option String → String → String
or_text none s = s
or_text (some m) s = m

latest_step :
    (x : LogLine) (xs : List LogLine) (s : String)
    → or_text (latest xs) (note_error x s) ≡ or_text (latest (x ∷ xs)) s
unfolding note_error
latest_step x xs s = ground arith

note_twice : (line : LogLine) (s : String) → note_error line (note_error line s) ≡ note_error line s
unfolding note_error
note_twice line s = ground arith

last_error-entries :
    (line : LogLine) (s : String) (xs : List LogLine)
    → last_error line (note_error line s) (entries xs)
      ≡ inr (or_text (latest xs) (note_error line s))
unfolding last_error
last_error-entries line s [] = rw (note_twice line s) refl
last_error-entries line s (x ∷ xs) =
    rw (last_error-entries x (note_error line s) xs)
      (rw (latest_step x xs (note_error line s)) refl)

-- the value and the state of a run
abbrev pub Reads : {S : Type 0} → S → String → Outcome S String → Type 0
Reads s m (ok x t l) = (x ≡ m) × (t ≡ s)
Reads s m (err e t l) = ⊥
Reads s m (panic e) = ⊥

module _ (env : Env) {S : Type 0} where
  -- If the log of runc can be opened and each of its lines has a level and a message,
  -- getLastRuntimeError returns the message of the last line of level `error`, without the space
  -- around it, and the empty text where there is none.
  pub get_last_runtime_error-latest :
      (path : String) (s : S) (l : Log) (lines : List LogLine) (f n : ℕ)
      → str_eq path "" ≡ false
      → env.reply l (open_file path) ≡ gives f n
      → env.log_entries (record { call = open_file path; reply = gives f n } ∷ l) ≡ entries lines
      → Reads s (or_text (latest lines) "") (get_last_runtime_error env path s l)
  unfolding get_last_runtime_error read_entries
  get_last_runtime_error-latest path s l lines f n named opens decodes =
      ground (arith, last_error-entries fresh_line "" lines)
