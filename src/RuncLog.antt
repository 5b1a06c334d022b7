-- ===== src/RuncLog.antt =====
-- runtime_utils.go: the last error in the log of runc, the classification of a failed kill, and the
-- test that a process is still the runc-init of its container.
pub mod Latest
use embedshim.Host.Quiet.{Quiet}
use embedshim.Prelude.{
  refl, ℕ, String, Bool, true, false, ◌||◌, Option, none, some, List, [], ◌∷◌, str_eq, trim_space,
  codes, to_lower, contains, ltb, if◌then◌else◌, ◌⊎◌, inl, inr,
}
use embedshim.GoError.{Err, msg, wrap, sentinel, Sentinel, not_found, esrch, eof, text}
use embedshim.Host.{
  Env, M, call, pure, fail, skip, Decoded, entry, broken, FdInfo, bad_name, fd, open_file, ◌>>=◌,
  ◌>>◌, close_fd, read_proc_fds, ignore, return_both, finally, wrapping, ok,
}

-- the variable `log` that each Decode writes into; an absent field keeps its old value
pub record LogLine : Type 0 where
  pub level : String
  pub message : String

abbrev or_old : Option String → String → String
or_old none old = old
or_old (some s) old = s

abbrev pub decode_into : LogLine → Option String → Option String → LogLine
decode_into line level message = record {
  level = or_old level line.level;
  message = or_old message line.message;
}

-- `if log.Level == "error" { errMsg = strings.TrimSpace(log.Msg) }`, for the space characters of ASCII
pub note_error : LogLine → String → String
note_error line last = if str_eq line.level "error" then trim_space line.message else last

-- err == io.EOF
abbrev is_eof : Err → Bool
is_eof (sentinel eof) = true
is_eof _ = false

-- the decoding loop; at io.EOF, which is also the end of the list, the fields of the last entry are looked at once more
pub last_error : LogLine → String → List Decoded → Err ⊎ String
unfolding note_error
last_error line last [] = inr (note_error line last)
last_error line last (broken e ∷ rest) = if is_eof e then inr (note_error line last) else inl e
last_error line last (entry level message ∷ rest) =
    let line' = decode_into line level message in last_error line' (note_error line' last) rest

abbrev pub fresh_line : LogLine
fresh_line = record { level = ""; message = "" }

pub read_entries : {S : Type 0} → Env → M S (Err ⊎ String)
unfolding last_error
read_entries env s l = ok (last_error fresh_line "" (env.log_entries l)) s l

-- `r.Log` is empty for a runtime that was made with no log
unfoldable pub get_last_runtime_error : {S : Type 0} → Env → String → M S String
unfolding read_entries
get_last_runtime_error env path = if str_eq path "" then pure "" else do
  f ← call env (open_file path)
  finally (ignore (call env (close_fd f))) (read_entries env >>= return_both)

-- err == unix.ESRCH
abbrev pub is_esrch : Err → Bool
is_esrch (sentinel esrch) = true
is_esrch _ = false

unfoldable pub already_finished : (Sentinel → String) → Err → Bool
already_finished names e =
    contains (codes (text names e)) (codes "os: process already finished")
    || contains (codes (text names e)) (codes "container not running")
    || contains (to_lower (codes (text names e))) (codes "no such process")
    || is_esrch e

unfoldable pub does_not_exist : (Sentinel → String) → Err → Bool
does_not_exist names e = contains (codes (text names e)) (codes "does not exist")

-- checkKillError of a non-nil error
unfoldable pub classify_kill : (Sentinel → String) → Err → Err
classify_kill names e =
    if already_finished names e
    then wrap "process already finished" (sentinel not_found)
    else if does_not_exist names e
    then wrap "no such container" (sentinel not_found)
    else wrap "unknown error after kill" e

unfoldable pub check_kill_error : (Sentinel → String) → Option Err → Option Err
unfolding classify_kill
check_kill_error names none = none
check_kill_error names (some e) = some (classify_kill names e)

-- the loop over /proc/<pid>/fd
unfoldable pub holds_fifo : String → List FdInfo → Option Err
holds_fifo fifo [] = some (msg "process maybe not valid runc-init")
holds_fifo fifo (bad_name e ∷ rest) = some e
holds_fifo fifo (fd n link ∷ rest) =
    let more = holds_fifo fifo rest in
    if ltb n 3 then more else elim link [
      | inl e ↦ some (wrap "failed to readlink" e)
      | inr path ↦ if str_eq path fifo then none else more
    ]

abbrev outcome_of : {S : Type 0} → Option Err → M S (Unit {0})
outcome_of none = skip
outcome_of (some e) = fail e

look_for_fifo : {S : Type 0} → Env → String → ℕ → M S (Unit {0})
unfolding holds_fifo
look_for_fifo env fifo pid s l = outcome_of (holds_fifo fifo (env.proc_fds l pid)) s l

unfoldable pub check_runc_init_alive : {S : Type 0} → Env → String → ℕ → M S (Unit {0})
unfolding look_for_fifo
check_runc_init_alive env fifo pid = do
  wrapping (wrap "failed to read /proc/<pid>/fd") (call env (read_proc_fds pid))
  look_for_fifo env fifo pid

module _ {S : Type 0} where
  pub read_entries-Quiet : (env : Env) → Quiet {S = S} (read_entries env)
  unfolding read_entries
  read_entries-Quiet env = record { at = λ s l. refl }
