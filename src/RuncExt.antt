-- ===== src/RuncExt.antt =====
-- pkg/runcext/sync.go: writing, reading and parsing the messages.
pub mod Types
pub mod Command
pub mod Filtering
use embedshim.Prelude.{
  ℕ, String, Bool, true, false, List, [], ◌∷◌, ◌⊎◌, inl, inr, str_eq, if◌then◌else◌,
}
use embedshim.GoError.{Err, msg, wrap, is, eof}
use embedshim.RuncExt.Types.{
  ProcSync, ProcSyncType, error, exec_pid, exec_pid_done, exec_status, exec_status_done, other,
}
use embedshim.Host.{Env, M, call, fail, skip, ◌>>=◌, ◌>>◌, write_message}

-- msg.Type == t
unfoldable pub same_type : ProcSyncType → ProcSyncType → Bool
same_type error error = true
same_type exec_pid exec_pid = true
same_type exec_pid_done exec_pid_done = true
same_type exec_status exec_status = true
same_type exec_status_done exec_status_done = true
same_type (other s) (other t) = str_eq s t
same_type _ _ = false

module _ {S : Type 0} where
  -- the message is encoded and written to the pipe
  unfoldable pub write_proc_sync_message : Env → ProcSync → M S (Unit {0})
  write_proc_sync_message env message = do call env (write_message message); skip

  -- `decoded` is what the decoder makes of the next bytes of the pipe
  unfoldable pub read_proc_sync : ProcSyncType → Err ⊎ ProcSync → M S (Unit {0})
  unfolding same_type
  read_proc_sync expected (inl e) = fail (wrap "failed reading error during sync" e)
  read_proc_sync expected (inr m) =
      if same_type m.type expected then skip else fail (msg "expected type, but got")

  -- the loop over the decoded messages; the list ends where the pipe is closed
  unfoldable pub parse_proc_sync :
      (ProcSync → M S (Unit {0})) → List (Err ⊎ ProcSync) → M S (Unit {0})
  unfolding same_type
  parse_proc_sync fn [] = skip
  parse_proc_sync fn (inl e ∷ rest) = if is e eof then skip else fail e
  parse_proc_sync fn (inr m ∷ rest) =
      if same_type m.type error
      then fail (msg "unexpected error")
      else (do fn m; parse_proc_sync fn rest)
