-- ===== src/RuncExt/Types.antt =====
-- pkg/runcext/sync.go: the messages between a shim and its runc-exec wrapper.
use embedshim.Prelude.{ℕ, String, Bool, false, cat}

-- ProcSyncType is a string; any other text is `other`
pub data ProcSyncType : Type 0 where
  error exec_pid exec_pid_done exec_status exec_status_done : ProcSyncType
  other : String → ProcSyncType

pub record ProcSync : Type 0 where
  pub type : ProcSyncType
  pub pid : ℕ
  pub exited : Bool
  pub exited_status : ℕ
  pub message : String

abbrev blank : ProcSyncType → ProcSync
blank type = record { type = type; pid = 0; exited = false; exited_status = 0; message = "" }

unfoldable pub new_exec_pid_message : ℕ → ProcSync
new_exec_pid_message pid = record (blank exec_pid) { pid = pid }

unfoldable pub new_exec_pid_done_message : ProcSync
new_exec_pid_done_message = blank exec_pid_done

unfoldable pub new_exec_status_message : Bool → ℕ → ProcSync
new_exec_status_message exited status = record (blank exec_status) {
  exited = exited;
  exited_status = status;
}

unfoldable pub new_exec_status_done_message : ProcSync
new_exec_status_done_message = blank exec_status_done

-- `text` is the text of the error
unfoldable pub new_error_message : String → ProcSync
new_error_message text = record (blank error) { message = cat "error: " text }
