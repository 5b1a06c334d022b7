-- ===== src/Shim/Types.antt =====
-- shim.go: the shim of a task. Its bundle and its init process are those of the pointer that it
-- stands behind.
use embedshim.Prelude.{ℕ, String, Option, Names, no_names, str_eq, if◌then◌else◌}
use embedshim.Host.{Stdio}

pub record Shim : Type 0 where
  -- execProcesses: the pointers of the exec processes by their IDs
  pub exec_processes : Names ℕ
  -- reservedExecIDs
  pub reserved : Names (Unit {0})

-- the maps of newShim and renewShim
abbrev pub fresh_shim : Shim
fresh_shim = record { exec_processes = no_names; reserved = no_names }

-- runtime.Exit; the status is a uint32
pub record TaskExit : Type 0 where
  pub pid : ℕ
  pub status : ℕ
  pub timestamp : Option ℕ

-- runtime.Status; a paused task has no case of its own and stays unknown
pub data RuntimeStatus : Type 0 where
  unknown_status created_status running_status stopped_status : RuntimeStatus

pub record TaskState : Type 0 where
  pub pid : ℕ
  pub status : RuntimeStatus
  pub stdio : Stdio
  pub exit_status : ℕ
  pub exited_at : Option ℕ

unfoldable pub runtime_status : String → RuntimeStatus
runtime_status st =
    if str_eq st "created"
    then created_status
    else if str_eq st "running"
    then running_status
    else if str_eq st "stopped"
    then stopped_status
    else unknown_status
