-- ===== src/ExitSnoop/Types.antt =====
-- pkg/exitsnoop/map.go: the rows of the two BPF maps. Words are unsigned; the exit code is the 32-bit
-- pattern of the kernel's int.
use embedshim.Prelude.{ℕ}

pub record PidnsInfo : Type 0 where
  pub dev : ℕ
  pub ino : ℕ

-- which task is traced, and in which pid namespace
pub record TaskInfo : Type 0 where
  pub trace_id : ℕ
  pub pidns_info : PidnsInfo

pub record ExitStatus : Type 0 where
  pub pid : ℕ
  pub exit_code : ℕ
  pub start_boottime : ℕ
  pub exited_time : ℕ

-- the pinned maps of the init processes, and those of the exec processes
pub data StoreId : Type 0 where
  init_store exec_store : StoreId
