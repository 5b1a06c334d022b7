-- ===== src/ExecProcess/Types.antt =====
-- exec_process.go, exec_process_state.go: the state of a process that runs beside the init process.
use embedshim.Prelude.{ℕ, List, [], String, Bool, false, Option, none, ℤ, pos}
use embedshim.Host.{Stdio}
use embedshim.Io.{ProcessIo}

-- execCreatedState, execRunningState, execStoppedState and the shared deletedState
pub data ExecState : Type 0 where
  created running stopped deleted : ExecState

pub record ExecProcess : Type 0 where
  -- the init process that it belongs to, as a pointer
  pub parent : ℕ
  pub id : String
  pub trace_event_id : ℕ
  pub exec_state : ExecState
  -- the counter of `wg`: copies that are still writing to stdout
  pub wg : ℕ
  -- whether `waitBlock` is closed
  pub wait_closed : Bool
  pub stdio : Stdio
  pub console : Option ℕ
  pub io : Option ProcessIo
  pub stdin : Option ℕ
  pub closers : List ℕ
  pub status : ℤ
  -- the zero time is `none`
  pub exited : Option ℕ
  pub pid : ℕ
  pub pid_fd : ℕ
  -- the variables `execPid`, `pidFD` and `done` of the function that `start` hands to the wrapper
  pub sync_pid : ℕ
  pub sync_fd : ℕ
  pub sync_done : Bool

-- the literal that (*initProcess).exec builds
unfoldable pub new_exec : ℕ → String → ℕ → Stdio → ExecProcess
new_exec parent id trace_id stdio = record {
  parent = parent;
  id = id;
  trace_event_id = trace_id;
  exec_state = ExecState.created;
  wg = 0;
  wait_closed = false;
  stdio = stdio;
  console = none;
  io = none;
  stdin = none;
  closers = [];
  status = pos 0;
  exited = none;
  pid = 0;
  pid_fd = 0;
  sync_pid = 0;
  sync_fd = 0;
  sync_done = false;
}
