-- ===== src/Bpf.antt =====
-- bpf/exitsnoop.bpf.c: the program on the tracepoint sched_process_exit, and the two hash maps that it
-- shares with pkg/exitsnoop/map.go. The maps themselves are the kernel's: an interface with the
-- documented laws of the three operations. A history is a list of steps, the newest one first.
pub mod Tables
pub mod Tracked
pub mod History
pub mod Fresh
use embedshim.Prelude.{
  ℕ, ◌/◌, ◌%◌, ◌^◌, ◌≡◌, Bool, true, Option, none, some, List, [], ◌∷◌, ◌==◌, ◌&&◌, ◌<◌, ◌≢◌,
  if◌then◌else◌,
}
use embedshim.Host.{
  Call, Event, Reply, fails, gives, trace_task, delete_task, insert_event, delete_event,
}
use embedshim.ExitSnoop.Types.{PidnsInfo, TaskInfo, ExitStatus, init_store}
use embedshim.Bpf.Tables.{BpfMap, or_same}

-- the max_entries of both maps
abbrev pub max_entries : ℕ
max_entries = 2048

-- what the helpers tell of the task that is exiting
pub record Exiting : Type 0 where
  -- bpf_get_current_pid_tgid
  pub pid_tgid : ℕ
  -- bpf_get_ns_current_pid_tgid succeeds for this namespace
  pub in_ns : PidnsInfo → Bool
  pub exit_code : ℕ
  pub start_boottime : ℕ
  -- bpf_ktime_get_ns
  pub now : ℕ

-- the row that is written for the exit of the process `pid`
abbrev pub status_of : ℕ → Exiting → ExitStatus
status_of pid x = record {
  pid = pid;
  exit_code = x.exit_code;
  start_boottime = x.start_boottime;
  exited_time = x.now;
}

-- the exiting task is the main thread of the process `pid`
abbrev pub is_leader : ℕ → Exiting → Bool
is_leader pid x = (x.pid_tgid / 2 ^ 32 == pid) && (x.pid_tgid % 2 ^ 32 == pid)

pub data Step : Type 0 where
  exit : Exiting → Step
  -- a call of the program and its reply
  made : Event → Step

module _ (tasks : BpfMap TaskInfo max_entries) (events : BpfMap ExitStatus max_entries) where
  -- the pinned maps of the init processes
  pub record Kernel : Type 0 where
    pub tracing : tasks.Table
    pub exited : events.Table

  record_exit : Kernel → ℕ → TaskInfo → Exiting → Kernel
  record_exit k pid rt x = record {
    tracing = tasks.remove k.tracing pid;
    exited = or_same (events.add k.exited rt.trace_id (status_of pid x)) k.exited;
  }

  with_row : Kernel → ℕ → Exiting → Option TaskInfo → Kernel
  unfolding record_exit
  with_row k pid x none = k
  with_row k pid x (some rt) = if x.in_ns rt.pidns_info then record_exit k pid rt x else k

  unfoldable pub handle_sched_process_exit : Kernel → Exiting → Kernel
  unfolding with_row
  handle_sched_process_exit k x =
      if x.pid_tgid / 2 ^ 32 == x.pid_tgid % 2 ^ 32
      then with_row k (x.pid_tgid / 2 ^ 32) x (tasks.find k.tracing (x.pid_tgid / 2 ^ 32))
      else k

  -- what a successful call of the store does to the maps
  unfoldable pub effect : Kernel → Call → Kernel
  effect k (trace_task init_store pid info) = record k {
    tracing = or_same (tasks.add k.tracing pid info) k.tracing;
  }
  effect k (delete_task init_store pid) = record k { tracing = tasks.remove k.tracing pid }
  effect k (insert_event init_store id status) = record k {
    exited = or_same (events.add k.exited id status) k.exited;
  }
  effect k (delete_event init_store id) = record k { exited = events.remove k.exited id }
  effect k _ = k

  after_reply : Kernel → Call → Reply → Kernel
  unfolding effect
  after_reply k c (fails e) = k
  after_reply k c (gives n m) = effect k c

  unfoldable pub step : Kernel → Step → Kernel
  unfolding after_reply handle_sched_process_exit
  step k (exit x) = handle_sched_process_exit k x
  step k (made e) = after_reply k e.call e.reply

  unfoldable pub run : List Step → Kernel → Kernel
  unfolding step
  run [] k = k
  run (s ∷ ss) k = step (run ss k) s
