-- ===== src/Tests/Wrapper.antt =====
-- Example runs of the exec wrapper.
use embedshim.ExecProcess.Methods.{handle_io_after_exec}
use embedshim.RuncExt.{parse_proc_sync}
use embedshim.ExecProcess.Types.{new_exec}
use embedshim.World.{World}
use embedshim.ExitSnoop
use embedshim.PidFd
use embedshim.RuncExt.{write_proc_sync_message}
use embedshim.Prelude.{lookup}
use embedshim.ExecProcess.States as ExecStates
use embedshim.ExecProcess.DoubleClose.{exit_callback-invoke_with}
use embedshim.Host.{continue}
use embedshim.Io.{copy_stdin, ProcessIo, null_device}
use embedshim.ExecProcess.Start
use embedshim.ExecProcess.Start.{sync_with_child}
use embedshim.ExecProcess.Told.{heard, TakenOver, sync_with_child-TakenOver}
use embedshim.Prelude.{
  none, String, some, true, false, some, List, [], ◌∷◌, ◌≡◌, refl, arith, inr, ◌⊎◌, str_eq,
  if◌then◌else◌,
}
use embedshim.GoError.{Err, sentinel, eintr}
use embedshim.Host.{wait_command, Outcome, ok, err, panic, Env, Call, Log, Reply, fails, gives}
use embedshim.Host.Ran.{Gives, Ran}
use embedshim.RuncExt.Command.{runc_exec_opts_args, Runc, runtime_command}
use embedshim.RuncExt.Filtering.{occurrences, runtime_command-occurrences}
use embedshim.RuncExt.Types.{
  new_exec_status_message, new_exec_pid_message, ProcSync, ProcSyncType, exec_pid, exec_status,
  new_exec_pid_done_message, new_exec_status_done_message,
}
use embedshim.InitProcess.Load.{new_runc_runtime}
use embedshim.Wrapper.{run_exec}
use embedshim.Wrapper.Acts.{Act, says, acts, Interrupted}
use embedshim.Wrapper.Args.{Shell, Cli}
use embedshim.Wrapper.Reap.{Ends, reap_loop-after_waits}
use embedshim.Wrapper.Talk.{Talk, run_exec-Talks}
use embedshim.Tests.{env_with, stdio, world_of, live_task, kind_env}

-- a parent that confirms what was said last
abbrev confirmation : ProcSyncType → List (Err ⊎ ProcSync)
confirmation exec_pid = inr new_exec_pid_done_message ∷ []
confirmation exec_status = inr new_exec_status_done_message ∷ []
confirmation _ = []

abbrev answer_to : List Act → List (Err ⊎ ProcSync)
answer_to (says m ∷ xs) = confirmation m.type
answer_to _ = []

-- wait4 is interrupted once
abbrev interrupting : Log → Call → Reply
interrupting [] c = fails (sentinel eintr)
interrupting _ c = gives 7 768

abbrev wrapper_env : Env
wrapper_env = record kind_env { messages = λ l. answer_to (acts l) }

abbrev interrupting_env : Env
interrupting_env = record kind_env { reply = interrupting }

abbrev shell : Shell
shell = record {
  lookup_env = λ k. some "3";
  environ = "NOTIFY_SOCKET=/run/notify" ∷ "PATH=/usr/bin" ∷ [];
  atoi = λ t. inr 3;
  abs = λ p. inr p;
  euid = 0;
  in_userns = false;
}

abbrev runtime : Runc
runtime = new_runc_runtime "" ("work" ∷ []) "moby" "" "" true

-- the command line that the shim writes
abbrev cli : Cli
cli = record {
  global_string = λ k.
      if str_eq k "command"
      then "runc"
      else if str_eq k "root"
      then runtime.root
      else if str_eq k "log"
      then runtime.log
      else runtime.log_format;
  global_bool = λ k. true;
  string = λ k. if str_eq k "pid-file" then "/run/exec.pid" else "";
  bool = λ k. true;
  first = "web";
}

run_exec-Talks_example :
    Ran Interrupted
      (λ _ m. Talk [] (acts m))
      (λ m. Talk [] (acts m))
      (run_exec wrapper_env shell cli 3 tt [])
run_exec-Talks_example = run_exec-Talks wrapper_env shell cli 3 tt []

reap_loop-after_waits_example : Ends interrupting_env 42 2 tt []
reap_loop-after_waits_example =
    reap_loop-after_waits interrupting_env 42 2 1 tt [] (omega arith) refl

-- a variable whose name only begins like the one that is left out stays
abbrev notified : List String
notified = "NOTIFY_SOCKET=/run/notify" ∷ "NOTIFY_SOCKETS=2" ∷ "PATH=/usr/bin" ∷ []

runtime_command-occurrences_example :
    occurrences "NOTIFY_SOCKETS=2" (runtime_command notified false runtime ("exec" ∷ [])).env ≡ 1
runtime_command-occurrences_example =
    runtime_command-occurrences notified false runtime ("exec" ∷ []) "NOTIFY_SOCKETS=2"

-- the wrapper has told of process 42, which has not exited
abbrev whole_talk : List Act
whole_talk = says (new_exec_status_message false 0) ∷ says (new_exec_pid_message 42) ∷ []

abbrev shim_env : Env
shim_env = record kind_env { messages = λ l. heard whole_talk }

abbrev exec_io : ProcessIo
exec_io = record { io = null_device; stdio = stdio }

sync_with_child-TakenOver_example :
    Gives
      (TakenOver shim_env 2 42)
      (sync_with_child shim_env 2 (some exec_io) 9 (world_of live_task) [])
sync_with_child-TakenOver_example =
    sync_with_child-TakenOver shim_env 2 (some exec_io) 9 42 whole_talk (world_of live_task) []
      (false, 0, refl) (λ m. refl)

-- the wrapper has told all, and then ends with an error of its own
abbrev cancelled : Log → Call → Reply
cancelled l wait_command = fails (sentinel eintr)
cancelled l _ = gives 7 768

abbrev cancelled_env : Env
cancelled_env = record (env_with cancelled) { messages = λ l. heard whole_talk }

abbrev invoked : Outcome World (Unit {0})
invoked = Start.invoke_runc_exec cancelled_env 2 none (some exec_io) (world_of live_task) []

abbrev world_after : Outcome World (Unit {0}) → World
world_after (ok _ v l) = v
world_after (err _ v l) = v
world_after (panic m) = world_of live_task

abbrev log_after : Outcome World (Unit {0}) → Log
log_after (ok _ v l) = l
log_after (err _ v l) = l
log_after (panic m) = []

invoke_fails : invoked ≡ err (sentinel eintr) (world_after invoked) (log_after invoked)
unfolding Start.invoke_runc_exec runc_exec_opts_args runtime_command new_exec parse_proc_sync
    new_exec_pid_message new_exec_status_message Start.handle_message handle_io_after_exec
    copy_stdin ExitSnoop.get_pidns_info ExitSnoop.trace write_proc_sync_message PidFd.add lookup
invoke_fails = refl

exit_callback-invoke_with_example :
    continue
      (Start.invoke_with cancelled_env 2 none (some exec_io) (world_of live_task) [])
      (λ _. ExecStates.exit_callback cancelled_env 2)
    ≡ panic "close of closed channel"
unfolding Start.invoke_runc_exec runc_exec_opts_args runtime_command new_exec parse_proc_sync
    new_exec_pid_message new_exec_status_message Start.handle_message handle_io_after_exec
    copy_stdin ExitSnoop.get_pidns_info ExitSnoop.trace write_proc_sync_message PidFd.add lookup
exit_callback-invoke_with_example =
    exit_callback-invoke_with cancelled_env 2 none (some exec_io) (world_of live_task)
      (world_after invoked) [] (log_after invoked) (sentinel eintr) invoke_fails refl tt
