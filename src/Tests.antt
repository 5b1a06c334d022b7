-- ===== src/Tests.antt =====
-- Example runs: an environment of concrete answers, and the theorems at concrete processes.
mod Wrapper
mod CommandLine
mod Restart
mod Delivery
mod Exec
mod Parts
use embedshim.ExecProcess.DoubleClose.{exit_callback-invoke_with}
use embedshim.ExecProcess.Synced.{Synced, sync_with_child-Synced}
use embedshim.PidFd.Once.{Loop, set_map, note, IsNamed, Conserves}
use embedshim.PidFd.{run, ready}
use embedshim.Shim.Agreement.{Agrees, wait-state}
use embedshim.InitProcess.Promise.{After, Leads, view, perform_all-Leads}
use embedshim.Prelude.{
  insert, lookup-insert, lookup-empty, lookup, ℕ, Bool, true, false, Option, none, some, List, [],
  ◌∷◌, ◌≡◌, refl, arith, ℤ, pos, negsuc, ◌==◌, ◌%◌, ◌/◌, if◌then◌else◌, empty, no_names, inl, inr,
}
use embedshim.GoError.{msg, sentinel, key_not_exist}
use embedshim.Host.{continue, panic, Env, Reply, fails, gives, Stdio, Call, Log, ok}
use embedshim.InitProcess
use embedshim.InitProcess.States
use embedshim.Shim.{reserve_exec_id}
use embedshim.Prelude.{name, named}
use embedshim.Host.{Outcome}
use embedshim.InitProcess.{InitProcess, InitState, created, running, stopped, deleted, new_init}
use embedshim.InitProcess.Lifecycle.{
  Request, kill, delete, set_exited, perform, perform-Lawful, Lawful,
}
use embedshim.InitProcess.Waiters.{
  perform_all, perform_all-Settles, Settles, first_exit_wins, Reports, deleted_unstarted-Blocks,
  Blocks,
}
use embedshim.ExecProcess.Types.{new_exec}
use embedshim.GoError.{wrap}
use embedshim.Host.{err}
use embedshim.RuncLog.{LogLine, get_last_runtime_error}
use embedshim.RuncLog.Latest.{latest, or_text, entries, Reads, get_last_runtime_error-latest}
use embedshim.ExecProcess.Exits.{Ends, exit_callback-Ends}
use embedshim.ExecProcess.Start
use embedshim.ExecProcess.States as ExecStates
use embedshim.Host.{skip}
use embedshim.Bundle.{new_bundle}
use embedshim.Bundle.Rollback.{Balances, new_bundle-Balances}
use embedshim.Shim.Waiting.{Waited, init_callback-Waited}
use embedshim.InitProcess.Load.{new_runc_runtime}
use embedshim.World.{World}
use embedshim.Shim.Types.{Shim, fresh_shim}
use embedshim.Monitor.{trace_init_process, init_callback, repolling_init_process}
use embedshim.Monitor.Trace.{Traced, trace_init_process-Traced}
use embedshim.Monitor.Reports.{Says, WaitStatusLaw, init_callback-Says, lost_exit-zero}
use embedshim.Monitor.Repoll.{Repolled, repolling_init_process-Repolled}
use embedshim.Io.{new_runc_pipe_io}
use embedshim.Io.Leaks.{Accounts, Anything, held_io, new_runc_pipe_io-Accounts}
use embedshim.Shim.ExecIds
use embedshim.Shim.Task
use embedshim.Shim.ExecIds.{Calls, Reach, Exclusive, Reach-Exclusive}

abbrev wait_exit : ℕ → ℤ
wait_exit w = if w % 128 == 0 then pos (w / 256 % 256) else negsuc 0

wait_exit-WaitStatusLaw : WaitStatusLaw wait_exit
wait_exit-WaitStatusLaw = record { exited = λ w h. ground arith; not_exited = λ w h. ground arith }

-- a kernel whose exit event of the task says that it ended with code 3
abbrev pub env_with : (Log → Call → Reply) → Env
env_with reply = record {
  reply = reply;
  more = λ l c. (0, 0);
  log_entries = λ l. [];
  clock = λ l. 1000;
  names = λ s. "error";
  messages = λ l. [];
  proc_fds = λ l p. [];
  is_null = λ s. false;
  url_scheme = λ s. inr "fifo";
  exit_status = wait_exit;
  file_bytes = λ l p. [];
  dir_entries = λ l p. [];
  link_target = λ l p. "work" ∷ [];
  marshal_options = λ o. inl (msg "unsupported");
  unmarshal_options = λ b. inl (msg "unsupported");
  marshal_stdio = λ o. inl (msg "unsupported");
  unmarshal_stdio = λ b. inl (msg "unsupported");
  abs = λ p. inr p;
  environ = [];
  socket_path = λ l. "/tmp/pty";
  unmarshal_any = λ a. inr none;
}

abbrev pub kind_env : Env
kind_env = env_with (λ l c. gives 7 768)

-- a kernel in which no exit event is found
abbrev losing_env : Env
losing_env = env_with (λ l c. fails (sentinel key_not_exist))

abbrev pub stdio : Stdio
stdio = record { stdin = "in"; stdout = "out"; stderr = "err"; terminal = false }

abbrev in_state : InitState → Bool → Option ℕ → InitProcess
in_state s closed t = record {
  self = 1;
  id = "web";
  init_state = s;
  path = "web" ∷ "moby" ∷ "state" ∷ [];
  runtime = new_runc_runtime "" ("work" ∷ []) "moby" "" "" false;
  trace_event_id = 4;
  wg = 0;
  wait_closed = closed;
  stdio = stdio;
  console = none;
  platform = none;
  io = none;
  stdin = none;
  closers = [];
  status = pos 0;
  exited = t;
  pid = 42;
}

abbrev pub new_task : InitProcess
new_task = in_state created false none

abbrev pub live_task : InitProcess
live_task = in_state running false none

abbrev pub dead_task : InitProcess
dead_task = in_state stopped true (some 900)

abbrev pub world_of : InitProcess → World
world_of p = record {
  poller = empty;
  inits = λ a. p;
  execs = λ a. new_exec 1 "sh" 5 stdio;
  next_exec = 0;
  next_init = 2;
  shims = λ a. fresh_shim;
}

perform-Lawful_example : Lawful live_task (perform kind_env (set_exited 768) live_task [])
perform-Lawful_example = perform-Lawful kind_env (set_exited 768) live_task [] (refl, refl)

abbrev pub later : List Request
later = kill 9 false ∷ set_exited 0 ∷ delete ∷ delete ∷ []

first_exit_wins_example :
    Reports (pos 3) (perform_all kind_env (set_exited 768 ∷ later) live_task [])
first_exit_wins_example = first_exit_wins kind_env 768 later live_task [] (refl, refl) tt

perform_all-Settles_example : Settles dead_task (perform_all kind_env later dead_task [])
perform_all-Settles_example = perform_all-Settles kind_env later dead_task [] tt

trace_init_process-Traced_example :
    Traced 1 42 (world_of new_task) [] (trace_init_process kind_env 1 (world_of new_task) [])
trace_init_process-Traced_example = trace_init_process-Traced kind_env 1 (world_of new_task) []

init_callback-Says_example : Says 1 (pos 3) (init_callback kind_env 1 (world_of live_task) [])
init_callback-Says_example = init_callback-Says kind_env 1 (world_of live_task) [] (refl, refl) tt

repolling_init_process-Repolled_example :
    Repolled 1 (repolling_init_process kind_env 1 (world_of new_task) [])
repolling_init_process-Repolled_example =
    repolling_init_process-Repolled kind_env 1 (world_of new_task) (refl, refl, refl) []

new_runc_pipe_io-Accounts_example :
    Accounts 7 [] 0 (held_io 7) Anything (new_runc_pipe_io kind_env stdio tt [])
new_runc_pipe_io-Accounts_example = new_runc_pipe_io-Accounts kind_env 7 stdio tt []

lost_exit-zero_example : Says 1 (pos 0) (init_callback losing_env 1 (world_of live_task) [])
lost_exit-zero_example =
    lost_exit-zero losing_env 1 (world_of live_task) [] wait_exit-WaitStatusLaw (refl, refl) tt refl

abbrev removed_task : InitProcess
removed_task = record new_task { init_state = deleted }

abbrev log_of : Outcome InitProcess (Unit {0}) → Log
log_of (ok x p l) = l
log_of _ = []

abbrev delete_log : Log
delete_log = log_of (perform kind_env delete new_task [])

removes : perform kind_env delete new_task [] ≡ ok tt removed_task delete_log
unfolding perform States.delete States.delete_in InitProcess.delete States.created_transition
removes = refl

deleted_unstarted-Blocks_example : Blocks (perform_all kind_env later removed_task delete_log)
deleted_unstarted-Blocks_example =
    deleted_unstarted-Blocks kind_env later new_task removed_task [] delete_log (refl, refl) refl
      removes

init_callback-Waited_example :
    Waited kind_env 1 (pos 3) (init_callback kind_env 1 (world_of live_task) [])
init_callback-Waited_example =
    init_callback-Waited kind_env 1 (world_of live_task) [] (refl, refl) tt

perform_all-Leads_example :
    After
      (λ q. Leads kind_env (set_exited 768 ∷ later) (view live_task) (view q))
      (perform_all kind_env (set_exited 768 ∷ later) live_task [])
perform_all-Leads_example =
    perform_all-Leads kind_env (set_exited 768 ∷ later) live_task [] (refl, refl)

wait-state_example :
    Agrees stopped
      (Task.wait kind_env 1 (world_of dead_task) [])
      (Task.state kind_env 1 (world_of dead_task) [])
wait-state_example = wait-state kind_env 1 (world_of dead_task) [] (refl, λ e. ground (arith, e))
