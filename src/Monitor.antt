-- ===== src/Monitor.antt =====
-- monitor.go: tracing of an init process from its creation, and again after a restart. The monitor's
-- lock makes traceInitProcess one step with respect to the handling of exec processes.
pub mod Trace
pub mod Reports
pub mod Repoll
pub mod Opening
pub mod Calls
pub mod Delivery
use embedshim.ExitSnoop.Load.{new_store, new_store_from_attach}
use embedshim.PidFd.SysCalls
use embedshim.Prelude.{List, String, empty, ℕ, ◌⊎◌, inl, inr, cat, ◌==◌, if◌then◌else◌}
use embedshim.GoError.{Err, wrap, is, key_not_exist, esrch}
use embedshim.ExitSnoop
use embedshim.ExitSnoop.Types.{TaskInfo, ExitStatus, init_store}
use embedshim.PidFd
use embedshim.RuncLog.{check_runc_init_alive}
use embedshim.InitProcess.{InitProcess, InitState}
use embedshim.InitProcess.States
use embedshim.World.{World, Callback, init_exit, set_poller, on_init}
use embedshim.Host.{
  Env, M, call, fail, crash, modify, gets, ignore, tried, on_error, wrapping, ◌>>=◌, ◌>>◌,
  pidfd_open, pidfd_send_signal, close_fd,
}

-- unexpectedExitCode
abbrev pub unexpected_exit_code : ℕ
unexpected_exit_code = 128

module _ (env : Env) where
  -- newMonitor; the goroutine that runs the epoller is `PidFd.run`
  unfoldable pub new_monitor : List String → M World (Unit {0})
  new_monitor state_dir = do
    efd ← PidFd.new_epoller env
    on_error (λ _. PidFd.close env efd)
        (do
          new_store env state_dir
          on_error (λ _. ExitSnoop.close env init_store) (new_store_from_attach env))
    modify (λ w. record w { poller = empty })

  abbrev pub add_callback : ℕ → Callback → M World (Unit {0})
  add_callback fd callback = PidFd.add env (λ (w : World). w.poller) set_poller fd callback

  -- what the callback and the end of repollingInitProcess share: report the recorded exit, or the
  -- unexpected code and the error
  unfoldable pub report_exit : ℕ → (Err → Err) → Err ⊎ ExitStatus → M World (Unit {0})
  report_exit a name (inl e) = do
    on_init a (States.set_exited env unexpected_exit_code)
    fail (name e)
  report_exit a name (inr event) = on_init a (States.set_exited env event.exit_code)

  -- the callback that both functions register for an init process
  unfoldable pub init_callback : ℕ → M World (Unit {0})
  unfolding report_exit
  init_callback a = do
    p ← gets (λ w. w.inits a)
    event ← tried (ExitSnoop.get_exited_event env init_store p.trace_event_id)
    report_exit a (wrap "failed to get exited status") event

  -- from the insertion into the map on
  register_init : ℕ → ℕ → InitProcess → M World (Unit {0})
  register_init a fd p =
      on_error
        (λ _. do
          ignore (ExitSnoop.delete_tracing_task env init_store p.pid)
          ignore (ExitSnoop.delete_exited_event env init_store p.trace_event_id))
        (do SysCalls.send_signal env fd 0; add_callback fd (init_exit a))

  -- from the opening of the pidfd on
  trace_alive : ℕ → ℕ → InitProcess → M World (Unit {0})
  unfolding register_init
  trace_alive a fd p =
      on_error (λ _. ignore (call env (close_fd fd)))
        (do
          check_runc_init_alive env (cat p.runtime.root (cat "/" (cat p.id "/exec.fifo"))) p.pid
          ns ← wrapping (wrap "failed to get pidns info") (ExitSnoop.get_pidns_info env p.pid)
          wrapping (wrap "failed to insert taskinfo") (
              ExitSnoop.trace env init_store p.pid
                (record { trace_id = p.trace_event_id; pidns_info = ns }))
          register_init a fd p)

  unfoldable pub trace_init_process : ℕ → M World (Unit {0})
  unfolding trace_alive
  trace_init_process a = do
    p ← gets (λ w. w.inits a)
    fd ← wrapping (wrap "failed to open pidfd") (SysCalls.open_fd env p.pid)
    trace_alive a fd p

  -- set_exitedstatus: the exit is read once more
  unfoldable pub set_exited_status : ℕ → ℕ → M World (Unit {0})
  unfolding report_exit
  set_exited_status a event_id = do
    event ← tried (ExitSnoop.get_exited_event env init_store event_id)
    report_exit a (λ e. e) event

  -- `init.initState.(*createdState).transition("running")`
  resume_running : ℕ → InitState → M World (Unit {0})
  unfolding States.created_transition
  resume_running a InitState.created = ignore (on_init a (States.created_transition "running"))
  resume_running a _ = crash "interface conversion"

  -- the row of the traced pid has been read
  with_task : ℕ → ℕ → InitProcess → TaskInfo → M World (Unit {0})
  unfolding resume_running set_exited_status
  with_task a fd p info =
      if info.trace_id == p.trace_event_id
      then on_error (λ _. ignore (call env (close_fd fd)))
          (do resume_running a p.init_state; add_callback fd (init_exit a))
      else (do ignore (call env (close_fd fd)); set_exited_status a p.trace_event_id)

  -- the pidfd is open; after a missing row it is closed only if the rest fails
  with_pidfd : ℕ → ℕ → InitProcess → Err ⊎ TaskInfo → M World (Unit {0})
  unfolding with_task set_exited_status
  with_pidfd a fd p (inr info) = with_task a fd p info
  with_pidfd a fd p (inl e) =
      on_error (λ _. ignore (call env (close_fd fd)))
        (if is e key_not_exist then set_exited_status a p.trace_event_id else fail e)

  slow_path : ℕ → InitProcess → Err ⊎ ℕ → M World (Unit {0})
  unfolding with_pidfd set_exited_status
  slow_path a p (inl e) = if is e esrch then set_exited_status a p.trace_event_id else fail e
  slow_path a p (inr fd) = do
    info ← tried (ExitSnoop.get_tracing_task env init_store p.pid)
    with_pidfd a fd p info

  fast_path : ℕ → InitProcess → Err ⊎ ExitStatus → M World (Unit {0})
  unfolding slow_path
  fast_path a p (inr event) = on_init a (States.set_exited env event.exit_code)
  fast_path a p (inl e) =
      if is e key_not_exist
      then (do fd ← tried (SysCalls.open_fd env p.pid); slow_path a p fd)
      else fail e

  unfoldable pub repolling_init_process : ℕ → M World (Unit {0})
  unfolding fast_path
  repolling_init_process a = do
    p ← gets (λ w. w.inits a)
    event ← tried (ExitSnoop.get_exited_event env init_store p.trace_event_id)
    fast_path a p event
