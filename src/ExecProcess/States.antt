-- ===== src/ExecProcess/States.antt =====
-- exec_process_state.go, delete_state.go: what each state makes of each method, the exported methods
-- of an exec process, and the callback of its pidfd.
use embedshim.Prelude.{
  false, none, some, to_u32, ℕ, String, Option, ◌⊎◌, inl, inr, ◌==◌, str_eq, ◌||◌, unname,
  if◌then◌else◌,
}
use embedshim.DeletedState
use embedshim.DeletedState.{refuse}
use embedshim.GoError.{Err}
use embedshim.ExecProcess.Methods
use embedshim.ExecProcess.Start
use embedshim.ExecProcess.Types.{ExecProcess, ExecState, created, running, stopped, deleted}
use embedshim.ExitSnoop
use embedshim.ExitSnoop.Types.{ExitStatus, exec_store}
use embedshim.InitProcess.States
use embedshim.Shim.Types.{TaskExit, TaskState, runtime_status}
use embedshim.World.{World, on_exec, on_init, on_shim}
use embedshim.Host.{
  Env, M, Outcome, ok, err, panic, call, close_fd, pure, crash, skip, gets, modify, ignore, tried,
  ◌>>=◌, ◌>>◌,
}

-- `s.p.execState = …`
abbrev pub become : ℕ → ExecState → M World (Unit {0})
become a state = on_exec a (modify (λ e. record e { exec_state = state }))

-- stateName has a case for the deleted state only; it panics on the states of exec processes
abbrev invalid_transition : M World (Unit {0})
invalid_transition = crash "invalid state"

unfoldable pub created_transition : ℕ → String → M World (Unit {0})
created_transition a name =
    if str_eq name "running"
    then become a running
    else if str_eq name "stopped"
    then become a stopped
    else if str_eq name "deleted"
    then become a deleted
    else invalid_transition

unfoldable pub running_transition : ℕ → String → M World (Unit {0})
running_transition a name = if str_eq name "stopped" then become a stopped else invalid_transition

unfoldable pub stopped_transition : ℕ → String → M World (Unit {0})
stopped_transition a name = if str_eq name "deleted" then become a deleted else invalid_transition

-- `if err := s.transition(…); err != nil { panic(err) }`
abbrev must : Outcome World (Unit {0}) → Outcome World (Unit {0})
must (ok x w l) = ok x w l
must (err e w l) = panic "invalid state transition"
must (panic m) = panic m

abbrev pub must_become : M World (Unit {0}) → M World (Unit {0})
must_become m w l = must (m w l)

module _ (env : Env) (a : ℕ) where
  unfoldable pub resize_in : ExecState → M World (Unit {0})
  resize_in created = Methods.resize env a
  resize_in running = Methods.resize env a
  resize_in stopped = refuse "cannot resize a stopped container"
  resize_in deleted = DeletedState.resize

  unfoldable pub start_in : ExecState → M World (Unit {0})
  unfolding created_transition
  start_in created = do Start.start env a; created_transition a "running"
  start_in running = refuse "cannot start a running process"
  start_in stopped = refuse "cannot start a stopped process"
  start_in deleted = DeletedState.start

  unfoldable pub delete_in : ExecState → M World (Unit {0})
  unfolding created_transition stopped_transition
  delete_in created = do Methods.delete env a; created_transition a "deleted"
  delete_in running = refuse "cannot delete a running process"
  delete_in stopped = do Methods.delete env a; stopped_transition a "deleted"
  delete_in deleted = DeletedState.delete

  unfoldable pub kill_in : ExecState → ℕ → M World (Unit {0})
  kill_in deleted signal = DeletedState.kill signal false
  kill_in _ signal = Methods.kill env a signal

  unfoldable pub set_exited_in : ExecState → ℕ → M World (Unit {0})
  unfolding created_transition running_transition
  set_exited_in created status = do
    Methods.set_exited env a status
    must_become (created_transition a "stopped")
  set_exited_in running status = do
    Methods.set_exited env a status
    must_become (running_transition a "stopped")
  set_exited_in stopped status = skip
  set_exited_in deleted status = DeletedState.set_exited status

unfoldable pub status_in : ExecState → String
status_in created = "created"
status_in running = "running"
status_in stopped = "stopped"
status_in deleted = DeletedState.status

abbrev exit_of : ExecProcess → TaskExit
exit_of e = record { pid = e.pid; status = to_u32 e.status; timestamp = e.exited }

module _ (env : Env) (a : ℕ) where
  abbrev state_of : M World ExecState
  state_of = gets (λ w. (w.execs a).exec_state)

  unfoldable pub set_exited : ℕ → M World (Unit {0})
  set_exited status = do state ← state_of; set_exited_in env a state status

  unfoldable pub start : M World (Unit {0})
  start = do state ← state_of; start_in env a state

  unfoldable pub kill : ℕ → M World (Unit {0})
  kill signal = do state ← state_of; kill_in env a state signal

  unfoldable pub resize_pty : M World (Unit {0})
  resize_pty = do state ← state_of; resize_in env a state

  -- deleteExecProcess of shim.go: the shim forgets the ID
  unfoldable pub forget : M World TaskExit
  forget = do
    e ← gets (λ w. w.execs a)
    on_shim e.parent (
        modify (λ s. record s {
          reserved = unname s.reserved e.id;
          exec_processes = unname s.exec_processes e.id;
        }))
    pure (exit_of e)

  unfoldable pub delete : M World TaskExit
  unfolding forget
  delete = do state ← state_of; delete_in env a state; forget

  -- a paused container shows on all its processes
  unfoldable pub status : M World String
  status = do
    e ← gets (λ w. w.execs a)
    parent ← on_init e.parent States.status
    pure (
        if str_eq parent "paused" || str_eq parent "pausing"
        then parent
        else status_in e.exec_state)

  -- Wait returns when `waitBlock` is closed; `none` is a caller that is still waiting
  unfoldable pub wait : M World (Option TaskExit)
  wait = do e ← gets (λ w. w.execs a); if e.wait_closed then pure (some (exit_of e)) else pure none

  unfoldable pub state : M World TaskState
  unfolding status
  state = do
    st ← status
    e ← gets (λ w. w.execs a)
    pure (record {
      pid = e.pid;
      status = runtime_status st;
      stdio = e.stdio;
      exit_status = to_u32 e.status;
      exited_at = e.exited;
    })

  unfoldable pub close_io : M World (Unit {0})
  close_io = do
    e ← gets (λ w. w.execs a)
    elim e.stdin [ none ↦ skip | some f ↦ (do call env (close_fd f); skip) ]

  exit_code_of : ℕ → Err ⊎ ExitStatus → ℕ
  exit_code_of pid (inl e) = 255
  exit_code_of pid (inr event) = if event.pid == pid then event.exit_code else 255

  -- the callback that `start` registers for the pidfd
  unfoldable pub exit_callback : M World (Unit {0})
  unfolding exit_code_of
  exit_callback = do
    e ← gets (λ w. w.execs a)
    event ← tried (ExitSnoop.get_exited_event env exec_store e.trace_event_id)
    ignore (ExitSnoop.delete_exited_event env exec_store e.trace_event_id)
    set_exited (exit_code_of e.pid event)
