-- ===== src/InitProcess/States.antt =====
-- init_process_state.go: what each state makes of each method, and the exported
-- methods of the init process, which take the lock and call the current state.
use embedshim.Prelude.{ℕ, String, Bool, Option, str_eq, if◌then◌else◌}
use embedshim.DeletedState
use embedshim.DeletedState.{refuse}
use embedshim.GoError.{msg}
use embedshim.ExecProcess.Types.{ExecProcess}
use embedshim.InitProcess
use embedshim.InitProcess.{InitState, InitProcess, created, running, paused, stopped, deleted}
use embedshim.Host.{
  Env, M, Stdio, Outcome, ok, err, panic, call, pure, fail, crash, skip, gets, modify, ignore,
  ◌>>=◌, ◌>>◌, runc_resume,
}

-- `s.p.initState = …`
abbrev become : InitState → M InitProcess (Unit {0})
become state = modify (λ p. record p { init_state = state })

-- stateName has no case for a paused state, and panics on it
unfoldable pub state_name : {A : Type 0} → InitState → M InitProcess A → M InitProcess A
state_name paused k = crash "invalid state"
state_name _ k = k

abbrev invalid_transition : InitState → M InitProcess (Unit {0})
invalid_transition state = state_name state (fail (msg "invalid state transition"))

unfoldable pub created_transition : String → M InitProcess (Unit {0})
unfolding state_name
created_transition name =
    if str_eq name "running"
    then become running
    else if str_eq name "stopped"
    then become stopped
    else if str_eq name "deleted"
    then become deleted
    else invalid_transition created

unfoldable pub running_transition : String → M InitProcess (Unit {0})
unfolding state_name
running_transition name =
    if str_eq name "stopped"
    then become stopped
    else if str_eq name "paused"
    then become paused
    else invalid_transition running

unfoldable pub paused_transition : String → M InitProcess (Unit {0})
unfolding state_name
paused_transition name =
    if str_eq name "running"
    then become running
    else if str_eq name "stopped"
    then become stopped
    else invalid_transition paused

unfoldable pub stopped_transition : String → M InitProcess (Unit {0})
unfolding state_name
stopped_transition name =
    if str_eq name "deleted" then become deleted else invalid_transition stopped

-- `if err := s.transition(…); err != nil { panic(err) }`
abbrev must : Outcome InitProcess (Unit {0}) → Outcome InitProcess (Unit {0})
must (ok a p l) = ok a p l
must (err e p l) = panic "invalid state transition"
must (panic m) = panic m

abbrev must_become : M InitProcess (Unit {0}) → M InitProcess (Unit {0})
must_become m p l = must (m p l)

module _ (env : Env) where
  unfoldable pub start_in : InitState → M InitProcess (Unit {0})
  unfolding InitProcess.start created_transition
  start_in created = do InitProcess.start env; created_transition "running"
  start_in running = refuse "cannot start a running process"
  start_in paused = refuse "cannot start a paused process"
  start_in stopped = refuse "cannot start a stopped process"
  start_in deleted = DeletedState.start

  unfoldable pub delete_in : InitState → M InitProcess (Unit {0})
  unfolding created_transition stopped_transition
  delete_in created = do InitProcess.delete env; created_transition "deleted"
  delete_in running = refuse "cannot delete a running process"
  delete_in paused = refuse "cannot delete a paused process"
  delete_in stopped = do InitProcess.delete env; stopped_transition "deleted"
  delete_in deleted = DeletedState.delete

  unfoldable pub kill_in : InitState → ℕ → Bool → M InitProcess (Unit {0})
  kill_in deleted signal all = DeletedState.kill signal all
  kill_in _ signal all = InitProcess.kill env signal all

  unfoldable pub set_exited_in : InitState → ℕ → M InitProcess (Unit {0})
  unfolding created_transition running_transition paused_transition
  set_exited_in created status = do
    InitProcess.set_exited env status
    must_become (created_transition "stopped")
  set_exited_in running status = do
    InitProcess.set_exited env status
    must_become (running_transition "stopped")
  set_exited_in paused status = do
    InitProcess.set_exited env status
    id ← gets (λ p. p.id)
    ignore (call env (runc_resume id))
    must_become (paused_transition "stopped")
  set_exited_in stopped status = skip
  set_exited_in deleted status = DeletedState.set_exited status

  unfoldable pub exec_in :
      InitState → Option ℕ → String → String → Stdio → M InitProcess ExecProcess
  exec_in created ctx id spec io = InitProcess.exec env ctx id spec io
  exec_in running ctx id spec io = InitProcess.exec env ctx id spec io
  exec_in paused ctx id spec io = refuse "cannot exec in a paused state"
  exec_in stopped ctx id spec io = refuse "cannot exec in a stopped state"
  exec_in deleted ctx id spec io = DeletedState.exec ctx id spec io

  unfoldable pub update_in : InitState → String → M InitProcess (Unit {0})
  update_in stopped resources = refuse "cannot update a stopped container"
  update_in deleted resources = DeletedState.update resources
  update_in _ resources = InitProcess.update env resources

unfoldable pub pause_in : InitState → M InitProcess (Unit {0})
pause_in created = refuse "cannot pause task in created state"
pause_in running = refuse "pause not implemented yet"
pause_in paused = refuse "cannot pause a paused container"
pause_in stopped = refuse "cannot pause a stopped container"
pause_in deleted = DeletedState.pause

unfoldable pub resume_in : InitState → M InitProcess (Unit {0})
resume_in created = refuse "cannot resume task in created state"
resume_in running = refuse "cannot resume a running process"
resume_in paused = refuse "resume not implemented yet"
resume_in stopped = refuse "cannot resume a stopped container"
resume_in deleted = DeletedState.resume

unfoldable pub checkpoint_in : InitState → M InitProcess (Unit {0})
checkpoint_in created = refuse "cannot checkpoint a task in created state"
checkpoint_in running = refuse "checkpoint not implemented yet"
checkpoint_in paused = refuse "checkpoint not implemented yet"
checkpoint_in stopped = refuse "cannot checkpoint a stopped container"
checkpoint_in deleted = DeletedState.checkpoint

unfoldable pub status_in : InitState → String
status_in created = "created"
status_in running = "running"
status_in paused = "paused"
status_in stopped = "stopped"
status_in deleted = DeletedState.status

abbrev state_of : M InitProcess InitState
state_of p l = ok p.init_state p l

module _ (env : Env) where
  unfoldable pub start : M InitProcess (Unit {0})
  start = do state ← state_of; start_in env state

  unfoldable pub delete : M InitProcess (Unit {0})
  delete = do state ← state_of; delete_in env state

  unfoldable pub kill : ℕ → Bool → M InitProcess (Unit {0})
  kill signal all = do state ← state_of; kill_in env state signal all

  unfoldable pub set_exited : ℕ → M InitProcess (Unit {0})
  set_exited status = do state ← state_of; set_exited_in env state status

  unfoldable pub exec : Option ℕ → String → String → Stdio → M InitProcess ExecProcess
  exec ctx id spec io = do state ← state_of; exec_in env state ctx id spec io

  unfoldable pub update : String → M InitProcess (Unit {0})
  update resources = do state ← state_of; update_in env state resources

unfoldable pub pause : M InitProcess (Unit {0})
pause = do state ← state_of; pause_in state

unfoldable pub resume : M InitProcess (Unit {0})
resume = do state ← state_of; resume_in state

unfoldable pub status : M InitProcess String
status = do state ← state_of; pure (status_in state)
