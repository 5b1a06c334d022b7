-- ===== src/Shim/Task.antt =====
-- shim.go: the creation, the end and the state of a task.
use embedshim.Prelude.{
  true, false, cat, ℕ, String, Bool, Option, none, some, List, [], ◌∷◌, to_u32, if◌then◌else◌,
}
use embedshim.GoError.{sentinel, msg, Err, wrap, is, not_found, os_exist}
use embedshim.Bundle
use embedshim.Bundle.{Bundle}
use embedshim.ExitSnoop
use embedshim.ExitSnoop.Types.{init_store}
use embedshim.InitProcess
use embedshim.InitProcess.{InitProcess}
use embedshim.InitProcess.States
use embedshim.Monitor.{trace_init_process}
use embedshim.Shim.Types.{TaskExit, TaskState, runtime_status}
use embedshim.World.{World, on_init}
use embedshim.Host.{
  Env, M, close_fd, cgroup_stats, call, pure, fail, skip, gets, attempt, ignore, on_error, wrapping,
  ◌>>=◌, ◌>>◌, mkdir, unmount_rootfs, mount_rootfs, load_cgroup, tasks_delete,
}

abbrev exit_of : InitProcess → TaskExit
exit_of p = record { pid = p.pid; status = to_u32 p.status; timestamp = p.exited }

module _ (env : Env) (a : ℕ) where
  unfoldable pub mount_all : List String → M World (Unit {0})
  mount_all [] = skip
  mount_all (m ∷ ms) = do
    wrapping (wrap "failed to mount rootfs component") (call env (mount_rootfs m))
    mount_all ms

  existing_is_fine : Option Err → M World (Unit {0})
  existing_is_fine none = skip
  existing_is_fine (some e) = if is e os_exist then skip else fail e

  unfoldable pub make_rootfs : Bundle → List String → M World (Unit {0})
  unfolding existing_is_fine
  make_rootfs b [] = skip
  make_rootfs b (m ∷ ms) = do
    made ← attempt (call env (mkdir (Bundle.rootfs b)))
    existing_is_fine made

  unmount : List String → M World (Unit {0})
  unmount [] = skip
  unmount (m ∷ ms) = ignore (call env unmount_rootfs)

  -- the process is created and traced; if it cannot be traced it is deleted again
  unfoldable pub create_init : M World (Unit {0})
  create_init = do
    on_init a (InitProcess.create env)
    on_error (λ _. ignore (on_init a (States.delete env))) (trace_init_process env a)

  unfoldable pub create : Bundle → List String → M World (Unit {0})
  unfolding mount_all make_rootfs unmount create_init
  create b mounts = do
    make_rootfs b mounts
    on_error (λ _. unmount mounts) (do mount_all mounts; create_init; ignore (call env load_cgroup))

  unfoldable pub removed_or_gone : Option Err → M World (Unit {0})
  removed_or_gone none = skip
  removed_or_gone (some e) = if is e not_found then skip else fail e

  unfoldable pub delete : Bundle → M World TaskExit
  unfolding removed_or_gone
  delete b = do
    removed ← attempt (on_init a (States.delete env))
    removed_or_gone removed
    Bundle.delete env b
    p ← gets (λ w. w.inits a)
    ignore (ExitSnoop.delete_exited_event env init_store p.trace_event_id)
    ignore (call env (tasks_delete p.id))
    pure (exit_of p)

  unfoldable pub close_io : M World (Unit {0})
  close_io = do
    p ← gets (λ w. w.inits a)
    elim p.stdin [ none ↦ skip | some f ↦ (do call env (close_fd f); skip) ]

  -- Stats of the cgroup that Create has loaded
  unfoldable pub stats : Bool → M World (Unit {0})
  stats false = fail (wrap "cgroup does not exist" (sentinel not_found))
  stats true = do call env cgroup_stats; skip

  unfoldable pub pids : M World (List ℕ)
  pids = do p ← gets (λ w. w.inits a); pure (p.pid ∷ [])

  -- Wait returns when `waitBlock` is closed; `none` is a caller that is still waiting
  unfoldable pub wait : M World (Option TaskExit)
  wait = do p ← gets (λ w. w.inits a); if p.wait_closed then pure (some (exit_of p)) else pure none

  unfoldable pub state : M World TaskState
  unfolding runtime_status
  state = do
    st ← on_init a States.status
    p ← gets (λ w. w.inits a)
    pure (record {
      pid = p.pid;
      status = runtime_status st;
      stdio = p.stdio;
      exit_status = to_u32 p.status;
      exited_at = p.exited;
    })

  -- Pause, Resume and Checkpoint
  unfoldable pub not_implemented : String → M World (Unit {0})
  not_implemented what = fail (msg (cat what " not implemented yet"))

  unfoldable pub start : M World (Unit {0})
  start = on_init a (States.start env)

  unfoldable pub kill : ℕ → Bool → M World (Unit {0})
  kill signal all = on_init a (States.kill env signal all)

  unfoldable pub update : String → M World (Unit {0})
  update resources = on_init a (States.update env resources)

  unfoldable pub resize_pty : M World (Unit {0})
  resize_pty = on_init a (InitProcess.resize env)
