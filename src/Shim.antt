-- ===== src/Shim.antt =====
-- shim.go: the task. The shim of a process stands behind the same pointer as the process.
pub mod Types
pub mod Task
pub mod ExecIds
pub mod Waiting
pub mod Agreement
use embedshim.Prelude.{
  ℕ, String, Bool, true, false, Option, none, some, List, [], ◌∷◌, ◌+◌, ◌⊎◌, inl, inr, ℤ, Names,
  named, name, unname, str_eq, if◌then◌else◌,
}
use embedshim.GoError.{Err, msg, wrap, sentinel, is, not_found, already_exists, os_exist}
use embedshim.IdAllocator.{next_id}
use embedshim.InitProcess
use embedshim.InitProcess.{InitProcess}
use embedshim.InitProcess.States
use embedshim.ExecProcess.Types.{ExecProcess}
use embedshim.Shim.Types.{Shim}
use embedshim.Monitor.{trace_init_process}
use embedshim.World.{World, on_init, on_shim, update}
use embedshim.Host.{
  Env, M, Stdio, Outcome, ok, call, pure, fail, skip, gets, modify, attempt, ignore, tried,
  on_error, wrapping, ◌>>=◌, ◌>>◌, mkdir, unmount_rootfs, mount_rootfs, load_cgroup,
}

-- reserveExecID: whether the ID was free
unfoldable pub reserve_exec_id : String → M Shim Bool
reserve_exec_id id s l = elim (named s.exec_processes id) [
  | some p ↦ ok false s l
  | none ↦ elim (named s.reserved id) [
    | some u ↦ ok false s l
    | none ↦ ok true (record s { reserved = name s.reserved id tt }) l
  ]
]

-- the clean-up function that reserveExecID returns
unfoldable pub cancel_exec_id : String → M Shim (Unit {0})
cancel_exec_id id = modify (λ s. record s { reserved = unname s.reserved id })

unfoldable pub add_exec_process : String → ℕ → M Shim (Unit {0})
add_exec_process id p =
    modify (λ s. record s {
      reserved = unname s.reserved id;
      exec_processes = name s.exec_processes id p;
    })

unfoldable pub delete_exec_process : String → M Shim (Unit {0})
delete_exec_process id =
    modify (λ s. record s {
      reserved = unname s.reserved id;
      exec_processes = unname s.exec_processes id;
    })

-- the new process gets a pointer of its own
allocate : ExecProcess → M World ℕ
allocate e w l =
    ok w.next_exec (record w { execs = update w.execs w.next_exec e; next_exec = w.next_exec + 1 })
      l

module _ (env : Env) (a : ℕ) where
  reserved_exec : String → ℕ → String → Stdio → Bool → M World ℕ
  unfolding cancel_exec_id add_exec_process allocate
  reserved_exec id trace_id spec io false = fail (wrap "id" (sentinel already_exists))
  reserved_exec id trace_id spec io true = do
    e ←
        on_error (λ _. on_shim a (cancel_exec_id id))
          (on_init a (States.exec env (some trace_id) id spec io))
    p ← allocate e
    on_shim a (add_exec_process id p)
    pure p

  unfoldable pub exec : String → String → Stdio → M World ℕ
  unfolding reserved_exec reserve_exec_id
  exec id spec io = do
    trace_id ← wrapping (wrap "failed to allocate trace ID for exec") (next_id env)
    free ← on_shim a (reserve_exec_id id)
    reserved_exec id trace_id spec io free

  -- Process: the shim itself for the ID of the task
  unfoldable pub process : String → M World (Option ℕ)
  process id = do
    p ← gets (λ w. w.inits a)
    s ← gets (λ w. w.shims a)
    if str_eq p.id id then pure none else elim (named s.exec_processes id) [
      | some e ↦ pure (some e)
      | none ↦ fail (wrap "exec" (sentinel not_found))
    ]
