-- ===== src/Plugin.antt =====
-- plugin.go: the task manager: its start, and the creation of tasks.
pub mod Creation
pub mod Opening
pub mod Abandoning
use embedshim.Prelude.{false, ℕ, String, Option, none, some, List, [], ◌∷◌, str_eq, if◌then◌else◌}
use embedshim.GoError.{wrap}
use embedshim.Bundle
use embedshim.Bundle.{Bundle, new_bundle}
use embedshim.BundleFiles.{
  apply_init_oci_spec, apply_init_options, apply_init_stdio, apply_init_trace_event_id,
}
use embedshim.ExitSnoop.Load.{ensure_running}
use embedshim.IdAllocator
use embedshim.Monitor.{new_monitor}
use embedshim.Reload.{new_shim, reload_existing_tasks}
use embedshim.Shim.Task
use embedshim.World.{World}
use embedshim.Host.{
  Env, M, Stdio, Options, Any, call, pure, ignore, on_error, wrapping, return_both, ◌>>=◌, ◌>>◌,
  mkdir_all, validate_id, namespace_required, tasks_add,
}

-- the fields of runtime.CreateOpts that the code reads
pub record CreateOpts : Type 0 where
  pub spec : Any
  pub mounts : List String
  pub io : Stdio
  pub runtime_options : Option Any
  pub task_options : Option Any

abbrev pub no_options : Options
no_options = record {
  root = "";
  binary_name = "";
  systemd_cgroup = false;
  io_uid = 0;
  io_gid = 0;
  no_pivot_root = false;
  no_new_keyring = false;
}

abbrev or_default : Option Options → Options
or_default none = no_options
or_default (some o) = o

abbrev either : Option Any → Option Any → Option Any
either (some o) p = some o
either none p = p

module _ (env : Env) where
  decode_options : {S : Type 0} → Option Any → M S Options
  decode_options none = pure no_options
  decode_options (some any) =
      if str_eq any.type_url ""
      then pure no_options
      else (do v ← return_both (env.unmarshal_any any); pure (or_default v))

  -- initOptionsFromCreateOpts
  unfoldable pub init_options : {S : Type 0} → CreateOpts → M S Options
  unfolding decode_options
  init_options opts = decode_options (either opts.runtime_options opts.task_options)

  -- from the shim on
  unfoldable pub create_in : Bundle → CreateOpts → M World ℕ
  create_in b opts = do
    a ← new_shim env b
    wrapping (wrap "failed to create init process") (Task.create env a b opts.mounts)
    pure a

  unfoldable pub create : List String → List String → String → String → CreateOpts → M World ℕ
  unfolding init_options create_in
  create root state ns id opts = do
    wrapping (wrap "invalid task id") (call env (validate_id id))
    call env namespace_required
    event_id ← IdAllocator.next_id env
    init_opts ← init_options opts
    b ← new_bundle env root state ns id (
        apply_init_oci_spec env opts.spec
        ∷ apply_init_options env init_opts
        ∷ apply_init_stdio env opts.io
        ∷ apply_init_trace_event_id env event_id
        ∷ [])
    a ← on_error (λ _. ignore (Bundle.delete env b)) (create_in b opts)
    ignore (call env (tasks_add id a))
    pure a

  -- the deferred function of init closes the database
  unfoldable pub init : List String → M World (Unit {0})
  init root = do
    ensure_running env root
    IdAllocator.new_id_allocator env root "trace_event_id.db"
    on_error (λ _. ignore (IdAllocator.close env)) (new_monitor env root)

  -- New, where the plugin context has a metadata store
  unfoldable pub start : List String → List String → M World (Unit {0})
  unfolding init
  start root state = do
    call env (mkdir_all root)
    call env (mkdir_all state)
    init root
    reload_existing_tasks env state
