-- ===== src/ExitSnoop/Load.antt =====
-- pkg/exitsnoop/load.go: the BPF program and its maps, pinned in the BPF file system so that they
-- outlive the plugin, or held by the process only.
use embedshim.Prelude.{ℕ, String, Option, none, some, List, [], ◌∷◌, ◌==◌, if◌then◌else◌}
use embedshim.GoError.{Err, wrap, is, os_not_exist}
use embedshim.Host.{
  Env, M, call, fail, skip, attempt, ignore, on_error, finally, wrapping, ◌>>=◌, ◌>>◌, mkdir_all,
  stat_path, remove_path, statfs, mount_bpffs, load_spec, new_collection, close_collection_maps,
  close_programs, attach_tracepoint, pin, load_pinned_map,
}

abbrev pub prog_name : String
prog_name = "handle_sched_process_exit"

abbrev pub tracing_tasks : String
tracing_tasks = "tracing_tasks"

abbrev pub exited_events : String
exited_events = "exited_events"

-- filepath.Join(bpffsRoot, pinnedDir)
abbrev pub pinned_dir : List String → List String
pinned_dir root = ".exitsnoop.bpf" ∷ root

abbrev pub bpffs_magic : ℕ
bpffs_magic = 0xcafe4a11

module _ (env : Env) {S : Type 0} where
  -- the programs are closed on every return, the maps on a failed one
  unfoldable pub new_store_from_attach : M S (Unit {0})
  new_store_from_attach = do
    call env load_spec
    call env new_collection
    on_error (λ _. ignore (call env close_collection_maps))
        (finally (ignore (call env close_programs)) (do call env attach_tracepoint; skip))

  unfoldable pub ensure_bpffs_mount : List String → M S (Unit {0})
  ensure_bpffs_mount root = do
    call env (mkdir_all root)
    magic ← call env (statfs root)
    if magic == bpffs_magic then skip else (do call env (mount_bpffs root); skip)

  unfoldable pub gone_is_fine : Option Err → M S (Unit {0})
  gone_is_fine none = skip
  gone_is_fine (some e) = if is e os_not_exist then skip else fail e

  unfoldable pub remove_objs : List String → List String → M S (Unit {0})
  unfolding gone_is_fine
  remove_objs root [] = skip
  remove_objs root (name ∷ names) = do
    removed ← attempt (call env (remove_path (name ∷ root)))
    gone_is_fine removed
    remove_objs root names

  unfoldable pub cleanup_leaky_objs : List String → M S (Unit {0})
  unfolding remove_objs
  cleanup_leaky_objs root = remove_objs root (prog_name ∷ tracing_tasks ∷ exited_events ∷ [])

  unfoldable pub pin_all : List String → List String → M S (Unit {0})
  pin_all root [] = skip
  pin_all root (name ∷ names) = do call env (pin (name ∷ root)); pin_all root names

  -- the program is not pinned yet
  unfoldable pub load_and_pin : List String → M S (Unit {0})
  unfolding cleanup_leaky_objs pin_all
  load_and_pin root = do
    cleanup_leaky_objs root
    call env (mkdir_all root)
    call env load_spec
    call env new_collection
    finally (do ignore (call env close_collection_maps); ignore (call env close_programs))
        (do
          call env attach_tracepoint
          pin_all root (tracing_tasks ∷ exited_events ∷ prog_name ∷ []))

  unfoldable pub stat_result : List String → Option Err → M S (Unit {0})
  unfolding load_and_pin
  stat_result root none = skip
  stat_result root (some e) = if is e os_not_exist then load_and_pin root else fail e

  unfoldable pub ensure_running : List String → M S (Unit {0})
  unfolding ensure_bpffs_mount stat_result
  ensure_running bpffs_root = do
    ensure_bpffs_mount (pinned_dir bpffs_root)
    stat ← attempt (call env (stat_path (prog_name ∷ pinned_dir bpffs_root)))
    stat_result (pinned_dir bpffs_root) stat

  -- NewStore of map.go; a first map that is loaded stays open if the second cannot be loaded
  unfoldable pub new_store : List String → M S (Unit {0})
  new_store bpffs_root = do
    wrapping (wrap "faild to load bpf map tracing_tasks")
        (call env (load_pinned_map (tracing_tasks ∷ pinned_dir bpffs_root)))
    wrapping (wrap "faild to load bpf map exited_events")
        (call env (load_pinned_map (exited_events ∷ pinned_dir bpffs_root)))
    skip
