-- ===== src/Tests/Restart.antt =====
-- Example runs of the start of the plugin, of the creation of a task and of its reload.
use embedshim.World.{World}
use embedshim.Reload.Hidden.{Spared, delete-Spares}
use embedshim.Prelude.{false, ℕ, true, Option, none, some, List, [], ◌∷◌, ◌≡◌, refl, arith, inr}
use embedshim.GoError.{sentinel, os_not_exist, not_found}
use embedshim.Host.{FileInfo, fd, Env, Call, Log, Reply, fails, gives, Outcome, ok, stat_path}
use embedshim.Host.Ran.{Whatever, Never, Ran, Gives}
use embedshim.Bundle
use embedshim.Bundle.{Bundle}
use embedshim.BundleFiles.{put_uint64, read_init_trace_event_id, apply_init_trace_event_id}
use embedshim.BundleFiles.TraceId.{
  ReadsBack, Recovers, written, read_init_trace_event_id-apply_init_trace_event_id,
}
use embedshim.ExitSnoop.Load.{ensure_running, pinned_dir}
use embedshim.ExitSnoop.Pins.{Sound}
use embedshim.ExitSnoop.Recovery.{ensure_running-Sound}
use embedshim.Plugin.{no_options, CreateOpts, create}
use embedshim.Plugin.Creation.{Watched, create-Watched}
use embedshim.Reload.{
  load_each, load_task, load_namespaces, load_shim, adopt, reload_existing_tasks,
}
use embedshim.Reload.Loading.{Loaded, load_shim-Loaded}
use embedshim.Reload.Survival.{Unread, namespace_round}
use embedshim.Reload.Rounds.{GoesOn, reload_existing_tasks-GoesOn}
use embedshim.Reload.Unlisted.{Idle, adopt-unlisted}
use embedshim.Tests.{env_with, kind_env, stdio, world_of, live_task, new_task}

abbrev bundle : Bundle
bundle = record { id = "web"; path = "web" ∷ "moby" ∷ "state" ∷ []; ns = "moby" }

abbrev or_empty : Option (List ℕ) → List ℕ
or_empty none = []
or_empty (some bytes) = bytes

-- a file system that gives back what was written
abbrev disk_env : Env
disk_env = record kind_env { file_bytes = λ l p. or_empty (written p l) }

disk_env-ReadsBack : ReadsBack disk_env
disk_env-ReadsBack = record { reads_back = λ l path bytes n m e r. rw e refl }

abbrev stored_log : Outcome (Unit {0}) (Unit {0}) → Log
stored_log (ok x s l) = l
stored_log _ = []

abbrev id_log : Log
id_log = stored_log (apply_init_trace_event_id disk_env 77 bundle tt [])

id_stored : apply_init_trace_event_id disk_env 77 bundle tt [] ≡ ok tt tt id_log
unfolding apply_init_trace_event_id
id_stored = refl

read_init_trace_event_id-apply_init_trace_event_id_example :
    Recovers 77 (read_init_trace_event_id disk_env bundle tt id_log)
read_init_trace_event_id-apply_init_trace_event_id_example =
    read_init_trace_event_id-apply_init_trace_event_id disk_env 77 bundle tt tt tt [] id_log id_log
      disk_env-ReadsBack (omega arith) id_stored refl

-- nothing is pinned yet
abbrev unpinned : Log → Call → Reply
unpinned l (stat_path p) = fails (sentinel os_not_exist)
unpinned l c = gives 7 768

ensure_running-Sound_example :
    Ran Never
      (λ _. Sound (pinned_dir ("bpf" ∷ [])))
      (Sound (pinned_dir ("bpf" ∷ [])))
      (ensure_running (env_with unpinned) ("bpf" ∷ []) tt [])
ensure_running-Sound_example = ensure_running-Sound (env_with unpinned) ("bpf" ∷ []) tt [] tt

-- The files of a bundle are written and read without an error, and runc init waits for its start.
abbrev plugin_env : Env
plugin_env = record kind_env {
  marshal_options = λ o. inr [];
  unmarshal_options = λ b. inr no_options;
  marshal_stdio = λ s. inr [];
  unmarshal_stdio = λ b. inr stdio;
  file_bytes = λ l p. put_uint64 77;
  proc_fds = λ l p. fd 3 (inr "/run/containerd/runc/moby/web/exec.fifo") ∷ [];
  dir_entries = λ l p. record { name = "moby"; is_dir = true } ∷ [];
}

load_shim-Loaded_example : Loaded 2 (load_shim plugin_env bundle (world_of new_task) [])
load_shim-Loaded_example = load_shim-Loaded plugin_env bundle (world_of new_task) []

abbrev opts : CreateOpts
opts = record {
  spec = record { type_url = ""; value = [] };
  mounts = "overlay" ∷ [];
  io = stdio;
  runtime_options = none;
  task_options = none;
}

create-Watched_example :
    Gives Watched
      (create plugin_env ("root" ∷ []) ("state" ∷ []) "moby" "web" opts (world_of new_task) [])
create-Watched_example =
    create-Watched plugin_env ("root" ∷ []) ("state" ∷ []) "moby" "web" opts (world_of new_task) []

-- two folders of tasks, and a file, which is passed over
abbrev task_folder : FileInfo
task_folder = record { name = "web"; is_dir = true }

abbrev old_folder : FileInfo
old_folder = record { name = "old"; is_dir = true }

abbrev stray_file : FileInfo
stray_file = record { name = "log"; is_dir = false }

abbrev after_old : List FileInfo → Outcome World (Unit {0})
after_old infos = load_each plugin_env ("state" ∷ []) "moby" infos (world_of new_task) []

reload_existing_tasks-GoesOn_example :
    GoesOn
      (load_each plugin_env ("state" ∷ []) "moby")
      (load_task plugin_env ("state" ∷ []) "moby")
      (old_folder ∷ [])
      task_folder
      (stray_file ∷ [])
      (world_of new_task)
      []
      (after_old (old_folder ∷ []))
    × GoesOn
        (load_namespaces plugin_env ("state" ∷ []))
        (namespace_round plugin_env ("state" ∷ []))
        (old_folder ∷ [])
        task_folder
        (stray_file ∷ [])
        (world_of new_task)
        []
        (load_namespaces plugin_env ("state" ∷ []) (old_folder ∷ []) (world_of new_task) [])
    × Ran Whatever
        (λ _ _. Unit)
        (Unread ("state" ∷ []) [])
        (reload_existing_tasks plugin_env ("state" ∷ []) (world_of new_task) [])
reload_existing_tasks-GoesOn_example =
    reload_existing_tasks-GoesOn plugin_env ("state" ∷ []) "moby" (old_folder ∷ []) task_folder
      (stray_file ∷ []) (world_of new_task) []

adopt-unlisted_example :
    Idle
      (world_of live_task)
      []
      (adopt kind_env bundle 1 (some (sentinel not_found)) (world_of live_task) [])
adopt-unlisted_example =
    adopt-unlisted kind_env bundle 1 (sentinel not_found) (world_of live_task) [] refl

delete-Spares_example :
    Ran Never (λ _. Spared plugin_env) (Spared plugin_env) (Bundle.delete plugin_env bundle tt [])
delete-Spares_example = delete-Spares plugin_env bundle tt [] tt
