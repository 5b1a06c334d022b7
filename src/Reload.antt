-- ===== src/Reload.antt =====
-- reload.go, plugin.go, shim.go: the shims of tasks, at their creation and after a restart. A new
-- init process gets a pointer of its own, and its shim stands behind the same pointer.
pub mod Loading
pub mod Survival
pub mod Rounds
pub mod Unlisted
pub mod Hidden
use embedshim.Prelude.{
  ℕ, ◌+◌, String, Option, none, some, List, [], ◌∷◌, ◌⊎◌, inl, inr, codes, has_prefix, not, ◌||◌,
  if◌then◌else◌,
}
use embedshim.GoError.{Err}
use embedshim.Bundle
use embedshim.Bundle.{Bundle, load_bundle, check_valid}
use embedshim.ExitSnoop
use embedshim.ExitSnoop.Types.{init_store}
use embedshim.InitProcess.{InitProcess}
use embedshim.InitProcess.States
use embedshim.InitProcess.Load.{renew_init_process, new_init_process}
use embedshim.Monitor.{repolling_init_process}
use embedshim.Shim.Types.{fresh_shim}
use embedshim.Shim.Task
use embedshim.World.{World, on_init, update}
use embedshim.Host.{
  Env, M, FileInfo, ok, call, pure, skip, gets, modify, attempt, ignore, tried, on_error, ◌>>=◌,
  ◌>>◌, read_dir, get_container, tasks_add, namespace_required,
}

-- the literals of newShim and renewShim around a new init process
unfoldable pub place : ℕ → InitProcess → M World (Unit {0})
place a init = modify (λ w. record w {
  inits = update w.inits a init;
  shims = update w.shims a fresh_shim;
  next_init = a + 1;
})

module _ (env : Env) where
  -- newShim
  unfoldable pub new_shim : Bundle → M World ℕ
  unfolding place
  new_shim b = do a ← gets (λ w. w.next_init); init ← new_init_process env a b; place a init; pure a

  -- cleanInitProcessTraceEvent
  unfoldable pub clean_init_process_trace_event : ℕ → M World (Unit {0})
  clean_init_process_trace_event a = do
    p ← gets (λ w. w.inits a)
    ExitSnoop.delete_exited_event env init_store p.trace_event_id

  -- from the renewal of the init process on
  unfoldable pub watch_again : ℕ → M World ℕ
  watch_again a = do
    on_error
        (λ _. do ignore (on_init a (States.delete env)); ignore (clean_init_process_trace_event a))
        (repolling_init_process env a)
    pure a

  unfoldable pub load_shim : Bundle → M World ℕ
  unfolding place watch_again
  load_shim b = do
    a ← gets (λ w. w.next_init)
    init ← renew_init_process env a b
    place a init
    watch_again a

  -- the shim is loaded: it joins the tasks if its container is known
  unfoldable pub adopt : Bundle → ℕ → Option Err → M World (Unit {0})
  adopt b a none = ignore (call env (tasks_add b.id a))
  adopt b a (some e) = ignore (Task.delete env a b)

  unfoldable pub adopt_loaded : Bundle → Err ⊎ ℕ → M World (Unit {0})
  unfolding adopt
  adopt_loaded b (inl e) = ignore (Bundle.delete env b)
  adopt_loaded b (inr a) = do known ← attempt (call env (get_container b.id)); adopt b a known

  unfoldable pub load_valid : Bundle → Option Err → M World (Unit {0})
  unfolding adopt_loaded load_shim
  load_valid b (some e) = ignore (Bundle.delete env b)
  load_valid b none = do shim ← tried (load_shim b); adopt_loaded b shim

  -- one round of the loop of loadTasks
  unfoldable pub load_task : List String → String → FileInfo → M World (Unit {0})
  unfolding load_valid
  load_task state ns info =
      if not info.is_dir || has_prefix (codes info.name) (codes ".") then skip else (do
        let b = load_bundle state ns info.name
        valid ← attempt (check_valid env b)
        load_valid b valid)

  unfoldable pub load_each : List String → String → List FileInfo → M World (Unit {0})
  unfolding load_task
  load_each state ns [] = skip
  load_each state ns (info ∷ infos) = do load_task state ns info; load_each state ns infos

  -- ioutil.ReadDir
  unfoldable pub read_entries : List String → M World (List FileInfo)
  read_entries dir = do
    infos ← λ w l. ok (env.dir_entries l dir) w l
    call env (read_dir dir)
    pure infos

  unfoldable pub load_tasks : List String → String → M World (Unit {0})
  unfolding read_entries load_each
  load_tasks state ns = do
    call env namespace_required
    infos ← read_entries (ns ∷ state)
    load_each state ns infos

  unfoldable pub load_namespaces : List String → List FileInfo → M World (Unit {0})
  unfolding load_tasks
  load_namespaces state [] = skip
  load_namespaces state (info ∷ infos) = do
    if not info.is_dir || has_prefix (codes info.name) (codes ".")
        then skip
        else ignore (load_tasks state info.name)
    load_namespaces state infos

  unfoldable pub reload_existing_tasks : List String → M World (Unit {0})
  unfolding read_entries load_namespaces
  reload_existing_tasks state = do infos ← read_entries state; load_namespaces state infos
