-- ===== src/Plugin/Creation.antt =====
-- plugin.go, shim.go: a task that is created is watched.
use embedshim.BundleFiles.{
  apply_init_oci_spec, apply_init_options, apply_init_stdio, apply_init_trace_event_id,
}
use embedshim.Prelude.{[], ◌∷◌, ℕ, String, List, ◌≡◌, some, lookup, inl, inr}
use embedshim.GoError.{wrap}
use embedshim.Bundle
use embedshim.Bundle.{Bundle, new_bundle}
use embedshim.Host.{
  pure, Env, Outcome, ok, err, panic, Log, Call, Reply-cases, call, ◌>>◌, ignore, on_error,
  wrapping, pure, load_cgroup, validate_id, namespace_required, tasks_add,
}
use embedshim.Host.Ran.{Gives, Gives-bind, Gives-after, Gives-rolled_back, Gives-renamed}
use embedshim.IdAllocator
use embedshim.InitProcess
use embedshim.InitProcess.States
use embedshim.Monitor.{trace_init_process}
use embedshim.Monitor.Trace.{Traced, trace_init_process-Traced}
use embedshim.Plugin.{init_options, CreateOpts, create_in, create}
use embedshim.Reload.{new_shim}
use embedshim.Shim.Task
use embedshim.World.{World, init_exit, on_init}

-- the epoller holds a descriptor with the callback of this process
abbrev pub Watched : ℕ → World → Type 0
Watched a w = (fd : ℕ) × (lookup w.poller fd ≡ some (init_exit a))

abbrev Stays : ℕ → Unit {0} → World → Type 0
Stays a _ w = Watched a w

-- a run that returns the pointer of a process that is watched
abbrev pub IsWatched : Outcome World ℕ → Type 0
IsWatched o = Gives Watched o

module _ (env : Env) where
  Traced-Watched :
      (a pid : ℕ) (w : World) (l : Log) (o : Outcome World (Unit {0}))
      → Traced a pid w l o
      → Gives (Stays a) o
  Traced-Watched a pid w l (ok x v m) h = (h.0, h.1)
  Traced-Watched a pid w l (err e v m) h = tt
  Traced-Watched a pid w l (panic m) h = tt

  create_init-Watched : (a : ℕ) (w : World) (l : Log) → Gives (Stays a) (Task.create_init env a w l)
  unfolding Task.create_init
  create_init-Watched a w l =
      Gives-after (Stays a) (on_init a (InitProcess.create env) w l)
        (λ _. on_error (λ _. ignore (on_init a (States.delete env))) (trace_init_process env a))
        (λ _ w l.
          Gives-rolled_back (Stays a) (trace_init_process env a w l) _
            (Traced-Watched a _ w l _ (trace_init_process-Traced env a w l)))

  called-Watched :
      (a : ℕ) (c : Call) (w : World) (l : Log)
      → Watched a w
      → Gives (Stays a) (ignore (call env c) w l)
  called-Watched a c w l h = elim (Reply-cases (env.reply l c)) [
    | inl (e, r) ↦ rw r h
    | inr (n, m, r) ↦ rw r h
  ]

  task-Watched :
      (a : ℕ) (b : Bundle) (mounts : List String) (w : World) (l : Log)
      → Gives (Stays a) (Task.create env a b mounts w l)
  unfolding Task.create
  task-Watched a b mounts w l =
      Gives-after (Stays a) (Task.make_rootfs env a b mounts w l) _ (λ _ w l.
        Gives-rolled_back (Stays a) _ _ (
          Gives-after (Stays a) (Task.mount_all env a mounts w l) _ (λ _ w l.
            Gives-bind (Stays a) (Stays a) (Task.create_init env a w l) _
              (create_init-Watched a w l) (λ _ w l h. called-Watched a load_cgroup w l h))))

  create_in-Watched :
      (b : Bundle) (opts : CreateOpts) (w : World) (l : Log) → IsWatched (create_in env b opts w l)
  unfolding create_in
  create_in-Watched b opts w l = Gives-after Watched (new_shim env b w l) _ (λ a w l.
      Gives-bind (Stays a) Watched _ _
        (Gives-renamed (Stays a) (wrap "failed to create init process") _
          (task-Watched a b opts.mounts w l))
        (λ _ w l h. h))

  -- If Create returns a task, then the epoller holds a descriptor with the callback of its init process.
  pub create-Watched :
      (root state : List String) (ns id : String) (opts : CreateOpts) (w : World) (l : Log)
      → Gives Watched (create env root state ns id opts w l)
  unfolding create
  create-Watched root state ns id opts w l =
      Gives-after Watched (wrapping (wrap "invalid task id") (call env (validate_id id)) w l) _
        (λ _ w l. Gives-after Watched (call env namespace_required w l) _ (λ _ w l.
          Gives-after Watched (IdAllocator.next_id env w l) _ (λ event w l.
            Gives-after Watched (init_options env opts w l) _ (λ options w l.
              Gives-after Watched
                (new_bundle env root state ns id
                  (apply_init_oci_spec env opts.spec
                    ∷ apply_init_options env options
                    ∷ apply_init_stdio env opts.io
                    ∷ apply_init_trace_event_id env event
                    ∷ [])
                  w l)
                _
                (λ b w l.
                  Gives-bind Watched Watched _ _
                    (Gives-rolled_back Watched (create_in env b opts w l)
                      (λ _. ignore (Bundle.delete env b)) (create_in-Watched b opts w l))
                    (λ a w l h. added a w l h))))))
    where
      added :
          (a : ℕ) (w : World) (l : Log)
          → Watched a w
          → Gives Watched ((ignore (call env (tasks_add id a)) >> pure a) w l)
      added a w l h =
          Gives-bind (Stays a) Watched _ _ (called-Watched a (tasks_add id a) w l h) (λ _ w l h. h)
