-- ===== src/Monitor/Repoll.antt =====
-- repollingInitProcess: after a restart every reloaded process is watched again or reported.
use embedshim.Prelude.{
  ℕ, ◌≡◌, refl, true, false, none, some, lookup, lookup-insert, arith, ◌==◌, inl, inr, ◌⊎◌, ℤ, ◌∷◌,
  Bool-cases,
}
use embedshim.GoError.{Err, is, key_not_exist, esrch}
use embedshim.Host.{
  Env, Outcome, ok, err, panic, Log, continue, pidfd_open, fail, rolled_back, close_fd, call,
  ignore, ◌>>◌,
}
use embedshim.Host.Quiet.{Quiet-call, Quiet-tried-cases}
use embedshim.ExitSnoop.Frame.{get_exited_event-Quiet, get_tracing_task-Quiet}
use embedshim.InitProcess.Waiters.{IsLive}
use embedshim.ExitSnoop
use embedshim.ExitSnoop.Types.{ExitStatus, TaskInfo, init_store}
use embedshim.PidFd
use embedshim.InitProcess.{InitState, created, running}
use embedshim.InitProcess.Lifecycle.{IsValid}
use embedshim.World.{World, init_exit}
use embedshim.Monitor.{
  report_exit, resume_running, add_callback, fast_path, slow_path, with_pidfd, with_task,
  unexpected_exit_code, repolling_init_process, set_exited_status,
}
use embedshim.Monitor.Reports.{Says, exit-Says}

-- a success means that the epoller watches a running process, or that its waiters have been woken
abbrev pub Repolled : ℕ → Outcome World (Unit {0}) → Type 0
Repolled a (ok _ w l) =
    (((w.inits a).init_state ≡ running) × ((fd : ℕ) × (lookup w.poller fd ≡ some (init_exit a))))
    ⊎ ((w.inits a).wait_closed ≡ true)
Repolled a (err _ w l) = Unit
Repolled a (panic m) = ⊥

abbrev Watched : ℕ → ℕ → Outcome World (Unit {0}) → Type 0
Watched a fd (ok _ w l) =
    ((w.inits a).init_state ≡ running) × (lookup w.poller fd ≡ some (init_exit a))
Watched a fd (err _ w l) = Unit
Watched a fd (panic m) = ⊥

Repolled-Says : (a : ℕ) (s : ℤ) (o : Outcome World (Unit {0})) → Says a s o → Repolled a o
Repolled-Says a s (ok _ w l) h = inr h.0
Repolled-Says a s (err _ w l) h = tt
Repolled-Says a s (panic m) h = h

Repolled-fail :
    (a : ℕ) (e : Err) (s : ℤ) (o : Outcome World (Unit {0}))
    → Says a s o
    → Repolled a (continue o (λ _. fail {A = Unit {0}} e))
Repolled-fail a e s (ok _ w l) h = tt
Repolled-fail a e s (err _ w l) h = tt
Repolled-fail a e s (panic m) h = h

Repolled-close :
    (env : Env) (a fd : ℕ) (o : Outcome World (Unit {0}))
    → Repolled a o
    → Repolled a (rolled_back o (λ _. ignore (call env (close_fd fd))))
Repolled-close env a fd (ok _ w l) h = h
Repolled-close env a fd (err _ w l) h = ground arith
Repolled-close env a fd (panic m) h = h

-- what newInitProcess and the pid file give
abbrev pub IsFresh : ℕ → World → Type 0
IsFresh a w =
    ((w.inits a).init_state ≡ created)
    × ((w.inits a).wait_closed ≡ false)
    × ((w.inits a).exited ≡ none)

module _ (env : Env) (a : ℕ) (w : World) (fresh : IsFresh a w) where
  valid : IsValid (w.inits a)
  valid = rw fresh.0 (fresh.1, fresh.2)

  live : IsLive (w.inits a).init_state
  live = rw fresh.0 tt

  report-Repolled : (r : Err ⊎ ExitStatus) (l : Log) → Repolled a (report_exit env a (λ e. e) r w l)
  unfolding report_exit
  report-Repolled (inl e) l =
      Repolled-fail a e _ _ (exit-Says env a unexpected_exit_code w l valid live)
  report-Repolled (inr event) l =
      Repolled-Says a _ _ (exit-Says env a event.exit_code w l valid live)

  status-Repolled : (id : ℕ) (l : Log) → Repolled a (set_exited_status env a id w l)
  unfolding set_exited_status
  status-Repolled id l =
      Quiet-tried-cases (Repolled a) (report_exit env a (λ e. e))
        (ExitSnoop.get_exited_event env init_store id) w l
        (get_exited_event-Quiet env init_store id) report-Repolled

  after_close :
      (fd id : ℕ) (l : Log)
      → Repolled a ((ignore (call env (close_fd fd)) >> set_exited_status env a id) w l)
  after_close fd id l = ground (
    arith,
    status-Repolled id (record { call = close_fd fd; reply = env.reply l (close_fd fd) } ∷ l),
  )

  Repolled-Watched : (fd : ℕ) (o : Outcome World (Unit {0})) → Watched a fd o → Repolled a o
  Repolled-Watched fd (ok _ v l) h = inl (h.0, (fd, h.1))
  Repolled-Watched fd (err _ v l) h = h
  Repolled-Watched fd (panic m) h = h

  add-Watched :
      (fd : ℕ) (v : World) (l : Log)
      → (v.inits a).init_state ≡ running
      → Watched a fd (add_callback env fd (init_exit a) v l)
  unfolding PidFd.add
  add-Watched fd v l e = ground (arith, lookup-insert v.poller fd fd (init_exit a))

  added :
      (fd : ℕ) (v : World) (l : Log)
      → (v.inits a).init_state ≡ running
      → Repolled a (add_callback env fd (init_exit a) v l)
  added fd v l e =
      Repolled-Watched fd (add_callback env fd (init_exit a) v l) (add-Watched fd v l e)

  watch :
      (fd : ℕ) (s : InitState) (l : Log)
      → (w.inits a).init_state ≡ s
      → s ≡ created
      → Repolled a ((resume_running env a s >> add_callback env fd (init_exit a)) w l)
  unfolding resume_running
  watch fd created l e c = added fd _ l (ground arith)
  watch fd _ l e c = cc

  with_task-Repolled :
      (fd : ℕ) (info : TaskInfo) (l : Log) → Repolled a (with_task env a fd (w.inits a) info w l)
  unfolding with_task
  with_task-Repolled fd info l = elim (Bool-cases (info.trace_id == (w.inits a).trace_event_id)) [
    | inl same ↦
        rw same (Repolled-close env a fd _ (watch fd (w.inits a).init_state l refl fresh.0))
    | inr other ↦ rw other (after_close fd _ l)
  ]

  with_pidfd-Repolled :
      (fd : ℕ) (r : Err ⊎ TaskInfo) (l : Log) → Repolled a (with_pidfd env a fd (w.inits a) r w l)
  unfolding with_pidfd
  with_pidfd-Repolled fd (inr info) l = with_task-Repolled fd info l
  with_pidfd-Repolled fd (inl e) l = elim (Bool-cases (is e key_not_exist)) [
    | inl h ↦ rw h (Repolled-close env a fd _ (status-Repolled _ l))
    | inr h ↦ rw h (Repolled-close env a fd (err e w l) tt)
  ]

  slow_path-Repolled : (r : Err ⊎ ℕ) (l : Log) → Repolled a (slow_path env a (w.inits a) r w l)
  unfolding slow_path
  slow_path-Repolled (inl e) l = elim (Bool-cases (is e esrch)) [
    | inl h ↦ rw h (status-Repolled _ l)
    | inr h ↦ rw h tt
  ]
  slow_path-Repolled (inr fd) l =
      Quiet-tried-cases (Repolled a) (with_pidfd env a fd (w.inits a))
        (ExitSnoop.get_tracing_task env init_store (w.inits a).pid) w l
        (get_tracing_task-Quiet env init_store (w.inits a).pid) (with_pidfd-Repolled fd)

  fast_path-Repolled :
      (r : Err ⊎ ExitStatus) (l : Log) → Repolled a (fast_path env a (w.inits a) r w l)
  unfolding fast_path
  fast_path-Repolled (inr event) l =
      Repolled-Says a _ _ (exit-Says env a event.exit_code w l valid live)
  fast_path-Repolled (inl e) l = elim (Bool-cases (is e key_not_exist)) [
    | inl h ↦ rw h (
        Quiet-tried-cases (Repolled a) (slow_path env a (w.inits a))
          (call env (pidfd_open (w.inits a).pid)) w l (Quiet-call env (pidfd_open (w.inits a).pid))
          slow_path-Repolled)
    | inr h ↦ rw h tt
  ]

  -- After a restart, the repolling of a process in the state in which it is reloaded never panics, and
  -- if it succeeds, the process is running and the epoller holds a descriptor with its callback, or its
  -- waiters have been woken.
  pub repolling_init_process-Repolled : (l : Log) → Repolled a (repolling_init_process env a w l)
  unfolding repolling_init_process
  repolling_init_process-Repolled l =
      Quiet-tried-cases (Repolled a) (fast_path env a (w.inits a))
        (ExitSnoop.get_exited_event env init_store (w.inits a).trace_event_id) w l
        (get_exited_event-Quiet env init_store (w.inits a).trace_event_id) fast_path-Repolled
