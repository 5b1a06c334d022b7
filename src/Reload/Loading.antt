-- ===== src/Reload/Loading.antt =====
-- reload.go: a task that is loaded after a restart is watched, or its end is known.
use embedshim.Prelude.{ℕ, none, false, true, ◌≡◌, refl, some, lookup, ◌⊎◌}
use embedshim.GoError.{wrap, Err}
use embedshim.Bundle.{Bundle}
use embedshim.BundleFiles.{
  read_init_options, read_init_stdio, read_init_trace_event_id, read_init_pid,
}
use embedshim.InitProcess.{InitProcess, new_init, created, running}
use embedshim.InitProcess.Load.{new_init_process, renew_init_process, new_platform}
use embedshim.Monitor.Repoll.{Repolled, IsFresh, repolling_init_process-Repolled}
use embedshim.World.{World, init_exit, eq_self}
use embedshim.Host.{
  dropping, Env, M, Outcome, ok, err, panic, Log, continue, ◌>>◌, rolled_back, wrapping, pure,
}
use embedshim.Host.Ran.{Whatever, Ran, Ran-bind}
use embedshim.Reload.{load_shim, load_shim, place, watch_again, load_shim}

-- Pointer `a` is that of the shim that was loaded. Its process is running and the epoller will call
-- it back, or its waiters have been woken.
abbrev pub Loaded : ℕ → Outcome World ℕ → Type 0
Loaded a (ok b w l) =
    (b ≡ a)
    × ((((w.inits a).init_state ≡ running) × ((fd : ℕ) × (lookup w.poller fd ≡ some (init_exit a))))
        ⊎ ((w.inits a).wait_closed ≡ true))
Loaded a (err e w l) = Unit
Loaded a (panic m) = Unit

abbrev New : InitProcess → Type 0
New p = (p.init_state ≡ created) × (p.wait_closed ≡ false) × (p.exited ≡ none)

module _ {S A : Type 0} where
  anything : (o : Outcome S A) → Ran Whatever (λ _ _. Unit) Whatever o
  anything (ok a s l) = tt
  anything (err e s l) = tt
  anything (panic m) = tt

module _ (env : Env) {S : Type 0} where
  new_init_process-New :
      (self : ℕ) (b : Bundle) (s : S) (l : Log)
      → Ran Whatever (λ p _. New p) Whatever (new_init_process env self b s l)
  unfolding new_init_process new_init
  new_init_process-New self b s l =
      Ran-bind Whatever (λ _ _. Unit) (λ p _. New p) Whatever Whatever _ _
        (anything (read_init_options env b s l))
        (λ opts s l _.
          Ran-bind Whatever (λ _ _. Unit) (λ p _. New p) Whatever Whatever _ _
            (anything (read_init_stdio env b s l))
            (λ stdio s l _.
              Ran-bind Whatever (λ _ _. Unit) (λ p _. New p) Whatever Whatever _ _
                (anything (read_init_trace_event_id env b s l))
                (λ id s l _.
                  Ran-bind Whatever (λ _ _. Unit) (λ p _. New p) Whatever Whatever _ _
                    (anything (new_platform env s l)) (λ platform s l _. (refl, refl, refl))
                    (λ _ x. x))
                (λ _ x. x))
            (λ _ x. x))
        (λ _ x. x)

  renew_init_process-New :
      (self : ℕ) (b : Bundle) (s : S) (l : Log)
      → Ran Whatever (λ p _. New p) Whatever (renew_init_process env self b s l)
  unfolding renew_init_process
  renew_init_process-New self b s l =
      Ran-bind Whatever (λ p _. New p) (λ p _. New p) Whatever Whatever _ _
        (new_init_process-New self b s l)
        (λ init s l h.
          Ran-bind Whatever (λ _ _. Unit) (λ p _. New p) Whatever Whatever _ _
            (anything
              (wrapping (wrap "failed to read container pidfile") (read_init_pid env b) s l))
            (λ pid s l _. h) (λ _ x. x))
        (λ _ x. x)

module _ (env : Env) (a : ℕ) where
  Loaded-Repolled :
      (o : Outcome World (Unit {0})) (undo : Err → M World (Unit {0}))
      → Repolled a o
      → Loaded a (continue (rolled_back o undo) (λ _. pure a))
  Loaded-Repolled (ok x w l) undo h = (refl, h)
  Loaded-Repolled (err e w l) undo h = dropped (undo e w l)
    where
      dropped :
          (o : Outcome World (Unit {0}))
          → Loaded a (continue (dropping {A = Unit {0}} o e) (λ _. pure a))
      dropped (ok x w l) = tt
      dropped (err x w l) = tt
      dropped (panic m) = tt
  Loaded-Repolled (panic m) undo h = tt

  watch_again-Loaded : (w : World) (l : Log) → IsFresh a w → Loaded a (watch_again env a w l)
  unfolding watch_again
  watch_again-Loaded w l h = Loaded-Repolled _ _ (repolling_init_process-Repolled env a w h l)

  placed-Loaded :
      (o : Outcome World InitProcess)
      → Ran Whatever (λ p _. New p) Whatever o
      → Loaded a (continue o (λ init. place a init >> watch_again env a))
  unfolding place
  placed-Loaded (ok p w l) h = watch_again-Loaded _ l (rw (eq_self a) h)
  placed-Loaded (err e w l) h = tt
  placed-Loaded (panic m) h = tt

-- If a shim is loaded from a bundle, then it gets the next pointer, and its init process is running
-- and the epoller holds a descriptor with the callback of this process, or the process is known to be
-- over and its waiters have been woken.
pub load_shim-Loaded :
    (env : Env) (b : Bundle) (w : World) (l : Log) → Loaded w.next_init (load_shim env b w l)
unfolding load_shim
load_shim-Loaded env b w l =
    placed-Loaded env w.next_init _ (renew_init_process-New env w.next_init b w l)
