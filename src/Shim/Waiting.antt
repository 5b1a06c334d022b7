-- ===== src/Shim/Waiting.antt =====
-- shim.go: what a call of Wait returns once the exit of the task has been reported.
use embedshim.Prelude.{ℕ, some, ◌≡◌, refl, to_u32, ℤ}
use embedshim.Host.{Env, Outcome, ok, err, panic, Log, lookup_event}
use embedshim.ExitSnoop.Types.{init_store}
use embedshim.InitProcess.Lifecycle.{IsValid}
use embedshim.InitProcess.Waiters.{IsLive}
use embedshim.World.{World}
use embedshim.Monitor.{init_callback}
use embedshim.Monitor.Reports.{Says, Ended, reported, init_callback-Says}
use embedshim.Shim.Task
use embedshim.Shim.Types.{TaskExit}

-- Wait on the task behind `a` returns at once, with this status and the pid of the process
abbrev pub Returns : Env → ℕ → ℤ → World → Type 0
Returns env a status w =
    (l : Log)
    → (t : TaskExit) × (Task.wait env a w l ≡ ok (some t) w l)
      × (t.status ≡ to_u32 status)
      × (t.pid ≡ (w.inits a).pid)

-- the run did not panic, and Wait returns in the state that it left
abbrev pub Waited : Env → ℕ → ℤ → Outcome World (Unit {0}) → Type 0
Waited env a status (ok _ w l) = Returns env a status w
Waited env a status (err _ w l) = Returns env a status w
Waited env a status (panic m) = ⊥

module _ (env : Env) (a : ℕ) where
  Ended-Returns : (status : ℤ) (w : World) → Ended a status w → Returns env a status w
  unfolding Task.wait
  Ended-Returns status w h l = (
    record {
      pid = (w.inits a).pid;
      status = to_u32 (w.inits a).status;
      timestamp = (w.inits a).exited;
    },
    rw h.0 refl,
    rw h.1 refl,
    refl,
  )

  Says-Waited :
      (status : ℤ) (o : Outcome World (Unit {0})) → Says a status o → Waited env a status o
  Says-Waited status (ok _ w l) h = Ended-Returns status w h
  Says-Waited status (err _ w l) h = Ended-Returns status w h
  Says-Waited status (panic m) h = h

  -- Once the callback of the pidfd has run for a valid init process that was created, running or
  -- paused, Wait on its task returns without blocking, with the pid of the process and, as a uint32,
  -- the exit status of the recorded event, or that of the unexpected exit code where no event can be
  -- read.
  pub init_callback-Waited :
      (w : World) (l : Log)
      → IsValid (w.inits a)
      → IsLive (w.inits a).init_state
      → Waited env a
          (env.exit_status
            (reported (env.reply l (lookup_event init_store (w.inits a).trace_event_id))))
          (init_callback env a w l)
  init_callback-Waited w l v h =
      Says-Waited _ (init_callback env a w l) (init_callback-Says env a w l v h)
