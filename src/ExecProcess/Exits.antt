-- ===== src/ExecProcess/Exits.antt =====
-- The end of an exec process: what its waiters read.
use embedshim.Prelude.{
  ℕ, true, false, Option, none, some, ◌≡◌, ◌==◌, refl, arith, ℤ, if◌then◌else◌, inl, inr,
}
use embedshim.Host.{
  Reply-cases, Env, M, Outcome, ok, err, panic, Log, Reply, fails, gives, lookup_event, continue,
  forgotten, Call,
}
use embedshim.Host.Quiet.{Unchanged}
use embedshim.ExitSnoop.Frame.{delete_exited_event-Quiet}
use embedshim.Platform
use embedshim.Platform.{Platform, shutdown_console}
use embedshim.ExecProcess.Types.{ExecState, created, running, stopped, deleted}
use embedshim.ExecProcess.Methods
use embedshim.ExecProcess.States
use embedshim.ExitSnoop
use embedshim.ExitSnoop.Types.{exec_store}
use embedshim.World.{World, eq_self, set_exec, on_exec}

-- the exit of the exec process behind `a` is recorded and its waiters are woken; the init processes
-- stay as they were
pub record Ended (a : ℕ) (status : ℤ) (w v : World) : Type 0 where
  pub woken : (v.execs a).wait_closed ≡ true
  pub status_set : (v.execs a).status ≡ status
  pub dated : (t : ℕ) × ((v.execs a).exited ≡ some t)
  pub same_inits : v.inits ≡ w.inits

abbrev pub Ends : ℕ → ℤ → World → Outcome World (Unit {0}) → Type 0
Ends a status w (ok _ v l) = Ended a status w v × ((v.execs a).exec_state ≡ stopped)
Ends a status w (err _ v l) = ⊥
Ends a status w (panic m) = ⊥

abbrev pub IsLive : ExecState → Type 0
IsLive created = Unit
IsLive running = Unit
IsLive _ = ⊥

abbrev pub Returns : World → Outcome World (Unit {0}) → Type 0
Returns v (ok _ w l) = w ≡ v
Returns v (err _ w l) = ⊥
Returns v (panic m) = ⊥

module _ (env : Env) (a : ℕ) where
  pub shutdown_parent-Returns :
      (p : Option Platform) (console : Option ℕ) (w : World) (l : Log)
      → Returns w (Methods.shutdown_parent env p console w l)
  unfolding Methods.shutdown_parent Platform.shutdown_console
  shutdown_parent-Returns none console w l = refl
  shutdown_parent-Returns (some p) console w l = ground arith

  -- the process with its exit recorded
  abbrev pub dated_exec : ℕ → World → Log → World
  dated_exec status w l =
      set_exec a w
        (record (w.execs a) { status = env.exit_status status; exited = some (env.clock l) })

  closed-Ends :
      (status : ℕ) (w : World) (l : Log) (m : M World (Unit {0})) (o : Outcome World (Unit {0}))
      → (w.execs a).wait_closed ≡ false
      → ((v : World) (l : Log) → m v l ≡ States.become a stopped v l)
      → Returns (dated_exec status w l) o
      → Ends a
          (env.exit_status status)
          w
          (continue (continue o (λ _. on_exec a Methods.close_wait_block)) (λ _. m))
  unfolding Methods.close_wait_block
  closed-Ends status w l m (ok _ v l') waits k r = rw r (
      rw (eq_self a) (
        rw waits (
          rw (k _ l') (
            rw (eq_self a) (
              record {
                woken = rw (eq_self a) refl;
                status_set = rw (eq_self a) refl;
                dated = rw (eq_self a) (env.clock l, refl);
                same_inits = refl;
              },
              refl,
            )))))
  closed-Ends status w l m (err _ v l') waits k r = elim r [ ]
  closed-Ends status w l m (panic e) waits k r = elim r [ ]

  abbrev pub shut : ℕ → World → Log → Outcome World (Unit {0})
  shut status w l =
      Methods.shutdown_parent env (w.inits (w.execs a).parent).platform (w.execs a).console
        (dated_exec status w l) l

  pub set_exited_in-Ends :
      (s : ExecState) (status : ℕ) (w : World) (l : Log)
      → IsLive s
      → (w.execs a).wait_closed ≡ false
      → Ends a (env.exit_status status) w (States.set_exited_in env a s status w l)
  unfolding States.set_exited_in Methods.set_exited States.created_transition
      States.running_transition
  set_exited_in-Ends created status w l h waits = rw (eq_self a) (
      closed-Ends status w l (States.must_become (States.become a stopped)) (shut status w l) waits
        (λ v l'. refl)
        (shutdown_parent-Returns (w.inits (w.execs a).parent).platform (w.execs a).console
          (dated_exec status w l) l))
  set_exited_in-Ends running status w l h waits = rw (eq_self a) (
      closed-Ends status w l (States.must_become (States.become a stopped)) (shut status w l) waits
        (λ v l'. refl)
        (shutdown_parent-Returns (w.inits (w.execs a).parent).platform (w.execs a).console
          (dated_exec status w l) l))
  set_exited_in-Ends stopped status w l h waits = elim h [ ]
  set_exited_in-Ends deleted status w l h waits = elim h [ ]

  forgotten-Ends :
      (status : ℕ) (w : World)
      → IsLive (w.execs a).exec_state
      → (w.execs a).wait_closed ≡ false
      → (o : Outcome World (Unit {0})) → Unchanged w o
      → Ends a
          (env.exit_status status)
          w
          (continue (forgotten o) (λ _. States.set_exited env a status))
  unfolding States.set_exited
  forgotten-Ends status w h waits (ok _ v l) u =
      rw u (set_exited_in-Ends (w.execs a).exec_state status w l h waits)
  forgotten-Ends status w h waits (err _ v l) u =
      rw u (set_exited_in-Ends (w.execs a).exec_state status w l h waits)
  forgotten-Ends status w h waits (panic m) u = elim u [ ]

  -- the wait status that the callback reports, by the reply of the look-up of the exit event
  abbrev pub reported : ℕ → Reply → ℕ
  reported pid (fails e) = 255
  reported pid (gives p code) = if p == pid then code else 255

  -- When the pidfd of an exec process that is created or running, and whose waiters are blocked,
  -- becomes readable, the callback succeeds: it wakes the waiters and makes the process stopped, with
  -- the exit status of the recorded event if that can be read and has the pid of the process, and
  -- with that of the wait status 255 otherwise. No init process changes.
  pub exit_callback-Ends :
      (w : World) (l : Log)
      → IsLive (w.execs a).exec_state
      → (w.execs a).wait_closed ≡ false
      → Ends a
          (env.exit_status (
            reported
              (w.execs a).pid
              (env.reply l (lookup_event exec_store (w.execs a).trace_event_id))))
          w
          (States.exit_callback env a w l)
  unfolding States.exit_callback ExitSnoop.get_exited_event ExitSnoop.delete_exited_event
      States.set_exited
  exit_callback-Ends w l h waits = elim (Reply-cases (env.reply l event)) [
    | inl (x, e) ↦
        rw e (forgotten-Ends 255 w h waits _ ((delete_exited_event-Quiet env exec_store id).at w _))
    | inr (p, n, e) ↦ rw e (
        forgotten-Ends (if p == (w.execs a).pid then n else 255) w h waits _
          ((delete_exited_event-Quiet env exec_store id).at w _))
  ]
    where
      id : ℕ
      id = (w.execs a).trace_event_id

      event : Call
      event = lookup_event exec_store id
