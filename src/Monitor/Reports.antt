-- ===== src/Monitor/Reports.antt =====
-- The exit of an init process as the monitor reports it: by the epoller's callback, and on a reload.
use embedshim.Prelude.{ℕ, ◌%◌, ◌/◌, ◌≡◌, ◌≢◌, refl, subst, true, arith, ℤ, pos, negsuc}
use embedshim.GoError.{Err, wrap}
use embedshim.Host.{
  Env, Outcome, ok, err, panic, Log, Reply, fails, gives, continue, lookup_event, renamed, answer,
  tried_outcome, pure, put_back, fail, Call,
}
use embedshim.ExitSnoop
use embedshim.ExitSnoop.Types.{init_store}
use embedshim.InitProcess.{InitProcess}
use embedshim.InitProcess.States
use embedshim.InitProcess.Lifecycle.{IsValid}
use embedshim.InitProcess.Waiters.{IsLive, Reports, exit-Reports}
use embedshim.World.{World, on_init, set_init}
use embedshim.Monitor.{report_exit, init_callback, unexpected_exit_code}

-- the process behind `a` has woken its waiters with `status`
abbrev pub Ended : ℕ → ℤ → World → Type 0
Ended a status w = ((w.inits a).wait_closed ≡ true) × ((w.inits a).status ≡ status)

abbrev pub Says : ℕ → ℤ → Outcome World (Unit {0}) → Type 0
Says a status (ok _ w l) = Ended a status w
Says a status (err _ w l) = Ended a status w
Says a status (panic m) = ⊥

update_self : (w : World) (a : ℕ) (p : InitProcess) → (set_init a w p).inits a ≡ p
update_self w a p = ground arith

module _ (env : Env) where
  pub exit-Says :
      (a status : ℕ) (w : World) (l : Log)
      → IsValid (w.inits a)
      → IsLive (w.inits a).init_state
      → Says a (env.exit_status status) (on_init a (States.set_exited env status) w l)
  unfolding States.set_exited
  exit-Says a status w l v h =
      lift (States.set_exited_in env (w.inits a).init_state status (w.inits a) l)
        (exit-Reports env (w.inits a).init_state status (w.inits a) l refl h v)
    where
      lift :
          (o : Outcome InitProcess (Unit {0}))
          → Reports (env.exit_status status) o
          → Says a (env.exit_status status) (put_back (set_init a w) o)
      lift (ok _ p m) r = rw (update_self w a p) (r.0, r.1)
      lift (err _ p m) r = rw (update_self w a p) (r.0, r.1)
      lift (panic m) r = r

-- the wait status that the callback reports, by the reply of the look-up of the exit event
abbrev pub reported : Reply → ℕ
reported (fails e) = unexpected_exit_code
reported (gives pid code) = code

-- What golang.org/x/sys/unix documents of WaitStatus.ExitStatus: the second byte of a normal exit,
-- and -1 for a process that has not exited, such as one that a signal has ended.
pub record WaitStatusLaw (exit_status : ℕ → ℤ) : Type 0 where
  pub exited : (w : ℕ) → w % 128 ≡ 0 → exit_status w ≡ pos (w / 256 % 256)
  pub not_exited : (w : ℕ) → w % 128 ≢ 0 → exit_status w ≡ negsuc 0

module _ (env : Env) where
  -- When the pidfd of a valid init process that is created, running or paused becomes readable, the
  -- callback wakes its waiters: with the exit status of the recorded event, or, where the event cannot
  -- be read, with that of the unexpected exit code.
  pub init_callback-Says :
      (a : ℕ) (w : World) (l : Log)
      → IsValid (w.inits a)
      → IsLive (w.inits a).init_state
      → Says a
          (env.exit_status
            (reported (env.reply l (lookup_event init_store (w.inits a).trace_event_id))))
          (init_callback env a w l)
  unfolding init_callback ExitSnoop.get_exited_event
  init_callback-Says a w l v h = go (env.reply l c)
    where
      c : Call
      c = lookup_event init_store (w.inits a).trace_event_id

      failing :
          (s : ℤ) (e : Err) (o : Outcome World (Unit {0}))
          → Says a s o
          → Says a s (continue o (λ _. fail e))
      failing s e (ok _ w' l') k = k
      failing s e (err _ w' l') k = k
      failing s e (panic m) k = k

      go :
          (r : Reply)
          → Says a (env.exit_status (reported r)) (
              continue
                (tried_outcome (
                  continue
                    (renamed
                      (wrap "failed to get task exited status with given id")
                      (answer c r w l))
                    (λ s. pure (record {
                      pid = s.0;
                      exit_code = s.1;
                      start_boottime = (env.more l c).0;
                      exited_time = (env.more l c).1;
                    }))))
                (report_exit env a (wrap "failed to get exited status")))
      go (fails e) = failing _ _ _ (exit-Says env a unexpected_exit_code w _ v h)
      go (gives pid code) = exit-Says env a code w _ v h

  -- An exit event that cannot be read makes the process look as if it had ended well: by the
  -- documented meaning of a wait status, the waiters of a valid process that is created, running or
  -- paused read the exit status 0, since the unexpected exit code 128 is used as a wait status.
  pub lost_exit-zero :
      (a : ℕ) (w : World) (l : Log) {e : Err}
      → WaitStatusLaw env.exit_status
      → IsValid (w.inits a)
      → IsLive (w.inits a).init_state
      → env.reply l (lookup_event init_store (w.inits a).trace_event_id) ≡ fails e
      → Says a (pos 0) (init_callback env a w l)
  lost_exit-zero a w l law v h lost =
      subst (λ s. Says a s (init_callback env a w l)) (law.exited unexpected_exit_code refl)
        (subst (λ r. Says a (env.exit_status (reported r)) (init_callback env a w l)) lost
          (init_callback-Says a w l v h))
