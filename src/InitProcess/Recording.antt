-- ===== src/InitProcess/Recording.antt =====
-- setExited: the one write of the exit status.
use embedshim.Prelude.{ℕ, true, false, some, ◌≡◌, arith, ℤ}
use embedshim.Host.{Env, Outcome, ok, err, panic, Log}
use embedshim.InitProcess
use embedshim.InitProcess.{InitProcess}
use embedshim.Platform
use embedshim.Platform.{Platform, shutdown_console}

-- the exit is recorded, the waiters are woken, and the state and the identity stay
pub record Recorded (status : ℤ) (p q : InitProcess) : Type 0 where
  pub woken : q.wait_closed ≡ true
  pub status_set : q.status ≡ status
  pub dated : (t : ℕ) × (q.exited ≡ some t)
  pub same_state : q.init_state ≡ p.init_state
  pub same_pid : q.pid ≡ p.pid

abbrev pub Exits : ℤ → InitProcess → Outcome InitProcess (Unit {0}) → Type 0
Exits status p (ok _ q l) = Recorded status p q
Exits status p (err _ q l) = ⊥
Exits status p (panic m) = ⊥

-- setExited on a process whose waiters are still blocked
pub set_exited-Exits :
    (env : Env) (status : ℕ) (p : InitProcess) (l : Log)
    → p.wait_closed ≡ false
    → Exits (env.exit_status status) p (InitProcess.set_exited env status p l)
unfolding InitProcess.set_exited Platform.shutdown_console Platform.close
set_exited-Exits env status p l h = ground arith
