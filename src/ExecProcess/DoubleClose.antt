-- ===== src/ExecProcess/DoubleClose.antt =====
-- What happens if an exec process whose start has failed ends all the same.
use embedshim.Prelude.{ℕ, String, true, false, Option, ◌≡◌, refl, inl, inr, ◌==◌, if◌then◌else◌}
use embedshim.GoError.{Err}
use embedshim.Host.{
  Env, M, Outcome, ok, err, panic, Log, Reply-cases, lookup_event, continue, forgotten,
}
use embedshim.Host.Quiet.{Unchanged}
use embedshim.Io.{ProcessIo}
use embedshim.InitProcess
use embedshim.ExitSnoop
use embedshim.ExitSnoop.Types.{exec_store}
use embedshim.ExitSnoop.Frame.{delete_exited_event-Quiet}
use embedshim.ExecProcess.Exits.{IsLive, Returns, dated_exec, shut, shutdown_parent-Returns}
use embedshim.ExecProcess.Methods
use embedshim.ExecProcess.Start
use embedshim.ExecProcess.States
use embedshim.ExecProcess.Types.{ExecState, created, running, stopped, deleted}
use embedshim.World.{World, eq_self, on_exec}

abbrev pub Closed : Outcome World (Unit {0}) → Type 0
Closed o = o ≡ panic "close of closed channel"

module _ (env : Env) (a : ℕ) where
  close_wait_block-Closed :
      (status : ℕ) (w : World) (l : Log) (m : M World (Unit {0})) (o : Outcome World (Unit {0}))
      → (w.execs a).wait_closed ≡ true
      → Returns (dated_exec env a status w l) o
      → Closed (continue (continue o (λ _. on_exec a Methods.close_wait_block)) (λ _. m))
  unfolding Methods.close_wait_block
  close_wait_block-Closed status w l m (ok _ v l') woken r = rw r (rw (eq_self a) (rw woken refl))
  close_wait_block-Closed status w l m (err _ v l') woken r = elim r [ ]
  close_wait_block-Closed status w l m (panic e) woken r = elim r [ ]

  pub set_exited_in-Closed :
      (s : ExecState) (status : ℕ) (w : World) (l : Log)
      → IsLive s
      → (w.execs a).wait_closed ≡ true
      → Closed (States.set_exited_in env a s status w l)
  unfolding States.set_exited_in Methods.set_exited
  set_exited_in-Closed created status w l h woken = rw (eq_self a) (
      close_wait_block-Closed status w l _ (shut env a status w l) woken (
        shutdown_parent-Returns env a (w.inits (w.execs a).parent).platform (w.execs a).console
          (dated_exec env a status w l) l))
  set_exited_in-Closed running status w l h woken = rw (eq_self a) (
      close_wait_block-Closed status w l _ (shut env a status w l) woken (
        shutdown_parent-Returns env a (w.inits (w.execs a).parent).platform (w.execs a).console
          (dated_exec env a status w l) l))
  set_exited_in-Closed stopped status w l h woken = elim h [ ]
  set_exited_in-Closed deleted status w l h woken = elim h [ ]

  forgotten-Closed :
      (status : ℕ) (w : World)
      → IsLive (w.execs a).exec_state
      → (w.execs a).wait_closed ≡ true
      → (o : Outcome World (Unit {0})) → Unchanged w o
      → Closed (continue (forgotten o) (λ _. States.set_exited env a status))
  unfolding States.set_exited
  forgotten-Closed status w h woken (ok _ v l) u =
      rw u (set_exited_in-Closed (w.execs a).exec_state status w l h woken)
  forgotten-Closed status w h woken (err _ v l) u =
      rw u (set_exited_in-Closed (w.execs a).exec_state status w l h woken)
  forgotten-Closed status w h woken (panic m) u = elim u [ ]

  exit_callback-Closed :
      (w : World) (l : Log)
      → IsLive (w.execs a).exec_state
      → (w.execs a).wait_closed ≡ true
      → Closed (States.exit_callback env a w l)
  unfolding States.exit_callback ExitSnoop.get_exited_event ExitSnoop.delete_exited_event
      States.set_exited
  exit_callback-Closed w l h woken =
      elim (Reply-cases (env.reply l (lookup_event exec_store (w.execs a).trace_event_id))) [
        | inl (x, e) ↦ rw e (
            forgotten-Closed 255 w h woken _
              ((delete_exited_event-Quiet env exec_store (w.execs a).trace_event_id).at w _))
        | inr (p, n, e) ↦ rw e (
            forgotten-Closed (if p == (w.execs a).pid then n else 255) w h woken _
              ((delete_exited_event-Quiet env exec_store (w.execs a).trace_event_id).at w _))
      ]

  -- If the wrapper of runc exec fails and the callback of the exec process runs later all the same,
  -- which its registration before the failure allows, then the channel of the waiters is closed twice,
  -- and the callback panics.
  pub exit_callback-invoke_with :
      (socket : Option String) (pio : Option ProcessIo) (w v : World) (l m : Log) (e : Err)
      → Start.invoke_runc_exec env a socket pio w l ≡ err e v m
      → (v.execs a).wait_closed ≡ false
      → IsLive (v.execs a).exec_state
      → continue (Start.invoke_with env a socket pio w l) (λ _. States.exit_callback env a)
        ≡ panic "close of closed channel"
  unfolding Start.invoke_with Start.after_invoke Methods.close_wait_block InitProcess.report
  exit_callback-invoke_with socket pio w v l m e failed waits live =
      rw failed (rw waits (exit_callback-Closed _ m (rw (eq_self a) live) (rw (eq_self a) refl)))
