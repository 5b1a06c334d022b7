-- ===== src/ExecProcess/Lifecycle.antt =====
-- The life of an exec process: each request takes its lock and ends in the same state or along one edge.
use embedshim.ExecProcess.Obeys.{
  IsValid, Edge, stay, launch, exit_created, exit_running, remove_created, remove_stopped, Lawful,
  Obeys, Obeys-Keeps, Obeys-then, Obeys-first, becomes, stayed,
}
use embedshim.ExecProcess.Starts.{Started, start-Started}
use embedshim.Prelude.{ℤ, ℕ, false, ◌≡◌, refl, ◌∙◌}
use embedshim.Host.{Env, M, Outcome, ok, err, panic, continue, Log, skip, ◌>>◌}
use embedshim.Host.Quiet.{Quiet, quiet_rules}
use embedshim.Host.Keeps.{keeps_rules}
use embedshim.ExecProcess.Types.{ExecProcess, ExecState, created, running, stopped, deleted}
use embedshim.ExecProcess.Seen.{KeepsExec}
use embedshim.ExecProcess.Methods.Frame.{delete-Quiet, resize-Quiet, kill-Quiet}
use embedshim.ExecProcess.Start
use embedshim.ExecProcess.States
use embedshim.ExecProcess.Exits.{IsLive, Ends, set_exited_in-Ends}
use embedshim.World.{World, eq_self}

-- what the shim, and the epoller through the callback, ask of an exec process
pub data Request : Type 0 where
  start delete resize : Request
  kill set_exited : ℕ → Request

unfoldable pub ask : Env → ℕ → Request → M World (Unit {0})
ask env a start = States.start env a
ask env a delete = do States.delete env a; skip
ask env a resize = States.resize_pty env a
ask env a (kill signal) = States.kill env a signal
ask env a (set_exited status) = States.set_exited env a status

module _ (env : Env) (a : ℕ) where
  launched :
      (w : World) (o : Outcome World (Unit {0}))
      → (w.execs a).exec_state ≡ created
      → IsValid (w.execs a)
      → Started a w o
      → Lawful a created (continue o (λ _. States.created_transition a "running"))
  unfolding States.created_transition
  launched w (ok _ v l) c h s = rw (eq_self a) (launch, s.1 ∙ (rw c at h).1)
  launched w (err _ v l) c h s = stayed a created w v s c h
  launched w (panic m) c h s = s

  start_in-Obeys : (s : ExecState) → Obeys a s (States.start_in env a s)
  unfolding States.start_in
  start_in-Obeys created = record {
    at = λ w l e h. launched w (Start.start env a w l) e h (start-Started env a w l (rw e at h).0);
  }
  start_in-Obeys _ = search (Obeys-Keeps, keeps_rules, quiet_rules)

  delete_in-Obeys : (s : ExecState) → Obeys a s (States.delete_in env a s)
  unfolding States.delete_in States.created_transition States.stopped_transition
  delete_in-Obeys created =
      Obeys-first a created _ _ (delete-Quiet env a)
        (becomes a created deleted remove_created (λ e x h. tt))
  delete_in-Obeys running = search (Obeys-Keeps, keeps_rules, quiet_rules)
  delete_in-Obeys stopped =
      Obeys-first a stopped _ _ (delete-Quiet env a)
        (becomes a stopped deleted remove_stopped (λ e x h. tt))
  delete_in-Obeys deleted = search (Obeys-Keeps, keeps_rules, quiet_rules)

  ended-Lawful :
      (s : ExecState) (w : World) (status : ℤ) (o : Outcome World (Unit {0}))
      → Edge s stopped
      → Ends a status w o
      → Lawful a s o
  ended-Lawful s w status (ok _ v l) d h = rw (h.1) (d, (h.0.woken, λ n. cc (h.0.dated.1)))
  ended-Lawful s w status (err _ v l) d h = elim h [ ]
  ended-Lawful s w status (panic m) d h = elim h [ ]

  set_exited_in-Lawful :
      (s : ExecState) (status : ℕ) (w : World) (l : Log)
      → (w.execs a).exec_state ≡ s
      → IsValid (w.execs a)
      → (IsLive s → (w.execs a).wait_closed ≡ false)
      → Lawful a s (States.set_exited_in env a s status w l)
  unfolding States.set_exited_in
  set_exited_in-Lawful created status w l e h b =
      ended-Lawful created w (env.exit_status status) _ exit_created
        (set_exited_in-Ends env a created status w l tt (b tt))
  set_exited_in-Lawful running status w l e h b =
      ended-Lawful running w (env.exit_status status) _ exit_running
        (set_exited_in-Ends env a running status w l tt (b tt))
  set_exited_in-Lawful stopped status w l e h b = (rw e stay, h)
  set_exited_in-Lawful deleted status w l e h b = (rw e stay, h)

  kill_in-Quiet : (s : ExecState) (signal : ℕ) → Quiet (States.kill_in env a s signal)
  unfolding States.kill_in
  kill_in-Quiet deleted signal = search quiet_rules
  kill_in-Quiet _ signal = kill-Quiet env a signal

  resize_in-Quiet : (s : ExecState) → Quiet (States.resize_in env a s)
  unfolding States.resize_in
  resize_in-Quiet created = resize-Quiet env a
  resize_in-Quiet running = resize-Quiet env a
  resize_in-Quiet _ = search quiet_rules

  forget-Keeps : KeepsExec a (States.forget env a)
  unfolding States.forget
  forget-Keeps = record { at = λ w l. refl }

  kill_in-Obeys : (s : ExecState) (signal : ℕ) → Obeys a s (States.kill_in env a s signal)
  kill_in-Obeys s signal = search (Obeys-Keeps, keeps_rules, kill_in-Quiet)

  resize_in-Obeys : (s : ExecState) → Obeys a s (States.resize_in env a s)
  resize_in-Obeys s = search (Obeys-Keeps, keeps_rules, resize_in-Quiet)

  delete-Obeys :
      (s : ExecState) → Obeys a s ((States.delete_in env a s >> States.forget env a) >> skip)
  delete-Obeys s =
      Obeys-then a s (States.delete_in env a s >> States.forget env a) skip
        (Obeys-then a s (States.delete_in env a s) (States.forget env a) (delete_in-Obeys s)
          forget-Keeps)
        (search (keeps_rules, quiet_rules))

-- a process whose waiters have been woken is not told of its exit
abbrev pub MayEnd : Request → ExecProcess → Type 0
MayEnd (set_exited status) e = IsLive e.exec_state → e.wait_closed ≡ false
MayEnd _ e = Unit

-- Every request to a valid exec process, whatever the kernel, runc and the wrapper answer, ends in the
-- same state or along one edge of the state machine and leaves a valid process: the waiters are blocked
-- and no exit time is set while it is created, none is set while it runs, and once it is stopped the
-- waiters run and the time is set. This holds of requests that fail too. The only panic is that of a
-- console without a platform, given that the exit is not reported to a process whose waiters have been
-- woken.
pub ask-Lawful :
    (env : Env) (a : ℕ) (r : Request) (w : World) (l : Log)
    → IsValid (w.execs a)
    → MayEnd r (w.execs a)
    → Lawful a (w.execs a).exec_state (ask env a r w l)
unfolding ask States.start States.delete States.kill States.set_exited States.resize_pty
ask-Lawful env a start w l h m = (start_in-Obeys env a (w.execs a).exec_state).at w l refl h
ask-Lawful env a delete w l h m = (delete-Obeys env a (w.execs a).exec_state).at w l refl h
ask-Lawful env a resize w l h m = (resize_in-Obeys env a (w.execs a).exec_state).at w l refl h
ask-Lawful env a (kill signal) w l h m =
    (kill_in-Obeys env a (w.execs a).exec_state signal).at w l refl h
ask-Lawful env a (set_exited status) w l h m =
    set_exited_in-Lawful env a (w.execs a).exec_state status w l refl h m
