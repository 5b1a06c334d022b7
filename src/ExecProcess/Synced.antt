-- ===== src/ExecProcess/Synced.antt =====
-- exec_process.go, syncWithChild: what an exec process holds after its start has been synced.
use embedshim.Host.Ran.{Gives, Gives-after}
use embedshim.Prelude.{
  ℕ, Option, some, ◌≡◌, refl, inl, inr, ◌==◌, lookup, lookup-insert, arith, Bool-cases,
}
use embedshim.GoError.{Err}
use embedshim.Host.{
  ◌>>◌, Env, Outcome, ok, err, panic, Log, Reply-cases, rolled_back, dropping, close_fd,
}
use embedshim.Io.{ProcessIo}
use embedshim.PidFd
use embedshim.World.{World, exec_exit, eq_self}
use embedshim.ExecProcess.Start.{receive_messages, watch_synced, sync_with_child, forget_pid}

-- After success the epoller calls the process back when the pidfd that it has ends; after a failure
-- it has no pid and no pidfd.
abbrev pub Synced : ℕ → Outcome World (Unit {0}) → Type 0
Synced a (ok _ w l) = lookup w.poller (w.execs a).pid_fd ≡ some (exec_exit a)
Synced a (err e w l) = ((w.execs a).pid ≡ 0) × ((w.execs a).pid_fd ≡ 0)
Synced a (panic m) = Unit

-- what success means, before the deferred function
abbrev CalledBack : ℕ → Unit {0} → World → Type 0
CalledBack a _ w = lookup w.poller (w.execs a).pid_fd ≡ some (exec_exit a)

module _ (env : Env) (a : ℕ) where
  forgotten-Synced :
      (e : Err) (w : World) (l : Log) → Synced a (dropping {A = Unit {0}} (forget_pid env a w l) e)
  unfolding forget_pid
  forgotten-Synced e w l = elim (Bool-cases ((w.execs a).sync_fd == 0)) [
    | inl zero ↦ rw zero (rw (eq_self a) (refl, refl))
    | inr some_fd ↦ rw some_fd elim (Reply-cases (env.reply l (close_fd (w.execs a).sync_fd))) [
      | inl (x, r) ↦ rw r (rw (eq_self a) (refl, refl))
      | inr (n, m, r) ↦ rw r (rw (eq_self a) (refl, refl))
    ]
  ]

  Synced-Added :
      (o : Outcome World (Unit {0}))
      → Gives (CalledBack a) o
      → Synced a (rolled_back o (λ _. forget_pid env a))
  Synced-Added (ok x w l) h = h
  Synced-Added (err e w l) h = forgotten-Synced e w l
  Synced-Added (panic m) h = tt

  watch_synced-Added : (w : World) (l : Log) → Gives (CalledBack a) (watch_synced env a w l)
  unfolding watch_synced PidFd.add
  watch_synced-Added w l = elim (Bool-cases (w.execs a).sync_done) [
    | inl done ↦ rw done (
        ground (
          arith,
          eq_self a,
          lookup-insert w.poller (w.execs a).sync_fd (w.execs a).sync_fd (exec_exit a),
        ))
    | inr partial ↦ rw partial tt
  ]

  -- Once the messages of the child have been read, a success means that the epoller holds the callback
  -- of this exec process for the pidfd in its record; after an error its record has no pid and no pidfd.
  pub sync_with_child-Synced :
      (pio : Option ProcessIo) (pipe : ℕ) (w : World) (l : Log)
      → Synced a (sync_with_child env a pio pipe w l)
  unfolding sync_with_child
  sync_with_child-Synced pio pipe w l =
      Synced-Added ((receive_messages env a pio pipe >> watch_synced env a) w l) (
        Gives-after (CalledBack a) (receive_messages env a pio pipe w l) (λ _. watch_synced env a)
          (λ _ w l. watch_synced-Added w l))
