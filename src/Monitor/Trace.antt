-- ===== src/Monitor/Trace.antt =====
-- traceInitProcess: who holds the pidfd afterwards.
use embedshim.Prelude.{
  ◌∷◌, ℕ, ◌+◌, ◌≡◌, refl, some, lookup, lookup-insert, arith, ◌==◌, if◌then◌else◌,
}
use embedshim.GoError.{wrap}
use embedshim.Host.{
  Env, Outcome, ok, err, panic, Log, opens, closes, rows_inserted, rows_deleted, pidfd_open,
  renamed, answer, pure, Reply, fails, gives, continue,
}
use embedshim.RuncLog.{check_runc_init_alive}
use embedshim.ExitSnoop
use embedshim.PidFd
use embedshim.InitProcess.{InitProcess}
use embedshim.World.{World, init_exit}
use embedshim.Monitor.{trace_alive, trace_init_process}

abbrev hits : ℕ → ℕ → ℕ
hits n m = if m == n then 1 else 0

-- The pidfd `fd` was open at `l`. After success the epoller has it, with the callback of the process,
-- and the row of `pid` stands; after a failure it is closed, a row that was inserted is deleted, and
-- the world is as it was.
abbrev Hands : ℕ → ℕ → ℕ → World → Log → ℕ → Outcome World (Unit {0}) → Type 0
Hands a pid fd w l n (ok _ w' l') =
    (lookup w'.poller fd ≡ some (init_exit a))
    × (opens n l' + closes n l ≡ opens n l + closes n l')
    × (rows_inserted pid l' + rows_deleted pid l ≡ rows_inserted pid l + rows_deleted pid l' + 1)
Hands a pid fd w l n (err _ w' l') =
    (w' ≡ w)
    × (opens n l' + closes n l + hits n fd ≡ opens n l + closes n l')
    × (rows_inserted pid l' + rows_deleted pid l ≡ rows_inserted pid l + rows_deleted pid l')
Hands a pid fd w l n (panic m) = ⊥

-- The same from the start, with every descriptor counted.
abbrev pub Traced : ℕ → ℕ → World → Log → Outcome World (Unit {0}) → Type 0
Traced a pid w l (ok _ w' l') =
    (fd : ℕ) × (lookup w'.poller fd ≡ some (init_exit a))
    × ((n : ℕ) → opens n l' + closes n l ≡ opens n l + closes n l' + hits n fd)
    × (rows_inserted pid l' + rows_deleted pid l ≡ rows_inserted pid l + rows_deleted pid l' + 1)
Traced a pid w l (err _ w' l') =
    (w' ≡ w)
    × ((n : ℕ) → opens n l' + closes n l ≡ opens n l + closes n l')
    × (rows_inserted pid l' + rows_deleted pid l ≡ rows_inserted pid l + rows_deleted pid l')
Traced a pid w l (panic m) = ⊥

module _ (env : Env) where
  trace_alive-Hands :
      (a fd : ℕ) (p : InitProcess) (w : World) (l : Log) (n : ℕ)
      → Hands a p.pid fd w l n (trace_alive env a fd p w l)
  unfolding trace_alive check_runc_init_alive ExitSnoop.get_pidns_info ExitSnoop.trace PidFd.add
      ExitSnoop.delete_tracing_task ExitSnoop.delete_exited_event
  trace_alive-Hands a fd p w l n = ground (arith, lookup-insert w.poller fd fd (init_exit a))

  Traced-open :
      (a pid fd x : ℕ) (w : World) (l : Log) (o : Outcome World (Unit {0}))
      → ((n : ℕ) → Hands a pid fd w (record { call = pidfd_open pid; reply = gives fd x } ∷ l) n o)
      → Traced a pid w l o
  Traced-open a pid fd x w l (ok _ w' l') h =
      (fd, (h 0).0, λ n. omega (arith, (h n).1), omega (arith, (h 0).2))
  Traced-open a pid fd x w l (err _ w' l') h =
      ((h 0).0, λ n. omega (arith, (h n).1), omega (arith, (h 0).2))
  Traced-open a pid fd x w l (panic m) h = h 0

  -- traceInitProcess never panics. If it succeeds, the epoller holds one descriptor opened for it with
  -- the callback of this process, every other descriptor is as before, and one more row of the pid
  -- stands in the map of traced tasks. If it fails, at whatever step, the processes and the epoller are
  -- as before, each descriptor that it opened is closed, and for each row that it inserted it asks for a
  -- deletion.
  pub trace_init_process-Traced :
      (a : ℕ) (w : World) (l : Log) → Traced a (w.inits a).pid w l (trace_init_process env a w l)
  unfolding trace_init_process
  trace_init_process-Traced a w l = opened (env.reply l (pidfd_open (w.inits a).pid))
    where
      opened :
          (r : Reply)
          → Traced a (w.inits a).pid w l (
              continue
                (renamed
                  (wrap "failed to open pidfd")
                  (continue (answer (pidfd_open (w.inits a).pid) r w l) (λ r. pure r.0)))
                (λ fd. trace_alive env a fd (w.inits a)))
      opened (fails e) = (refl, (λ n. omega arith), omega arith)
      opened (gives fd x) =
          Traced-open a (w.inits a).pid fd x w l _ (λ n. trace_alive-Hands a fd (w.inits a) w _ n)
