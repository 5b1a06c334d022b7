-- ===== src/ExecProcess/Told.antt =====
-- exec_process.go with cmd/embedshim-runcext/exec.go: the shim takes over the process that the wrapper
-- tells of.
use embedshim.PidFd
use embedshim.RuncExt.{parse_proc_sync, same_type, write_proc_sync_message}
use embedshim.ExecProcess.Methods.{handle_io_after_exec}
use embedshim.Io.{ProcessIo}
use embedshim.Prelude.{
  inl, Bool, lookup, lookup-insert, Bool-cases, some, Option, ℕ, List, [], ◌∷◌, ◌++◌, ◌≡◌, ◌⊎◌, inr,
  arith,
}
use embedshim.GoError.{Err}
use embedshim.Host.{
  Outcome, ok, err, panic, continue, tried_outcome, ignore, call, file_close, return_both,
  Reply-cases, ◌>>◌, Env, Log,
}
use embedshim.Host.Ran.{Gives-rolled_back, Gives-bind, Gives-after, Gives}
use embedshim.ExitSnoop
use embedshim.RuncExt.Types.{
  new_exec_status_message, new_exec_pid_message, new_exec_pid_done_message, ProcSync,
}
use embedshim.ExecProcess.Start.{
  handle_message, handle_type, receive_messages, watch_synced, forget_pid, sync_with_child,
  on_exec_pid, on_exec_status, drop_row, record_exit, trace_exec,
}
use embedshim.World.{exec_exit, World, eq_self}
use embedshim.Wrapper.Acts.{Whole, Act, says, kills}

-- what the decoder of the shim reads of the wrapper's acts: its messages, the oldest first
abbrev pub heard : List Act → List (Err ⊎ ProcSync)
heard [] = []
heard (says m ∷ xs) = heard xs ++ inr m ∷ []
heard (kills pid ∷ xs) = heard xs

module _ (env : Env) (a : ℕ) where
  abbrev Told : ℕ → Unit {0} → World → Type 0
  Told n _ w = (w.execs a).sync_pid ≡ n

  trace_exec-Told : (n : ℕ) (w : World) (l : Log) → Gives (Told n) (trace_exec env a n w l)
  unfolding trace_exec ExitSnoop.get_pidns_info ExitSnoop.trace
  trace_exec-Told n w l = ground (arith, eq_self a)

  confirmed-Told :
      (m : ProcSync) (n : ℕ) (w : World) (l : Log)
      → Told n tt w
      → Gives (Told n) (write_proc_sync_message env m w l)
  unfolding write_proc_sync_message
  confirmed-Told m n w l h = ground (arith, h)

  on_exec_pid-Told :
      (pio : Option ProcessIo) (n : ℕ) (w : World) (l : Log)
      → Gives (Told n) (on_exec_pid env a pio (new_exec_pid_message n) w l)
  unfolding on_exec_pid new_exec_pid_message
  on_exec_pid-Told pio n w l = Gives-after (Told n) (handle_io_after_exec env a pio w l) _ (λ _ w l.
      Gives-bind (Told n) (Told n) (trace_exec env a n w l) _ (trace_exec-Told n w l)
        (λ _ w l h. confirmed-Told new_exec_pid_done_message n w l h))

  on_exec_status-Told :
      (m : ProcSync) (n : ℕ) (w : World) (l : Log)
      → Told n tt w
      → Gives (Told n) (on_exec_status env a m w l)
  unfolding on_exec_status ExitSnoop.get_tracing_task drop_row record_exit
      ExitSnoop.delete_tracing_task ExitSnoop.exited_event_from_wait_status write_proc_sync_message
  on_exec_status-Told m n w l h = ground (arith, h, eq_self a)

  parse-Told :
      (pio : Option ProcessIo) (n status : ℕ) (exited : Bool) (w : World) (l : Log)
      → Gives (Told n) (
          parse_proc_sync
            (handle_message env a pio)
            (inr (new_exec_pid_message n) ∷ inr (new_exec_status_message exited status) ∷ [])
            w
            l)
  unfolding parse_proc_sync same_type handle_message handle_type new_exec_pid_message
      new_exec_status_message
  parse-Told pio n status exited w l =
      Gives-bind (Told n) (Told n) (on_exec_pid env a pio (new_exec_pid_message n) w l) _
        (on_exec_pid-Told pio n w l)
        (λ _ w l h.
          Gives-bind (Told n) (Told n)
            (on_exec_status env a (new_exec_status_message exited status) w l) _
            (on_exec_status-Told (new_exec_status_message exited status) n w l h) (λ _ w l h. h))

  closed-Told :
      (n pipe : ℕ) (o : Outcome World (Unit {0}))
      → Gives (Told n) o
      → Gives
          (Told n)
          (continue (tried_outcome o) (λ r. ignore (call env (file_close pipe)) >> return_both r))
  closed-Told n pipe (ok x w l) h = elim (Reply-cases (env.reply l (file_close pipe))) [
    | inl (e, r) ↦ rw r h
    | inr (k, m, r) ↦ rw r h
  ]
  closed-Told n pipe (err e w l) h = elim (Reply-cases (env.reply l (file_close pipe))) [
    | inl (x, r) ↦ rw r tt
    | inr (k, m, r) ↦ rw r tt
  ]
  closed-Told n pipe (panic m) h = tt

  -- the record has the pid, and the epoller calls the process back for the pidfd in the record
  abbrev pub TakenOver : ℕ → Unit {0} → World → Type 0
  TakenOver n _ w =
      ((w.execs a).pid ≡ n) × (lookup w.poller (w.execs a).pid_fd ≡ some (exec_exit a))

  watch_synced-TakenOver :
      (n : ℕ) (w : World) (l : Log) → Told n tt w → Gives (TakenOver n) (watch_synced env a w l)
  unfolding watch_synced PidFd.add
  watch_synced-TakenOver n w l h = elim (Bool-cases (w.execs a).sync_done) [
    | inl done ↦ rw done (
        ground (
          arith,
          h,
          eq_self a,
          lookup-insert w.poller (w.execs a).sync_fd (w.execs a).sync_fd (exec_exit a),
        ))
    | inr partial ↦ rw partial tt
  ]

  receive_messages-Told :
      (pio : Option ProcessIo) (pipe n : ℕ) (xs : List Act) (w : World) (l : Log)
      → Whole n [] xs
      → ((m : Log) → env.messages m ≡ heard xs)
      → Gives (Told n) (receive_messages env a pio pipe w l)
  unfolding receive_messages
  receive_messages-Told pio pipe n xs w l (exited, status, e) h =
      rw (h l) (rw e (closed-Told n pipe _ (parse-Told pio n status exited _ l)))

  -- If the wrapper has told all of process `n`, and the shim decodes what the wrapper has said, then a
  -- sync that succeeds leaves the exec process with the pid `n`, and the epoller with its callback for
  -- the pidfd in its record.
  pub sync_with_child-TakenOver :
      (pio : Option ProcessIo) (pipe n : ℕ) (xs : List Act) (w : World) (l : Log)
      → Whole n [] xs
      → ((m : Log) → env.messages m ≡ heard xs)
      → Gives (TakenOver n) (sync_with_child env a pio pipe w l)
  unfolding sync_with_child
  sync_with_child-TakenOver pio pipe n xs w l h e =
      Gives-rolled_back (TakenOver n) ((receive_messages env a pio pipe >> watch_synced env a) w l)
        (λ _. forget_pid env a)
        (Gives-bind (Told n) (TakenOver n) (receive_messages env a pio pipe w l)
          (λ _. watch_synced env a) (receive_messages-Told pio pipe n xs w l h e)
          (λ _ w l h. watch_synced-TakenOver n w l h))
