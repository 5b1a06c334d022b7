-- ===== src/ExecProcess/Start/Frame.antt =====
-- The run of the wrapper leaves the state machine of the exec process as it is.
use embedshim.Prelude.{ℕ, String, List, [], ◌∷◌, Option, none, some, ◌⊎◌, inl, inr, refl}
use embedshim.GoError.{Err}
use embedshim.Host.{Env}
use embedshim.Host.Quiet.{Quiet, quiet_rules}
use embedshim.Host.Keeps.{keeps_rules, Keeps-modify, Keeps-if, Keeps-then}
use embedshim.Io.{ProcessIo, RuncIo, null_device, pipes}
use embedshim.Io.Frame.{close_after_start-Quiet}
use embedshim.ExitSnoop
use embedshim.ExitSnoop.Types.{TaskInfo, exec_store}
use embedshim.ExitSnoop.Frame.{get_tracing_task-Quiet}
use embedshim.PidFd
use embedshim.RuncExt.{same_type, write_proc_sync_message, parse_proc_sync}
use embedshim.RuncExt.Types.{ProcSync, ProcSyncType, error, exec_pid, exec_status}
use embedshim.ExecProcess.Types.{ExecProcess}
use embedshim.ExecProcess.Seen.{KeepsExec, on_exec-Keeps, seen, NoPlatform}
use embedshim.ExecProcess.Methods.Frame.{handle_io_after_exec-Keeps}
use embedshim.ExecProcess.Start
use embedshim.World.{World, Callback, set_poller}

module _ (env : Env) (a : ℕ) where
  write-Quiet : (m : ProcSync) → Quiet {S = World} (write_proc_sync_message env m)
  unfolding write_proc_sync_message
  write-Quiet m = search quiet_rules

  trace-Quiet : (pid : ℕ) (i : TaskInfo) → Quiet {S = World} (ExitSnoop.trace env exec_store pid i)
  unfolding ExitSnoop.trace
  trace-Quiet pid i = search quiet_rules

  pidns-Quiet : (pid : ℕ) → Quiet {S = World} (ExitSnoop.get_pidns_info env pid)
  unfolding ExitSnoop.get_pidns_info
  pidns-Quiet pid = search quiet_rules

  trace_exec-Keeps : (pid : ℕ) → KeepsExec a (Start.trace_exec env a pid)
  unfolding Start.trace_exec
  trace_exec-Keeps pid =
      search (keeps_rules, quiet_rules, on_exec-Keeps a, trace-Quiet, pidns-Quiet) depth 12

  on_exec_pid-Keeps :
      (pio : Option ProcessIo) (m : ProcSync) → KeepsExec a (Start.on_exec_pid env a pio m)
  unfolding Start.on_exec_pid
  on_exec_pid-Keeps pio m =
      search (keeps_rules, handle_io_after_exec-Keeps env a, trace_exec-Keeps, write-Quiet)

  delete_task-Quiet :
      (pid : ℕ) → Quiet {S = World} (ExitSnoop.delete_tracing_task env exec_store pid)
  unfolding ExitSnoop.delete_tracing_task
  delete_task-Quiet pid = search quiet_rules

  drop_row-Quiet : (e : ExecProcess) (r : Err ⊎ TaskInfo) → Quiet (Start.drop_row env a e r)
  unfolding Start.drop_row
  drop_row-Quiet e (inl x) = search quiet_rules
  drop_row-Quiet e (inr i) = search (quiet_rules, delete_task-Quiet)

  insert-Quiet :
      (id pid status : ℕ)
      → Quiet {S = World} (ExitSnoop.exited_event_from_wait_status env exec_store id pid status)
  unfolding ExitSnoop.exited_event_from_wait_status
  insert-Quiet id pid status = search quiet_rules

  record_exit-Quiet :
      (e : ExecProcess) (status : ℕ) (r : Err ⊎ Unit {0})
      → Quiet (Start.record_exit env a e status r)
  unfolding Start.record_exit
  record_exit-Quiet e status (inl x) = search (quiet_rules, insert-Quiet)
  record_exit-Quiet e status (inr x) = search (quiet_rules, insert-Quiet)

  on_exec_status-Keeps : (m : ProcSync) → KeepsExec a (Start.on_exec_status env a m)
  unfolding Start.on_exec_status
  on_exec_status-Keeps m =
      search
        (
          keeps_rules,
          quiet_rules,
          on_exec-Keeps a,
          write-Quiet,
          drop_row-Quiet,
          record_exit-Quiet,
          get_tracing_task-Quiet,
        )
        depth 12

  handle_type-Keeps :
      (pio : Option ProcessIo) (m : ProcSync) (t : ProcSyncType)
      → KeepsExec a (Start.handle_type env a pio m t)
  unfolding Start.handle_type
  handle_type-Keeps pio m exec_pid = on_exec_pid-Keeps pio m
  handle_type-Keeps pio m exec_status = on_exec_status-Keeps m
  handle_type-Keeps pio m _ = search (keeps_rules, quiet_rules)

  parse-Keeps :
      (pio : Option ProcessIo) (ms : List (Err ⊎ ProcSync))
      → KeepsExec a (parse_proc_sync (Start.handle_message env a pio) ms)
  unfolding parse_proc_sync Start.handle_message
  parse-Keeps pio [] = search (keeps_rules, quiet_rules)
  parse-Keeps pio (inl e ∷ ms) = search (keeps_rules, quiet_rules)
  parse-Keeps pio (inr m ∷ ms) =
      Keeps-if (seen a) NoPlatform (same_type m.type error) _ _ (search (keeps_rules, quiet_rules))
        (Keeps-then (seen a) NoPlatform _ (parse_proc_sync (Start.handle_message env a pio) ms)
          (handle_type-Keeps pio m m.type) (parse-Keeps pio ms))

  read-Quiet : Quiet (Start.read_messages env a)
  unfolding Start.read_messages
  read-Quiet = record { at = λ s l. refl }

  receive_messages-Keeps :
      (pio : Option ProcessIo) (pipe : ℕ) → KeepsExec a (Start.receive_messages env a pio pipe)
  unfolding Start.receive_messages
  receive_messages-Keeps pio pipe =
      search (keeps_rules, quiet_rules, on_exec-Keeps a, read-Quiet, parse-Keeps) depth 12

  forget_pid-Keeps : KeepsExec a (Start.forget_pid env a)
  unfolding Start.forget_pid
  forget_pid-Keeps = search (keeps_rules, quiet_rules, on_exec-Keeps a) depth 9

  register-Keeps :
      (fd : ℕ) (c : Callback) (old : Option Callback)
      → KeepsExec a (PidFd.register env (λ (w : World). w.poller) set_poller fd c old)
  unfolding PidFd.register
  register-Keeps fd c none = search (keeps_rules, quiet_rules, Keeps-modify (seen a) NoPlatform)
  register-Keeps fd c (some o) = search (keeps_rules, quiet_rules)

  add-Keeps :
      (fd : ℕ) (c : Callback)
      → KeepsExec a (PidFd.add env (λ (w : World). w.poller) set_poller fd c)
  unfolding PidFd.add
  add-Keeps fd c = search (keeps_rules, quiet_rules, register-Keeps)

  watch_synced-Keeps : KeepsExec a (Start.watch_synced env a)
  unfolding Start.watch_synced
  watch_synced-Keeps = search (keeps_rules, quiet_rules, on_exec-Keeps a, add-Keeps)

  sync_with_child-Keeps :
      (pio : Option ProcessIo) (pipe : ℕ) → KeepsExec a (Start.sync_with_child env a pio pipe)
  unfolding Start.sync_with_child
  sync_with_child-Keeps pio pipe =
      search (keeps_rules, forget_pid-Keeps, receive_messages-Keeps, watch_synced-Keeps)

  started-Quiet :
      (p : ProcessIo) (r : RuncIo) → Quiet (Start.close_started env a (some (record p { io = r })))
  unfolding Start.close_started
  started-Quiet p null_device = search quiet_rules
  started-Quiet p (pipes i) = close_after_start-Quiet env i

  close_started-Quiet : (pio : Option ProcessIo) → Quiet (Start.close_started env a pio)
  unfolding Start.close_started
  close_started-Quiet none = search quiet_rules
  close_started-Quiet (some p) = started-Quiet p p.io

  first_error-Quiet : (e : Err ⊎ ℕ) (r : Err ⊎ Unit {0}) → Quiet (Start.first_error env a e r)
  unfolding Start.first_error
  first_error-Quiet (inl e) r = search quiet_rules
  first_error-Quiet (inr n) r = search quiet_rules

  pub start_wrapper-Quiet :
      (socket : Option String) (e : ExecProcess) → Quiet (Start.start_wrapper env a socket e)
  unfolding Start.start_wrapper
  start_wrapper-Quiet socket e = search quiet_rules

  kill_wrapper-Quiet : Quiet (Start.kill_wrapper env a)
  unfolding Start.kill_wrapper
  kill_wrapper-Quiet = search quiet_rules

  with_wrapper-Keeps :
      (pio : Option ProcessIo) (parent child : ℕ)
      → KeepsExec a (Start.with_wrapper env a pio parent child)
  unfolding Start.with_wrapper
  with_wrapper-Keeps pio parent child =
      search
        (
          keeps_rules, quiet_rules, kill_wrapper-Quiet, close_started-Quiet, sync_with_child-Keeps,
          first_error-Quiet,
        )
        depth 12

  pub close_pipe-Quiet : (parent child : ℕ) → Quiet (Start.close_pipe env a parent child)
  unfolding Start.close_pipe
  close_pipe-Quiet parent child = search quiet_rules

  pub invoke_runc_exec-Keeps :
      (socket : Option String) (pio : Option ProcessIo)
      → KeepsExec a (Start.invoke_runc_exec env a socket pio)
  unfolding Start.invoke_runc_exec
  invoke_runc_exec-Keeps socket pio =
      search (keeps_rules, quiet_rules, start_wrapper-Quiet, with_wrapper-Keeps, close_pipe-Quiet)
        depth 16
