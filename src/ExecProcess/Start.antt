-- ===== src/ExecProcess/Start.antt =====
-- exec_process.go: the start of an exec process through the runc-exec wrapper. The function that
-- reads the sync pipe runs beside the wrapper; the wrapper's own exit is waited for after it here,
-- since neither looks at what the other one does but through the pipe.
pub mod Frame
use embedshim.PidFd.SysCalls
use embedshim.Prelude.{
  String, [], ◌∷◌, ◌++◌, ℕ, true, false, List, Option, none, some, ◌⊎◌, inl, inr, ◌==◌,
  if◌then◌else◌,
}
use embedshim.GoError.{Err, msg, wrap, is, key_not_exist}
use embedshim.Io.{ProcessIo, null_device, pipes, create_io, close_after_start}
use embedshim.ExitSnoop
use embedshim.ExitSnoop.Types.{TaskInfo, exec_store}
use embedshim.PidFd
use embedshim.RuncExt.{write_proc_sync_message, parse_proc_sync}
use embedshim.RuncExt.Types.{
  ProcSync, ProcSyncType, exec_pid, exec_status, new_exec_pid_done_message,
  new_exec_status_done_message,
}
use embedshim.InitProcess
use embedshim.InitProcess.{InitProcess}
use embedshim.ExecProcess.Types.{ExecProcess}
use embedshim.ExecProcess.Methods.{handle_io_after_exec, close_wait_block}
use embedshim.RuncExt.Command.{ExecOpts, runtime_command, runc_exec_opts_args}
use embedshim.ExecProcess.Methods.{pid_file_path, process_json_path}
use embedshim.World.{World, exec_exit, set_poller, on_exec, on_init}
use embedshim.Host.{
  kill_command, Env, M, ok, call, call_pair, pure, fail, skip, gets, modify, ignore, tried,
  on_error, finally, wrapping, return_both, ◌>>=◌, ◌>>◌, pidfd_open, close_fd, console_socket,
  socket_close, socketpair, start_command, wait_command, file_close, encode_spec, create_file,
  remove_file,
}

-- pidfd.Open gives 0 beside an error
abbrev or_zero : Err ⊎ ℕ → ℕ
or_zero (inl e) = 0
or_zero (inr fd) = fd

abbrev pub exec_opts : Option String → InitProcess → ExecProcess → ExecOpts
exec_opts socket p e = record {
  console_socket = socket;
  detach = true;
  pid_file = pid_file_path p e;
}

-- the pipe is the first extra file, after the three standard descriptors
abbrev pub sync_pipe_env : String
sync_pipe_env = "_RUNCEXT_PROC_SYNC_PIPE=3"

module _ (env : Env) (a : ℕ) where
  abbrev the_exec : M World ExecProcess
  the_exec = gets (λ w. w.execs a)

  -- the critical section for the message with the pid; `pidFD` stays set when Trace fails
  unfoldable pub trace_exec : ℕ → M World (Unit {0})
  trace_exec pid = do
    on_exec a (modify (λ e. record e { sync_pid = pid }))
    ns ← ExitSnoop.get_pidns_info env pid
    opened ← tried (SysCalls.open_fd env pid)
    on_exec a (modify (λ e. record e { sync_fd = or_zero opened }))
    fd ← return_both opened
    e ← the_exec
    on_error (λ _. ignore (call env (close_fd fd)))
        (ExitSnoop.trace env exec_store pid
          (record { trace_id = e.trace_event_id; pidns_info = ns }))

  unfoldable pub on_exec_pid : Option ProcessIo → ProcSync → M World (Unit {0})
  unfolding trace_exec
  on_exec_pid pio m = do
    handle_io_after_exec env a pio
    trace_exec m.pid
    write_proc_sync_message env new_exec_pid_done_message

  -- the row is deleted if it is the row of this process
  unfoldable pub drop_row : ExecProcess → Err ⊎ TaskInfo → M World (Err ⊎ Unit {0})
  drop_row e (inl x) = pure (inl x)
  drop_row e (inr info) =
      if info.trace_id == e.trace_event_id
      then tried (ExitSnoop.delete_tracing_task env exec_store e.sync_pid)
      else pure (inr tt)

  -- the exit of a process that was gone before it was traced is recorded from its wait status
  unfoldable pub record_exit : ExecProcess → ℕ → Err ⊎ Unit {0} → M World (Unit {0})
  record_exit e status (inr _) =
      ExitSnoop.exited_event_from_wait_status env exec_store e.trace_event_id e.sync_pid status
  record_exit e status (inl x) =
      if is x key_not_exist
      then ExitSnoop.exited_event_from_wait_status env exec_store e.trace_event_id e.sync_pid status
      else fail x

  unfoldable pub on_exec_status : ProcSync → M World (Unit {0})
  unfolding drop_row record_exit
  on_exec_status m = do
    if m.exited
        then (do
          e ← the_exec
          info ← tried (ExitSnoop.get_tracing_task env exec_store e.sync_pid)
          dropped ← drop_row e info
          record_exit e m.exited_status dropped)
        else skip
    on_exec a (modify (λ e. record e { sync_done = true }))
    write_proc_sync_message env new_exec_status_done_message

  unfoldable pub handle_type : Option ProcessIo → ProcSync → ProcSyncType → M World (Unit {0})
  unfolding on_exec_pid on_exec_status
  handle_type pio m exec_pid = on_exec_pid pio m
  handle_type pio m exec_status = on_exec_status m
  handle_type pio m _ = fail (msg "unexpected message")

  unfoldable pub handle_message : Option ProcessIo → ProcSync → M World (Unit {0})
  unfolding handle_type
  handle_message pio m = handle_type pio m m.type

  read_messages : M World (List (Err ⊎ ProcSync))
  read_messages w l = ok (env.messages l) w l

  -- the deferred function: the descriptor is closed if the variable holds one
  unfoldable pub forget_pid : M World (Unit {0})
  forget_pid = do
    e ← the_exec
    if e.sync_fd == 0 then skip else ignore (call env (close_fd e.sync_fd))
    on_exec a (modify (λ x. record x { pid = 0; pid_fd = 0 }))

  -- the messages are handled; `pipe` is the parent's end of the sync pipe, which is closed then
  unfoldable pub receive_messages : Option ProcessIo → ℕ → M World (Unit {0})
  unfolding read_messages
  receive_messages pio pipe = do
    on_exec a (modify (λ x. record x { sync_pid = 0; sync_fd = 0; sync_done = false }))
    decoded ← read_messages
    synced ← tried (parse_proc_sync (handle_message pio) decoded)
    ignore (call env (file_close pipe))
    return_both synced

  unfoldable pub watch_synced : M World (Unit {0})
  watch_synced = do
    e ← the_exec
    if e.sync_done then skip else fail (msg "unexpected to abort sync from child side")
    on_exec a (modify (λ x. record x { pid = x.sync_pid; pid_fd = x.sync_fd }))
    PidFd.add env (λ (w : World). w.poller) set_poller e.sync_fd (exec_exit a)

  unfoldable pub sync_with_child : Option ProcessIo → ℕ → M World (Unit {0})
  unfolding receive_messages watch_synced forget_pid
  sync_with_child pio pipe = on_error (λ _. forget_pid) (do receive_messages pio pipe; watch_synced)

  close_started : Option ProcessIo → M World (Unit {0})
  close_started none = skip
  close_started (some p) = elim p.io [ null_device ↦ skip | pipes i ↦ close_after_start env i ]

  -- err := execCmd.Wait(), and the error of the sync only if that is nil
  first_error : Err ⊎ ℕ → Err ⊎ Unit {0} → M World (Unit {0})
  first_error (inl e) synced = fail e
  first_error (inr _) synced = return_both synced

  unfoldable pub start_wrapper : Option String → ExecProcess → M World (Unit {0})
  start_wrapper socket e = do
    p ← gets (λ w. w.inits e.parent)
    oargs ← return_both (runc_exec_opts_args env.abs (exec_opts socket p e))
    let args = "exec" ∷ "--process" ∷ process_json_path p e ∷ oargs ++ p.id ∷ []
    let cmd = runtime_command env.environ true p.runtime args
    wrapping (wrap "failed to start runc-exec ext")
        (call env (start_command cmd.path cmd.args (cmd.env ++ sync_pipe_env ∷ [])))
    skip

  -- the deferred function of invokeRuncExec, which runs until the wrapper has been waited for
  kill_wrapper : M World (Unit {0})
  kill_wrapper = do ignore (call env kill_command); ignore (call env wait_command)

  -- the wrapper runs: its end of the pipe is closed here
  with_wrapper : Option ProcessIo → ℕ → ℕ → M World (Unit {0})
  unfolding close_started kill_wrapper first_error sync_with_child
  with_wrapper pio parent child = do
    ignore (call env (file_close child))
    on_error (λ _. kill_wrapper)
        (wrapping (wrap "failed to close io after start") (close_started pio))
    synced ← tried (sync_with_child pio parent)
    exited ← tried (call env wait_command)
    first_error exited synced

  -- deferred at the end of invokeRuncExec
  pub close_pipe : ℕ → ℕ → M World (Unit {0})
  close_pipe parent child = do
    ignore (call env (file_close parent))
    ignore (call env (file_close child))

  unfoldable pub invoke_runc_exec : Option String → Option ProcessIo → M World (Unit {0})
  unfolding start_wrapper with_wrapper close_pipe
  invoke_runc_exec socket pio = do
    e ← the_exec
    p ← gets (λ w. w.inits e.parent)
    spec ← wrapping (wrap "failed to create") (call env (create_file (process_json_path p e)))
    finally (ignore (call env (remove_file (process_json_path p e)))) (do
      encoded ← tried (call env encode_spec)
      ignore (call env (close_fd spec))
      wrapping (wrap "failed to encode process.json") (return_both encoded)
      (parent, child) ← wrapping (wrap "failed to init sync pipe") (call_pair env socketpair)
      finally (close_pipe parent child) (do start_wrapper socket e; with_wrapper pio parent child))

  -- The error that is reported is the variable `err` of `start`, which is nil here, not `invokeErr`.
  unfoldable pub after_invoke : Err ⊎ Unit {0} → M World (Unit {0})
  unfolding close_wait_block
  after_invoke (inr _) = skip
  after_invoke (inl e) = do
    on_exec a close_wait_block
    x ← the_exec
    on_init x.parent (InitProcess.report env none "OCI runtime exec failed")

  unfoldable pub invoke_with : Option String → Option ProcessIo → M World (Unit {0})
  unfolding after_invoke
  invoke_with socket pio = do r ← tried (invoke_runc_exec socket pio); after_invoke r

  unfoldable pub start : M World (Unit {0})
  unfolding invoke_with
  start = do
    e ← the_exec
    if e.stdio.terminal
        then (do
          path ← λ w l. ok (env.socket_path l) w l
          wrapping (wrap "failed to create runc console socket") (call env console_socket)
          finally (ignore (call env socket_close)) (invoke_with (some path) none))
        else (do
          io ← wrapping (wrap "failed to create exec process I/O") (create_io env e.stdio)
          on_exec a (modify (λ x. record x { io = some io }))
          invoke_with none (some io))
