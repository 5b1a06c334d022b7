-- ===== src/InitProcess.antt =====
-- init_process.go: the init process of a container. The methods here are those that the states of
-- init_process_state.go call, and Create. A method holds `p.mu`, so it runs as one step.
pub mod States
pub mod Load
pub mod Frame
pub mod Recording
pub mod Waiters
pub mod Promise
pub mod Lifecycle
use mathlib.Core.Option
use embedshim.Prelude.{
  ℕ, ◌+◌, String, Bool, true, false, List, [], ◌∷◌, ◌++◌, Option, none, some, ℤ, pos, zero, suc,
  str_eq, cat, if◌then◌else◌, inl, inr,
}
use embedshim.GoError.{Err, msg, wrap, wrap_nil, text}
use embedshim.RuncLog.{get_last_runtime_error, check_kill_error, does_not_exist}
use embedshim.Io
use embedshim.Io.{ProcessIo, is_set, create_io, copy_stdin}
use embedshim.Platform
use embedshim.Platform.{Platform, copy_console, shutdown_console}
use embedshim.RuncExt.Command.{Runc}
use embedshim.ExecProcess.Types.{ExecProcess, new_exec}
use embedshim.Host.{
  Env, M, Stdio, Outcome, ok, err, panic, call, time, pure, fail, crash, skip, gets, modify, give,
  attempt, ignore, tried, finally, wrapping, ◌>>=◌, ◌>>◌, runc_create, runc_start, runc_delete,
  runc_kill, runc_update, open_fifo, console_socket, socket_close, console_receive, close_fd,
  read_pid_file, unmount_rootfs, wait_group, decode, console_resize,
}

-- createdState, runningState, pausedState, stoppedState, deletedState
pub data InitState : Type 0 where
  created running paused stopped deleted : InitState

pub record InitProcess : Type 0 where
  -- the pointer to this process
  pub self : ℕ
  pub id : String
  pub init_state : InitState
  -- the path of the bundle
  pub path : List String
  pub runtime : Runc
  pub trace_event_id : ℕ
  -- the counter of `wg`: copies that are still writing to stdout
  pub wg : ℕ
  -- whether `waitBlock` is closed
  pub wait_closed : Bool
  pub stdio : Stdio
  pub console : Option ℕ
  pub platform : Option Platform
  pub io : Option ProcessIo
  pub stdin : Option ℕ
  pub closers : List ℕ
  pub status : ℤ
  -- the zero time is `none`
  pub exited : Option ℕ
  pub pid : ℕ

-- the literal of newInitProcess, after its files have been read
unfoldable pub new_init : ℕ → String → List String → Runc → ℕ → Stdio → InitProcess
new_init self id path runtime trace_id stdio = record {
  self = self;
  id = id;
  init_state = InitState.created;
  path = path;
  runtime = runtime;
  trace_event_id = trace_id;
  wg = 0;
  wait_closed = false;
  stdio = stdio;
  console = none;
  platform = some (record { has_epoller = true });
  io = none;
  stdin = none;
  closers = [];
  status = pos 0;
  exited = none;
  pid = 0;
}

module _ (env : Env) where
  -- runtimeError of a non-nil error
  unfoldable pub runtime_error : Err → String → M InitProcess (Unit {0})
  runtime_error e message = do
    path ← gets (λ p. p.runtime.log)
    last ← tried (get_last_runtime_error env path)
    fail (elim last [
      | inl x ↦ msg (
          cat message (cat ": unable to retrieve OCI runtime error (" (cat (text env.names x) ")")))
      | inr m ↦ if str_eq m "" then e else msg (cat message (cat ": " m))
    ])

  unfoldable pub report : Option Err → String → M InitProcess (Unit {0})
  unfolding runtime_error
  report none message = skip
  report (some e) message = runtime_error e message

  unfoldable pub start : M InitProcess (Unit {0})
  unfolding report
  start = do
    id ← gets (λ p. p.id)
    e ← attempt (call env (runc_start id))
    report e "OCI runtime start failed"

  -- close(p.waitBlock): a second close panics
  unfoldable pub close_wait_block : M InitProcess (Unit {0})
  close_wait_block p l =
      if p.wait_closed
      then panic "close of closed channel"
      else ok tt (record p { wait_closed = true }) l

  release_platform : Option Platform → M InitProcess (Unit {0})
  release_platform none = skip
  release_platform (some platform) = do
    console ← gets (λ p. p.console)
    ignore (shutdown_console env platform console)
    ignore (Platform.close env platform)
    modify (λ p. record p { platform = none })

  -- setExited: `status` is the wait status, a 32-bit word
  unfoldable pub set_exited : ℕ → M InitProcess (Unit {0})
  unfolding release_platform close_wait_block
  set_exited status = do
    t ← time env
    modify (λ p. record p { exited = some t; status = env.exit_status status })
    platform ← gets (λ p. p.platform)
    release_platform platform
    close_wait_block

  close_closers : List ℕ → M InitProcess (Unit {0})
  close_closers [] = skip
  close_closers (c ∷ cs) = do ignore (call env (close_fd c)); close_closers cs

  -- `if p.io != nil { … }` of delete
  release_io : Option ProcessIo → M InitProcess (Unit {0})
  unfolding close_closers
  release_io none = skip
  release_io (some io) = do
    closers ← gets (λ p. p.closers)
    close_closers closers
    ignore (Io.close_io env io)

  -- an error of runc that says the container is gone is dropped
  delete_error : Option Err → M InitProcess (Option Err)
  unfolding runtime_error
  delete_error none = pure none
  delete_error (some e) =
      if does_not_exist env.names e
      then pure none
      else attempt (runtime_error e "failed to delete task")

  -- The unmount's own error is logged only: the error that is returned wraps `err`, which is nil here.
  unmount_error : Option Err → Option Err → Option Err
  unmount_error none e = e
  unmount_error (some x) none = some (wrap_nil "failed rootfs umount")
  unmount_error (some x) (some e) = some e

  unfoldable pub delete : M InitProcess (Unit {0})
  unfolding delete_error release_io unmount_error
  delete = do
    ignore (call env wait_group)
    id ← gets (λ p. p.id)
    e ← attempt (call env (runc_delete id))
    e' ← delete_error e
    io ← gets (λ p. p.io)
    release_io io
    u ← attempt (call env unmount_rootfs)
    give (unmount_error u e')

  unfoldable pub kill : ℕ → Bool → M InitProcess (Unit {0})
  kill signal all = do
    id ← gets (λ p. p.id)
    e ← attempt (call env (runc_kill id signal all))
    give (check_kill_error env.names e)

  -- KillAll sends SIGKILL
  unfoldable pub kill_all : M InitProcess (Unit {0})
  unfolding report
  kill_all = do
    id ← gets (λ p. p.id)
    e ← attempt (call env (runc_kill id 9 true))
    report e "OCI runtime killall failed"

  unfoldable pub resize : M InitProcess (Unit {0})
  resize = do
    console ← gets (λ p. p.console)
    elim console [ none ↦ skip | some handle ↦ (do call env (console_resize handle); skip) ]

  -- traceIDFromContext: the type assertion panics where the context has no trace ID
  trace_id_from_context : Option ℕ → M InitProcess ℕ
  trace_id_from_context none = crash "interface conversion"
  trace_id_from_context (some id) = pure id

  unfoldable pub exec : Option ℕ → String → String → Stdio → M InitProcess ExecProcess
  unfolding trace_id_from_context
  exec ctx exec_id spec io = do
    trace_id ← trace_id_from_context ctx
    call env (decode spec)
    self ← gets (λ p. p.self)
    pure (new_exec self exec_id trace_id io)

  unfoldable pub update : String → M InitProcess (Unit {0})
  update resources = do
    call env (decode resources)
    id ← gets (λ p. p.id)
    call env (runc_update id)
    skip

  unfoldable pub open_stdin : String → M InitProcess (Unit {0})
  open_stdin path = do
    f ← wrapping (wrap "failed to open stdin fifo") (call env (open_fifo path))
    modify (λ p. record p { stdin = some f; closers = p.closers ++ f ∷ [] })

  -- the console of a process with a terminal
  attach_console : Option Platform → M InitProcess (Unit {0})
  attach_console none = crash "nil pointer dereference"
  attach_console (some platform) = do
    console ← wrapping (wrap "failed to retrieve console master") (call env console_receive)
    stdio ← gets (λ p. p.stdio)
    handle ← wrapping (wrap "failed to start console copy") (
        copy_console env (λ p. record p { wg = p.wg + 1 }) platform console stdio.stdin
          stdio.stdout)
    modify (λ p. record p { console = some handle })

  run_create : M InitProcess (Unit {0})
  unfolding report open_stdin
  run_create = do
    id ← gets (λ p. p.id)
    e ← attempt (call env (runc_create id))
    report e "OCI runtime create failed"
    stdin ← gets (λ p. p.stdio.stdin)
    if is_set stdin then open_stdin stdin else skip

  read_pid : M InitProcess (Unit {0})
  read_pid = do
    pid ← wrapping (wrap "failed to retrieve OCI runtime container pid") (call env read_pid_file)
    modify (λ p. record p { pid = pid })

  create_with_terminal : M InitProcess (Unit {0})
  unfolding run_create attach_console read_pid
  create_with_terminal = do
    wrapping (wrap "failed to create OCI runtime console socket") (call env console_socket)
    finally (ignore (call env socket_close))
        (do run_create; platform ← gets (λ p. p.platform); attach_console platform; read_pid)

  create_with_pipes : M InitProcess (Unit {0})
  unfolding run_create read_pid
  create_with_pipes = do
    stdio ← gets (λ p. p.stdio)
    io ← wrapping (wrap "failed to create init process I/O") (create_io env stdio)
    modify (λ p. record p { io = some io })
    run_create
    wrapping (wrap "failed to start io pipe copy") (copy_stdin env io)
    read_pid

  unfoldable pub create : M InitProcess (Unit {0})
  unfolding create_with_terminal create_with_pipes
  create = do
    stdio ← gets (λ p. p.stdio)
    if stdio.terminal then create_with_terminal else create_with_pipes
