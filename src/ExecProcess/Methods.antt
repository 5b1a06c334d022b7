-- ===== src/ExecProcess/Methods.antt =====
-- exec_process.go: the methods that the states of exec_process_state.go call, but for `start`.
pub mod Frame
use embedshim.PidFd.SysCalls
use embedshim.Prelude.{
  path_text, ℕ, ◌+◌, String, true, List, [], ◌∷◌, ◌++◌, Option, none, some, cat, ◌==◌,
  if◌then◌else◌,
}
use embedshim.GoError.{wrap, sentinel, failed_precondition, not_found}
use embedshim.RuncLog.{classify_kill}
use embedshim.Io
use embedshim.Io.{ProcessIo, is_set, copy_stdin}
use embedshim.Platform.{Platform, copy_console, shutdown_console}
use embedshim.ExecProcess.Types.{ExecProcess}
use embedshim.InitProcess.{InitProcess}
use embedshim.World.{World, on_exec, set_exec}
use embedshim.Host.{
  Env, M, ok, panic, call, time, fail, crash, skip, gets, modify, ignore, wrapping, ◌>>=◌, ◌>>◌,
  close_fd, wait_group, remove_file, console_resize, pidfd_send_signal, open_fifo, console_receive,
}

-- close(e.waitBlock): a second close panics
unfoldable pub close_wait_block : M ExecProcess (Unit {0})
close_wait_block e l =
    if e.wait_closed
    then panic "close of closed channel"
    else ok tt (record e { wait_closed = true }) l

-- pidFilePath, processJSONPath, in the folder of the bundle
abbrev pub pid_file_path : InitProcess → ExecProcess → String
pid_file_path p e = path_text (cat e.id ".pid" ∷ p.path)

abbrev pub process_json_path : InitProcess → ExecProcess → String
process_json_path p e = path_text (cat e.id ".json" ∷ p.path)

module _ (env : Env) where
  unfoldable pub shutdown_parent : Option Platform → Option ℕ → M World (Unit {0})
  shutdown_parent none console = skip
  shutdown_parent (some platform) console = ignore (shutdown_console env platform console)

  -- setExited: `status` is the wait status, a 32-bit word
  unfoldable pub set_exited : ℕ → ℕ → M World (Unit {0})
  unfolding shutdown_parent close_wait_block
  set_exited a status = do
    t ← time env
    on_exec a (modify (λ e. record e { status = env.exit_status status; exited = some t }))
    e ← gets (λ w. w.execs a)
    platform ← gets (λ w. (w.inits e.parent).platform)
    shutdown_parent platform e.console
    on_exec a close_wait_block

  close_closers : List ℕ → M World (Unit {0})
  close_closers [] = skip
  close_closers (c ∷ cs) = do ignore (call env (close_fd c)); close_closers cs

  release_io : Option ProcessIo → M World (Unit {0})
  release_io none = skip
  release_io (some io) = ignore (Io.close_io env io)

  -- delete returns nil whatever happens
  unfoldable pub delete : ℕ → M World (Unit {0})
  unfolding release_io close_closers
  delete a = do
    ignore (call env wait_group)
    e ← gets (λ w. w.execs a)
    release_io e.io
    close_closers e.closers
    p ← gets (λ w. w.inits e.parent)
    ignore (call env (remove_file (pid_file_path p e)))
    ignore (call env (remove_file (process_json_path p e)))

  resize_console : Option ℕ → M World (Unit {0})
  resize_console none = skip
  resize_console (some handle) = do call env (console_resize handle); skip

  unfoldable pub resize : ℕ → M World (Unit {0})
  unfolding resize_console
  resize a = do e ← gets (λ w. w.execs a); resize_console e.console

  send : ExecProcess → ℕ → Option ℕ → M World (Unit {0})
  send e signal (some t) = fail (wrap "process already finished" (sentinel not_found))
  send e signal none = do
    wrapping (λ x. wrap "exec kill error" (classify_kill env.names x))
        (SysCalls.send_signal env e.pid_fd signal)
    skip

  unfoldable pub kill : ℕ → ℕ → M World (Unit {0})
  unfolding send
  kill a signal = do
    e ← gets (λ w. w.execs a)
    if e.pid == 0
        then fail (wrap "process not created" (sentinel failed_precondition))
        else send e signal e.exited

  unfoldable pub open_stdin : ℕ → String → M World (Unit {0})
  open_stdin a path = do
    f ← wrapping (wrap "failed to open stdin fifo") (call env (open_fifo path))
    on_exec a (modify (λ e. record e { stdin = some f; closers = e.closers ++ f ∷ [] }))

  attach_console : ℕ → ExecProcess → Option Platform → M World (Unit {0})
  attach_console a e none = crash "nil pointer dereference"
  attach_console a e (some platform) = do
    console ← wrapping (wrap "failed to retrieve console master") (call env console_receive)
    handle ← wrapping (wrap "failed to start console copy") (
        copy_console env (λ w. set_exec a w (record (w.execs a) { wg = (w.execs a).wg + 1 }))
          platform console e.stdio.stdin e.stdio.stdout)
    on_exec a (modify (λ x. record x { console = some handle }))

  -- `pio` is nil exactly for a process with a terminal
  copies : ℕ → ExecProcess → Option ProcessIo → M World (Unit {0})
  unfolding attach_console
  copies a e (some io) = wrapping (wrap "failed to start io pipe copy") (copy_stdin env io)
  copies a e none = do
    platform ← gets (λ w. (w.inits e.parent).platform)
    attach_console a e platform

  unfoldable pub handle_io_after_exec : ℕ → Option ProcessIo → M World (Unit {0})
  unfolding copies open_stdin
  handle_io_after_exec a pio = do
    e ← gets (λ w. w.execs a)
    if is_set e.stdio.stdin then open_stdin a e.stdio.stdin else skip
    copies a e pio
