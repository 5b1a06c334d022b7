-- ===== src/Wrapper.antt =====
-- cmd/embedshim-runcext: the wrapper of runc exec, which tells the shim the pid and an early exit of
-- the new process. It is a process of its own, with calls and a log of its own.
pub mod Acts
pub mod Args
pub mod Asked
pub mod Carried
pub mod CommandLine
pub mod Flags
pub mod Forwarding
pub mod Reading
pub mod Reap
pub mod Started
pub mod Talk
use embedshim.PidFd.SysCalls
use embedshim.Prelude.{
  ℕ, zero, suc, String, Bool, true, false, Option, none, some, List, [], ◌∷◌, ◌⊎◌, inl, inr, ◌==◌,
  str_eq, if◌then◌else◌,
}
use embedshim.GoError.{Err, msg, wrap, is, sentinel, eintr, eof, text}
use embedshim.RuncExt.{write_proc_sync_message, read_proc_sync}
use embedshim.RuncExt.Command.{Cmd, runtime_command}
use embedshim.RuncExt.Types.{
  ProcSync, ProcSyncType, exec_pid_done, exec_status_done, new_exec_pid_message,
  new_exec_status_message, new_error_message,
}
use embedshim.Wrapper.Args.{
  Shell, Cli, new_runtime, get_exec_args, get_exec_pid_file_path, get_proc_sync_pipe,
}
use embedshim.Host.{
  Env, M, ok, call, pure, fail, crash, skip, ignore, tried, on_error, wrapping, return_both, ◌>>=◌,
  ◌>>◌, run_command, read_pid_file, kill_process, pidfd_open, waitid, reap, file_close,
}

module _ (env : Env) {S : Type 0} where
  -- the decoder's next result on the pipe
  next_message : M S (Err ⊎ ProcSync)
  next_message s l = ok (elim (env.messages l) [ [] ↦ inl (sentinel eof) | ◌∷◌ m ms ↦ m ]) s l

  unfoldable pub sync_parent_exec_pid : ℕ → M S (Unit {0})
  unfolding next_message new_exec_pid_message
  sync_parent_exec_pid pid = do
    wrapping (wrap "failed to sync") (write_proc_sync_message env (new_exec_pid_message pid))
    reply ← next_message
    read_proc_sync exec_pid_done reply

  -- The loop over Wait4, for at most this many rounds; `none` if all of them were interrupted.
  unfoldable pub reap_loop : ℕ → ℕ → M S (Option (Err ⊎ ℕ))
  reap_loop zero pid = pure none
  reap_loop (suc rounds) pid = do
    r ← tried (call env (reap pid))
    elim r [
      | inr status ↦ pure (some (inr status))
      | inl e ↦ if is e eintr then reap_loop rounds pid else pure (some (inl e))
    ]

  reaped : Option (Err ⊎ ℕ) → M S ℕ
  reaped none = crash "interrupted for ever"
  reaped (some r) = wrapping (wrap "failed to reap the exit process status") (return_both r)

  -- whether the process has exited already, and its wait status
  early_exit : ℕ → ℕ → ℕ → M S (Bool × ℕ)
  unfolding reap_loop reaped
  early_exit rounds pid info_pid =
      if info_pid == 0
      then pure (false, 0)
      else (do r ← reap_loop rounds pid; status ← reaped r; pure (true, status))

  unfoldable pub sync_parent_exec_status : ℕ → ℕ → ℕ → M S (Unit {0})
  unfolding next_message early_exit new_exec_status_message
  sync_parent_exec_status rounds fd pid = do
    info_pid ← wrapping (wrap "failed to check exec process status") (SysCalls.wait_id env fd)
    (exited, status) ← early_exit rounds pid info_pid
    wrapping (wrap "failed to sync")
        (write_proc_sync_message env (new_exec_status_message exited status))
    reply ← next_message
    read_proc_sync exec_status_done reply

  -- the new process is killed if its pid or its state cannot be told
  unfoldable pub tell_parent : ℕ → ℕ → M S (Unit {0})
  unfolding sync_parent_exec_pid sync_parent_exec_status
  tell_parent rounds pid =
      on_error (λ _. ignore (call env (kill_process pid)))
        (do
          fd ← wrapping (wrap "failed to open pidfd on exec process") (SysCalls.open_fd env pid)
          sync_parent_exec_pid pid
          sync_parent_exec_status rounds fd pid)

  module _ (shell : Shell) (cli : Cli) (rounds : ℕ) where
    -- the function whose error is sent to the parent
    unfoldable pub exec_and_tell : ℕ → M S (Unit {0})
    unfolding tell_parent
    exec_and_tell pipe = do
      args ←
          wrapping (wrap "failed to get exec arguments")
            (return_both (get_exec_args shell cli cli.first))
      let cmd = runtime_command shell.environ false (new_runtime cli) args
      wrapping (wrap "failed to run") (call env (run_command cmd.path cmd.args))
      pid ← wrapping (wrap "failed to read exec pid from file") (call env read_pid_file)
      tell_parent rounds pid
      ignore (call env (file_close pipe))

    told : Err ⊎ Unit {0} → M S (Unit {0})
    told (inr _) = skip
    told (inl e) = write_proc_sync_message env (new_error_message (text env.names e))

    -- runExec
    unfoldable pub run_exec : M S (Unit {0})
    unfolding exec_and_tell told
    run_exec = do
      return_both (get_exec_pid_file_path shell cli)
      pipe ← return_both (get_proc_sync_pipe shell)
      r ← tried (exec_and_tell pipe)
      on_error (λ _. ignore (call env (file_close pipe))) (told r)
