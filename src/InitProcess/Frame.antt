-- ===== src/InitProcess/Frame.antt =====
-- The methods of the init process that change none of its fields: all of them but Create, setExited
-- and openStdin. What they do is calls of runc and of the kernel.
use embedshim.Prelude.{String, ℕ, Bool, Option, none, some, List, [], ◌∷◌}
use embedshim.GoError.{Err}
use embedshim.Host.{Env, close_fd, Stdio}
use embedshim.Host.Quiet.{Quiet, quiet_rules, Quiet-then, Quiet-ignore, Quiet-call}
use embedshim.Io
use embedshim.Io.{ProcessIo, PipeIo, Closer, RuncIo, null_device, pipes, file, pipe}
use embedshim.InitProcess
use embedshim.InitProcess.{InitProcess}
use embedshim.RuncLog.{get_last_runtime_error}
use embedshim.RuncLog

module _ (env : Env) {S : Type 0} where
  pub last_error-Quiet : (path : String) → Quiet {S = S} (get_last_runtime_error env path)
  unfolding get_last_runtime_error
  last_error-Quiet path = search (quiet_rules, RuncLog.read_entries-Quiet) depth 9

module _ (env : Env) where
  runtime_error-Quiet : (e : Err) (m : String) → Quiet (InitProcess.runtime_error env e m)
  unfolding InitProcess.runtime_error
  runtime_error-Quiet e m = search (quiet_rules, last_error-Quiet) depth 9

  report-Quiet : (e : Option Err) (m : String) → Quiet (InitProcess.report env e m)
  unfolding InitProcess.report
  report-Quiet none m = search quiet_rules
  report-Quiet (some e) m = runtime_error-Quiet e m

  pub start-Quiet : Quiet (InitProcess.start env)
  unfolding InitProcess.start
  start-Quiet = search (quiet_rules, report-Quiet)

  pub kill-Quiet : (signal : ℕ) (all : Bool) → Quiet (InitProcess.kill env signal all)
  unfolding InitProcess.kill
  kill-Quiet signal all = search quiet_rules

  pub kill_all-Quiet : Quiet (InitProcess.kill_all env)
  unfolding InitProcess.kill_all
  kill_all-Quiet = search (quiet_rules, report-Quiet)

  pub update-Quiet : (r : String) → Quiet (InitProcess.update env r)
  unfolding InitProcess.update
  update-Quiet r = search quiet_rules

  pub exec-Quiet :
      (ctx : ℕ) (id spec : String) (io : Stdio) → Quiet (InitProcess.exec env (some ctx) id spec io)
  unfolding InitProcess.exec
  exec-Quiet ctx id spec io = search quiet_rules

  close_closers-Quiet : (cs : List ℕ) → Quiet (InitProcess.close_closers env cs)
  unfolding InitProcess.close_closers
  close_closers-Quiet [] = search quiet_rules
  close_closers-Quiet (c ∷ cs) =
      Quiet-then _ (InitProcess.close_closers env cs) (Quiet-ignore _ (Quiet-call env (close_fd c)))
        (close_closers-Quiet cs)

  release_io-Quiet : (io : Option ProcessIo) → Quiet (InitProcess.release_io env io)
  unfolding InitProcess.release_io
  release_io-Quiet none = search quiet_rules
  release_io-Quiet (some io) = search (quiet_rules, close_closers-Quiet, Io.Frame.close_io-Quiet)

  delete_error-Quiet : (e : Option Err) → Quiet (InitProcess.delete_error env e)
  unfolding InitProcess.delete_error
  delete_error-Quiet none = search quiet_rules
  delete_error-Quiet (some e) = search (quiet_rules, runtime_error-Quiet)

  pub delete-Quiet : Quiet (InitProcess.delete env)
  unfolding InitProcess.delete
  delete-Quiet = search (quiet_rules, delete_error-Quiet, release_io-Quiet) depth 12
