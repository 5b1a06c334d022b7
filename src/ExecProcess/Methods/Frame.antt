-- ===== src/ExecProcess/Methods/Frame.antt =====
-- Which methods of an exec process leave its state machine as it is.
use embedshim.Platform.Frame.{copy_console-Keeps}
use embedshim.Platform.{Platform}
use embedshim.ExecProcess.Seen.{seen, KeepsExec, on_exec-Keeps}
use embedshim.Prelude.{◌+◌, ℕ, String, Option, none, some, List, [], ◌∷◌, ◌≡◌, refl}
use embedshim.Host.{Env, close_fd}
use embedshim.Host.Quiet.{Quiet, quiet_rules, Quiet-then, Quiet-ignore, Quiet-call}
use embedshim.Host.Keeps.{keeps_rules}
use embedshim.Io.{ProcessIo}
use embedshim.Io.Frame.{copy_stdin-Quiet, close_io-Quiet}
use embedshim.ExecProcess.Types.{ExecProcess}
use embedshim.ExecProcess.Methods
use embedshim.World.{set_exec, World, eq_self}

module _ (env : Env) (a : ℕ) where
  close_closers-Quiet : (cs : List ℕ) → Quiet (Methods.close_closers env cs)
  unfolding Methods.close_closers
  close_closers-Quiet [] = search quiet_rules
  close_closers-Quiet (c ∷ cs) =
      Quiet-then _ (Methods.close_closers env cs) (Quiet-ignore _ (Quiet-call env (close_fd c)))
        (close_closers-Quiet cs)

  release_io-Quiet : (io : Option ProcessIo) → Quiet (Methods.release_io env io)
  unfolding Methods.release_io
  release_io-Quiet none = search quiet_rules
  release_io-Quiet (some io) = search (quiet_rules, close_io-Quiet)

  pub delete-Quiet : Quiet (Methods.delete env a)
  unfolding Methods.delete
  delete-Quiet = search (quiet_rules, close_closers-Quiet, release_io-Quiet) depth 12

  resize_console-Quiet : (c : Option ℕ) → Quiet (Methods.resize_console env c)
  unfolding Methods.resize_console
  resize_console-Quiet none = search quiet_rules
  resize_console-Quiet (some h) = search quiet_rules

  pub resize-Quiet : Quiet (Methods.resize env a)
  unfolding Methods.resize
  resize-Quiet = search (quiet_rules, resize_console-Quiet)

  send-Quiet : (e : ExecProcess) (signal : ℕ) (t : Option ℕ) → Quiet (Methods.send env e signal t)
  unfolding Methods.send
  send-Quiet e signal none = search quiet_rules
  send-Quiet e signal (some t) = search quiet_rules

  pub kill-Quiet : (signal : ℕ) → Quiet (Methods.kill env a signal)
  unfolding Methods.kill
  kill-Quiet signal = search (quiet_rules, send-Quiet)

  open_stdin-Keeps : (path : String) → KeepsExec a (Methods.open_stdin env a path)
  unfolding Methods.open_stdin
  open_stdin-Keeps path = search (keeps_rules, quiet_rules, on_exec-Keeps a)

  counted :
      (w : World)
      → seen a (set_exec a w (record (w.execs a) { wg = (w.execs a).wg + 1 })) ≡ seen a w
  counted w = rw (eq_self a) refl

  attach_console-Keeps :
      (e : ExecProcess) (p : Option Platform) → KeepsExec a (Methods.attach_console env a e p)
  unfolding Methods.attach_console
  attach_console-Keeps e none = search keeps_rules
  attach_console-Keeps e (some p) =
      search (keeps_rules, quiet_rules, copy_console-Keeps, on_exec-Keeps a, counted)

  copies-Keeps :
      (e : ExecProcess) (pio : Option ProcessIo) → KeepsExec a (Methods.copies env a e pio)
  unfolding Methods.copies
  copies-Keeps e none = search (keeps_rules, quiet_rules, attach_console-Keeps)
  copies-Keeps e (some io) = search (keeps_rules, quiet_rules, copy_stdin-Quiet)

  pub handle_io_after_exec-Keeps :
      (pio : Option ProcessIo) → KeepsExec a (Methods.handle_io_after_exec env a pio)
  unfolding Methods.handle_io_after_exec
  handle_io_after_exec-Keeps pio = search (keeps_rules, quiet_rules, open_stdin-Keeps, copies-Keeps)
