-- ===== src/Io/Frame.antt =====
-- Closing a process's I/O leaves the state of the process as it is.
use embedshim.Prelude.{ℕ, Option, none, some}
use embedshim.GoError.{Err}
use embedshim.Host.{Env}
use embedshim.Host.Quiet.{Quiet, quiet_rules}
use embedshim.Io.{
  PipeIo, ProcessIo, Closer, pipe, file, RuncIo, null_device, pipes, close_closer, close_part,
  close_pipe_io, close_io, copy_stdin, close_file, close_after_start,
}

module _ (env : Env) {S : Type 0} where
  pub close_closer-Quiet : (c : Closer) → Quiet {S = S} (close_closer env c)
  unfolding close_closer
  close_closer-Quiet (pipe p) = search quiet_rules depth 7
  close_closer-Quiet (file f) = search quiet_rules

  close_part-Quiet : (c : Option Closer) (e : Option Err) → Quiet {S = S} (close_part env c e)
  unfolding close_part
  close_part-Quiet none e = search quiet_rules
  close_part-Quiet (some c) e = search (quiet_rules, close_closer-Quiet)

  close_pipe_io-Quiet : (i : PipeIo) → Quiet {S = S} (close_pipe_io env i)
  unfolding close_pipe_io
  close_pipe_io-Quiet i = search (quiet_rules, close_part-Quiet) depth 7

  runc_io-Quiet : (p : ProcessIo) (r : RuncIo) → Quiet {S = S} (close_io env (record p { io = r }))
  unfolding close_io
  runc_io-Quiet p null_device = search quiet_rules
  runc_io-Quiet p (pipes i) = close_pipe_io-Quiet i

  pub close_io-Quiet : (p : ProcessIo) → Quiet {S = S} (close_io env p)
  close_io-Quiet p = runc_io-Quiet p p.io

  pub copy_stdin-Quiet : (p : ProcessIo) → Quiet {S = S} (copy_stdin env p)
  unfolding copy_stdin
  copy_stdin-Quiet p = search quiet_rules depth 8

  close_file-Quiet : (o : Option ℕ) → Quiet {S = S} (close_file env o)
  unfolding close_file
  close_file-Quiet none = search quiet_rules
  close_file-Quiet (some f) = search quiet_rules

  pub close_after_start-Quiet : (i : PipeIo) → Quiet {S = S} (close_after_start env i)
  unfolding close_after_start
  close_after_start-Quiet i = search (quiet_rules, close_file-Quiet)
