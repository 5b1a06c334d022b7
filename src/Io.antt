-- ===== src/Io.antt =====
-- io.go: the pipes and fifos of a process. Stdout and stderr are read-write fifos, stdin is a pipe.
pub mod Leaks
pub mod Frame
pub mod Creation
use embedshim.Prelude.{
  ℕ, String, Bool, true, not, Option, none, some, List, [], ◌∷◌, ◌++◌, str_eq, if◌then◌else◌, inl,
  inr, ◌||◌,
}
use mathlib.Core.Option
use embedshim.GoError.{Err, msg, wrap, is, os_not_exist, os_exist}
use embedshim.Host.{
  Env, M, Stdio, call, call_pair, pure, fail, skip, attempt, ignore, give, on_error, wrapping,
  ◌>>=◌, ◌>>◌, os_pipe, null_io, close_null_io, open_file, open_fifo, stat_file, make_fifo,
  close_fd, fchown, copy_loop,
}

pub record Pipe : Type 0 where
  pub r : ℕ
  pub w : ℕ

pub record PipeIo : Type 0 where
  pub stdin : Option Pipe
  pub stdout : Option ℕ
  pub stderr : Option ℕ

-- runc.IO: runc's null device, or the pipes
pub data RuncIo : Type 0 where
  null_device : RuncIo
  pipes : PipeIo → RuncIo

pub record ProcessIo : Type 0 where
  pub io : RuncIo
  pub stdio : Stdio

-- what newRuncPipeIO keeps for its clean-up
pub data Closer : Type 0 where
  pipe : Pipe → Closer
  file : ℕ → Closer

abbrev pub is_set : String → Bool
is_set s = not (str_eq s "")

-- the fields of runc.IOOption that the code uses
pub record IoOption : Type 0 where
  pub open_stdin : Bool
  pub open_stdout : Bool
  pub open_stderr : Bool

abbrev default_io_option : IoOption
default_io_option = record { open_stdin = true; open_stdout = true; open_stderr = true }

abbrev with_conditional_io : Stdio → IoOption → IoOption
with_conditional_io c o = record o {
  open_stdin = is_set c.stdin;
  open_stdout = is_set c.stdout;
  open_stderr = is_set c.stderr;
}

module _ (env : Env) {S : Type 0} where
  pub new_pipe : M S Pipe
  new_pipe = do (r, w) ← call_pair env os_pipe; pure (record { r = r; w = w })

  -- (*pipe).Close: both ends are closed, the first error is returned
  pub close_pipe : Pipe → M S (Unit {0})
  close_pipe p = do
    e ← attempt (call env (close_fd p.w))
    e' ← attempt (call env (close_fd p.r))
    give (elim e [ none ↦ e' | some x ↦ some x ])

  pub close_closer : Closer → M S (Unit {0})
  unfolding close_pipe
  close_closer (pipe p) = close_pipe p
  close_closer (file f) = do call env (close_fd f); skip

  pub close_all : List Closer → M S (Unit {0})
  unfolding close_closer
  close_all [] = skip
  close_all (c ∷ cs) = do ignore (close_closer c); close_all cs

module _ (env : Env) {S A : Type 0} where
  -- the deferred clean-up, at a point where `opened` stands in the variable `pipes`
  pub guarded : List Closer → M S A → M S A
  unfolding close_all
  guarded opened m = on_error (λ _. close_all env opened) m

module _ (env : Env) {S : Type 0} where
  make_missing : String → Err → M S (Unit {0})
  make_missing path e =
      if is e os_not_exist
      then (do
        made ← attempt (call env (make_fifo path))
        elim made [
          | none ↦ skip
          | some x ↦ if is x os_exist then skip else fail (wrap "error creating fifo" x)
        ])
      else fail e

  -- openRWFifo
  pub open_rw_fifo : String → M S ℕ
  unfolding make_missing
  open_rw_fifo path = do
    found ← attempt (call env (stat_file path))
    elim found [ none ↦ skip | some e ↦ make_missing path e ]
    call env (open_file path)

  pub stdin_part : Bool → M S (Option Pipe × List Closer)
  unfolding guarded new_pipe
  stdin_part wanted =
      if wanted
      then (do
        p ← guarded env [] (new_pipe env)
        guarded env (pipe p ∷ []) (wrapping (wrap "failed to chown stdin") (call env (fchown p.r)))
        pure (some p, pipe p ∷ []))
      else pure (none, [])

  -- the same code for stdout and for stderr
  pub fifo_part : Bool → String → String → List Closer → M S (Option ℕ × List Closer)
  unfolding guarded open_rw_fifo
  fifo_part wanted chown_failed path opened =
      if wanted
      then (do
        f ← guarded env opened (open_rw_fifo path)
        guarded env (opened ++ file f ∷ []) (wrapping (wrap chown_failed) (call env (fchown f)))
        pure (some f, opened ++ file f ∷ []))
      else pure (none, opened)

  pub new_runc_pipe_io : Stdio → M S PipeIo
  unfolding stdin_part fifo_part
  new_runc_pipe_io stdio = do
    let option = with_conditional_io stdio default_io_option
    (stdin, opened) ← stdin_part option.open_stdin
    (stdout, opened') ← fifo_part option.open_stdout "failed to chown stdout" stdio.stdout opened
    (stderr, _) ← fifo_part option.open_stderr "failed to chown stderr" stdio.stderr opened'
    pure (record { stdin = stdin; stdout = stdout; stderr = stderr })

  by_scheme : String → Stdio → M S ProcessIo
  unfolding new_runc_pipe_io
  by_scheme scheme stdio =
      if str_eq scheme "" || str_eq scheme "fifo"
      then (do io ← new_runc_pipe_io stdio; pure (record { io = pipes io; stdio = stdio }))
      else fail (msg "unknown STDIO scheme")

  pub create_io : Stdio → M S ProcessIo
  unfolding by_scheme
  create_io stdio =
      if env.is_null stdio
      then (do call env null_io; pure (record { io = null_device; stdio = stdio }))
      else elim (env.url_scheme stdio.stdout) [
        | inl e ↦ fail (wrap "unable to parse stdout uri" e)
        | inr scheme ↦ by_scheme scheme stdio
      ]

  -- (*pipeIO).Close: every part is closed, the first error is returned
  close_part : Option Closer → Option Err → M S (Option Err)
  unfolding close_closer
  close_part none first = pure first
  close_part (some c) first = do
    e ← attempt (close_closer env c)
    pure (elim first [ none ↦ e | some x ↦ some x ])

  pub close_pipe_io : PipeIo → M S (Unit {0})
  unfolding close_part
  close_pipe_io i = do
    e ← close_part (Option.map pipe i.stdin) none
    e' ← close_part (Option.map file i.stdout) e
    e'' ← close_part (Option.map file i.stderr) e'
    give e''

  -- (*processIO).Close
  pub close_io : ProcessIo → M S (Unit {0})
  unfolding close_pipe_io
  close_io p = elim p.io [
    | null_device ↦ (do call env close_null_io; skip)
    | pipes i ↦ close_pipe_io i
  ]

  close_file : Option ℕ → M S (Unit {0})
  close_file none = skip
  close_file (some f) = ignore (call env (close_fd f))

  -- (*pipeIO).CloseAfterStart
  pub close_after_start : PipeIo → M S (Unit {0})
  unfolding close_file
  close_after_start i = do close_file i.stdout; close_file i.stderr

  -- (*processIO).CopyStdin: the copy runs in a goroutine of its own
  unfoldable pub copy_stdin : ProcessIo → M S (Unit {0})
  copy_stdin p =
      if is_set p.stdio.stdin
      then (do
        f ← wrapping (wrap "opening failed") (call env (open_fifo p.stdio.stdin))
        ignore (call env (copy_loop f))
        skip)
      else skip
