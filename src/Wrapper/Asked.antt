-- ===== src/Wrapper/Asked.antt =====
-- pkg/runcext/utils.go and cmd/embedshim-runcext: what the shim asks of the wrapper on the command
-- line and what the wrapper asks of the runtime.
use mathlib.Core.List.{append_assoc}
use mathlib.Core.Sum.{inr-injective}
use embedshim.Prelude.{
  String, Bool, true, false, none, some, Option, List, [], ◌∷◌, ◌++◌, ◌⊎◌, inr, ◌≡◌, refl, str_eq,
  codes, has_prefix, if◌then◌else◌, ap, sym, ◌∙◌,
}
use embedshim.GoError.{Err}
use embedshim.RuncExt.Command.{
  Runc, ExecOpts, runtime_args, runtime_command, runc_exec_opts_args, switch_args,
}
use embedshim.Wrapper.Args.{Shell, Cli}
use embedshim.Wrapper.CommandLine.{
  Accepts, Reads, Given, cli_of, value_given, switch_given, flags_end,
}
use embedshim.Wrapper.Flags.{exec_flags}
use embedshim.Wrapper.Forwarding.{IsParsed}
use embedshim.Wrapper.Reading.{globals_of, globals-Reads, runtime_args-globals, globals-IsParsed}

abbrev pub socket_text : Option String → String
socket_text none = ""
socket_text (some path) = path

-- the words after the subcommand, as invokeRuncExec writes them
abbrev pub exec_words : String → List String → String → List String
exec_words path oargs cid = "exec" ∷ "--process" ∷ path ∷ oargs ++ cid ∷ []

-- `pid_path` is the absolute path of the pid file
pub record Asks (opts : ExecOpts) (path pid_path cid : String) (cli : Cli) : Type 0 where
  pub console_socket : cli.string "console-socket" ≡ socket_text opts.console_socket
  pub detach : cli.bool "detach" ≡ opts.detach
  pub process : cli.string "process" ≡ path
  pub pid_file : cli.string "pid-file" ≡ pid_path
  pub first : cli.first ≡ cid

-- the words for the options of the process, and the flags that they give
abbrev pub option_words : Option String → Bool → String → List String
option_words socket detach pid_path =
    elim socket [ none ↦ [] | some s ↦ "--console-socket" ∷ s ∷ [] ]
    ++ (switch_args "--detach" detach ++ "--pid-file" ∷ pid_path ∷ [])

abbrev locals_of : Option String → Bool → String → String → Given
locals_of socket detach path pid_path =
    ("--process", path)
    ∷ (elim socket [ none ↦ [] | some s ↦ ("--console-socket", s) ∷ [] ]
        ++ ((if detach then ("--detach", "true") ∷ [] else []) ++ ("--pid-file", pid_path) ∷ []))

pub opts_args-words :
    (abs : String → Err ⊎ String) (socket : Option String) (detach : Bool)
    (pid_file pid_path : String)
    → str_eq pid_file "" ≡ false
    → abs pid_file ≡ inr pid_path
    → runc_exec_opts_args abs
        (record { console_socket = socket; detach = detach; pid_file = pid_file })
      ≡ inr (option_words socket detach pid_path)
unfolding runc_exec_opts_args
opts_args-words abs none true f p s a = rw s (rw a refl)
opts_args-words abs none false f p s a = rw s (rw a refl)
opts_args-words abs (some _) true f p s a = rw s (rw a refl)
opts_args-words abs (some _) false f p s a = rw s (rw a refl)

locals-Reads :
    (socket : Option String) (detach : Bool) (path pid_path cid : String)
    → has_prefix (codes cid) (codes "-") ≡ false
    → Reads exec_flags
        ("--process" ∷ path ∷ option_words socket detach pid_path ++ cid ∷ [])
        (locals_of socket detach path pid_path)
        (cid ∷ [])
unfolding exec_flags
locals-Reads none true path pid_path cid w =
    value_given refl (switch_given refl (value_given refl (flags_end (rw w refl))))
locals-Reads none false path pid_path cid w =
    value_given refl (value_given refl (flags_end (rw w refl)))
locals-Reads (some _) true path pid_path cid w =
    value_given refl
      (value_given refl (switch_given refl (value_given refl (flags_end (rw w refl)))))
locals-Reads (some _) false path pid_path cid w =
    value_given refl (value_given refl (value_given refl (flags_end (rw w refl))))

locals-Asks :
    (shell : Shell) (globals : Given) (socket : Option String) (detach : Bool)
    (pid_file path pid_path cid : String)
    → Asks
        (record { console_socket = socket; detach = detach; pid_file = pid_file })
        path
        pid_path
        cid
        (cli_of shell globals (locals_of socket detach path pid_path) cid)
unfolding cli_of exec_flags
locals-Asks shell g none true f path p c = record {
  console_socket = refl;
  detach = refl;
  process = refl;
  pid_file = refl;
  first = refl;
}
locals-Asks shell g none false f path p c = record {
  console_socket = refl;
  detach = refl;
  process = refl;
  pid_file = refl;
  first = refl;
}
locals-Asks shell g (some _) true f path p c = record {
  console_socket = refl;
  detach = refl;
  process = refl;
  pid_file = refl;
  first = refl;
}
locals-Asks shell g (some _) false f path p c = record {
  console_socket = refl;
  detach = refl;
  process = refl;
  pid_file = refl;
  first = refl;
}

-- What can be carried: no criu and no rootless option, an absolute path for the pid file, and a
-- container whose id does not begin with a dash.
pub record IsCarried (abs : String → Err ⊎ String) (r : Runc) (opts : ExecOpts)
    (pid_path cid : String) : Type 0 where
  pub criu : r.criu ≡ ""
  pub rootless : r.rootless ≡ none
  pub set : str_eq opts.pid_file "" ≡ false
  pub absolute : abs opts.pid_file ≡ inr pid_path
  pub word : has_prefix (codes cid) (codes "-") ≡ false

carried-words :
    (abs : String → Err ⊎ String) (r : Runc) (opts : ExecOpts) (pid_path cid : String)
    (oargs : List String)
    → IsCarried abs r opts pid_path cid
    → runc_exec_opts_args abs opts ≡ inr oargs
    → oargs ≡ option_words opts.console_socket opts.detach pid_path
carried-words abs r opts pid_path cid oargs c e = inr-injective _ _ (
    sym e
    ∙ opts_args-words abs opts.console_socket opts.detach opts.pid_file pid_path c.set c.absolute)

-- The wrapper accepts the command line that the shim writes for it and reads back the shim's runtime
-- and what the shim asks of the new process: the socket of its console, whether it is detached, the
-- file of its description, the absolute path of its pid file and the container. The runtime has no
-- criu and no rootless option, and the container's id does not begin with a dash.
pub runtime_command-Asks :
    (shell : Shell) (run : List String → Option Cli) (abs : String → Err ⊎ String)
    (environ : List String) (r : Runc) (opts : ExecOpts) (path pid_path cid : String)
    (oargs : List String)
    → Accepts shell run
    → IsCarried abs r opts pid_path cid
    → runc_exec_opts_args abs opts ≡ inr oargs
    → (cli : Cli) × (run (runtime_command environ true r (exec_words path oargs cid)).args
        ≡ some cli)
      × IsParsed r cli
      × Asks opts path pid_path cid cli
unfolding runtime_command
runtime_command-Asks shell run abs environ r opts path pid_path cid oargs accepts c e = (
  cli_of shell (globals_of r) (locals_of opts.console_socket opts.detach path pid_path) cid,
  ap run (
        append_assoc (runtime_args r) _ _
        ∙ rw (carried-words abs r opts pid_path cid oargs c e)
            (runtime_args-globals r _ c.criu c.rootless))
      ∙ accepts.reads _ _ _ _ _ _ (globals-Reads shell r _)
          (locals-Reads opts.console_socket opts.detach path pid_path cid c.word),
  globals-IsParsed shell r _ cid,
  locals-Asks shell _ opts.console_socket opts.detach opts.pid_file path pid_path cid,
)
