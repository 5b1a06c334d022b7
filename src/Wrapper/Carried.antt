-- ===== src/Wrapper/Carried.antt =====
-- pkg/runcext/utils.go and cmd/embedshim-runcext: the runtime command of the wrapper is the
-- one that the shim would have run.
use mathlib.Core.List.{append_assoc}
use embedshim.Prelude.{
  String, true, false, some, Option, List, [], ◌∷◌, ◌++◌, ◌⊎◌, inr, ◌≡◌, refl, str_eq,
}
use embedshim.GoError.{Err}
use embedshim.RuncExt.Command.{
  Runc, ExecOpts, runtime_command, runc_exec_opts_args, option_args, switch_args,
}
use embedshim.Wrapper.Args.{
  Shell, Cli, new_runtime, path_args, get_exec_args, get_exec_pid_file_path,
}
use embedshim.Wrapper.CommandLine.{Accepts}
use embedshim.Wrapper.Forwarding.{IsForwarded, runtime_command-new_runtime}
use embedshim.Wrapper.Asked.{Asks, IsCarried, exec_words, socket_text, runtime_command-Asks}

-- filepath.Abs leaves an absolute path as it is
pub record IsFixed (shell : Shell) (path : String) : Type 0 where
  pub set : str_eq path "" ≡ false
  pub absolute : shell.abs path ≡ inr path

-- the arguments that the wrapper gives its runtime after those of the runtime itself
abbrev pub asked_words : ExecOpts → String → String → String → List String
asked_words opts path pid_path cid =
    "exec" ∷ option_args "--console-socket" (socket_text opts.console_socket)
    ++ switch_args "--detach" opts.detach
    ++ "--process" ∷ path ∷ "--pid-file" ∷ pid_path ∷ cid ∷ []

path_args-absolute :
    (shell : Shell) (flag v : String)
    → IsFixed shell v
    → path_args shell flag v ≡ inr (flag ∷ v ∷ [])
unfolding path_args
path_args-absolute shell flag v f = rw f.set (rw f.absolute refl)

get_exec_args-Asks :
    (shell : Shell) (opts : ExecOpts) (path pid_path cid : String) (cli : Cli)
    → Asks opts path pid_path cid cli
    → IsFixed shell path
    → IsFixed shell pid_path
    → get_exec_args shell cli cli.first ≡ inr (asked_words opts path pid_path cid)
unfolding get_exec_args
get_exec_args-Asks shell opts path pid_path cid cli asks p q = rw asks.process (
    rw asks.pid_file (
      rw (path_args-absolute shell "--process" path p) (
        rw (path_args-absolute shell "--pid-file" pid_path q)
          (rw asks.console_socket (rw asks.detach (rw asks.first (simp (append_assoc) refl)))))))

pid_file_path-Asks :
    (shell : Shell) (opts : ExecOpts) (path pid_path cid : String) (cli : Cli)
    → Asks opts path pid_path cid cli
    → IsFixed shell pid_path
    → get_exec_pid_file_path shell cli ≡ inr pid_path
unfolding get_exec_pid_file_path
pid_file_path-Asks shell opts path pid_path cid cli asks q =
    rw asks.pid_file (rw q.set (rw q.absolute refl))

-- The shim's command line for the wrapper is accepted, the wrapper makes of it the words of runc exec
-- for the same process (console socket, detached or not, description, pid file, container), reads the
-- same pid file, and runs with these words the program and the arguments that the shim's own runtime
-- would have run with them. The paths are absolute and the runtime has a root and a log format and no
-- debug, criu and rootless options.
pub runtime_command-Forwards :
    (shell : Shell) (run : List String → Option Cli) (abs : String → Err ⊎ String)
    (environ : List String) (r : Runc) (opts : ExecOpts) (path pid_path cid : String)
    (oargs : List String)
    → Accepts shell run
    → IsForwarded r
    → IsCarried abs r opts pid_path cid
    → runc_exec_opts_args abs opts ≡ inr oargs
    → IsFixed shell path
    → IsFixed shell pid_path
    → (cli : Cli) × (run (runtime_command environ true r (exec_words path oargs cid)).args
        ≡ some cli)
      × (get_exec_args shell cli cli.first ≡ inr (asked_words opts path pid_path cid))
      × (get_exec_pid_file_path shell cli ≡ inr pid_path)
      × ((runtime_command shell.environ false
            (new_runtime cli)
            (asked_words opts path pid_path cid)).path
          ≡ (runtime_command environ false r (asked_words opts path pid_path cid)).path)
      × ((runtime_command shell.environ false
            (new_runtime cli)
            (asked_words opts path pid_path cid)).args
          ≡ (runtime_command environ false r (asked_words opts path pid_path cid)).args)
runtime_command-Forwards shell run abs environ r opts path pid_path cid oargs accepts f c e p q =
    let read =
      runtime_command-Asks shell run abs environ r opts path pid_path cid oargs accepts c e in
    let same =
      runtime_command-new_runtime shell.environ environ r read.0
        (asked_words opts path pid_path cid) read.2 f in
    (
      read.0,
      read.1,
      get_exec_args-Asks shell opts path pid_path cid read.0 read.3 p q,
      pid_file_path-Asks shell opts path pid_path cid read.0 read.3 q,
      same.0,
      same.1,
    )
