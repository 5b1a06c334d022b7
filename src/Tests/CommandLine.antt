-- ===== src/Tests/CommandLine.antt =====
-- The command line of the exec wrapper: a parser that reads it as urfave/cli documents, and a run.
use embedshim.Prelude.{
  String, true, false, Option, none, some, List, [], ◌∷◌, ◌≡◌, refl, inr, str_eq, if◌then◌else◌,
}
use embedshim.ExecProcess.Start.{start_wrapper}
use embedshim.ExecProcess.Types.{ExecProcess, new_exec}
use embedshim.Host.{Env}
use embedshim.Tests.{stdio, world_of, live_task, kind_env}
use embedshim.Wrapper.Started.{IsStarted, Leaves, start_wrapper-IsStarted}
use embedshim.InitProcess.Load.{new_runc_runtime}
use embedshim.RuncExt.Command.{Runc, ExecOpts, runtime_command, runc_exec_opts_args}
use embedshim.Wrapper.Args.{Shell, Cli, new_runtime, get_exec_args, get_exec_pid_file_path}
use embedshim.Wrapper.Asked.{Asks, IsCarried, exec_words, runtime_command-Asks}
use embedshim.Wrapper.Carried.{asked_words, runtime_command-Forwards}
use embedshim.Wrapper.CommandLine.{
  Accepts, Reads, Given, Word, cli_of, kind_of, takes_value, is_switch, unknown, plain, value_given,
  switch_given, flags_end,
}
use embedshim.Wrapper.Flags.{Flag, exec_flags, app_flags}
use embedshim.Wrapper.Forwarding.{IsParsed, IsForwarded}

abbrev Parsed : Type 0
Parsed = Option (Given × List String)

abbrev adding : String → String → Parsed → Parsed
adding w v none = none
adding w v (some (given, rest)) = some ((w, v) ∷ given, rest)

-- the results if the word takes a value and if it does not
abbrev by_kind : Word → String → List String → Parsed → Parsed → Parsed
by_kind takes_value w ws valued switched = valued
by_kind is_switch w ws valued switched = adding w "true" switched
by_kind unknown w ws valued switched = none
by_kind plain w ws valued switched = some ([], w ∷ ws)

-- the flag that waits for its value, if there is one
abbrev parse : List Flag → List String → Option String → Parsed
parse fs [] p = none
parse fs (v ∷ vs) (some w) = adding w v (parse fs vs none)
parse fs (w ∷ ws) none = by_kind (kind_of fs w) w ws (parse fs ws (some w)) (parse fs ws none)

parse-Reads :
    {fs : List Flag} {ws : List String} {given : Given} {rest : List String}
    → Reads fs ws given rest
    → parse fs ws none ≡ some (given, rest)
parse-Reads (value_given k r) = rw k (rw (parse-Reads r) refl)
parse-Reads (switch_given k r) = rw k (rw (parse-Reads r) refl)
parse-Reads (flags_end k) = rw k refl

abbrev finish : Shell → Given → Parsed → Option Cli
finish shell globals (some (locals, cid ∷ more)) = some (cli_of shell globals locals cid)
finish shell globals _ = none

abbrev subcommand : Shell → Parsed → Option Cli
subcommand shell (some (globals, name ∷ words)) =
    if str_eq name "exec" then finish shell globals (parse exec_flags words none) else none
subcommand shell _ = none

abbrev app_run : Shell → List String → Option Cli
app_run shell words = subcommand shell (parse (app_flags shell) words none)

app_run-Accepts : (shell : Shell) → Accepts shell (app_run shell)
app_run-Accepts shell = record {
  reads = λ words words' globals locals cid more r s. rw (parse-Reads r) (rw (parse-Reads s) refl);
}

abbrev shell : Shell
shell = record {
  lookup_env = λ k. none;
  environ = "PATH=/usr/bin" ∷ [];
  atoi = λ t. inr 3;
  abs = λ p. inr p;
  euid = 0;
  in_userns = false;
}

abbrev runtime : Runc
runtime = new_runc_runtime "" ("work" ∷ []) "moby" "" "" true

abbrev opts : ExecOpts
opts = record { console_socket = some "/tmp/pty.sock"; detach = true; pid_file = "/work/exec.pid" }

abbrev oargs : List String
oargs = "--console-socket" ∷ "/tmp/pty.sock" ∷ "--detach" ∷ "--pid-file" ∷ "/work/exec.pid" ∷ []

abbrev exec_command : List String
exec_command =
    (runtime_command shell.environ true runtime (exec_words "/work/exec.json" oargs "web")).args

oargs-written : runc_exec_opts_args shell.abs opts ≡ inr oargs
unfolding runc_exec_opts_args
oargs-written = refl

carried : IsCarried shell.abs runtime opts "/work/exec.pid" "web"
unfolding new_runc_runtime
carried = record { criu = refl; rootless = refl; set = refl; absolute = refl; word = refl }

runtime_command-Asks_example :
    (c : Cli) × (app_run shell exec_command ≡ some c)
    × IsParsed runtime c
    × Asks opts "/work/exec.json" "/work/exec.pid" "web" c
runtime_command-Asks_example =
    runtime_command-Asks shell (app_run shell) shell.abs shell.environ runtime opts
      "/work/exec.json" "/work/exec.pid" "web" oargs (app_run-Accepts shell) carried oargs-written

forwarded : IsForwarded runtime
unfolding new_runc_runtime
forwarded = record { root = refl; log_format = refl; debug = refl; criu = refl; rootless = refl }

abbrev asked : List String
asked = asked_words opts "/work/exec.json" "/work/exec.pid" "web"

runtime_command-Forwards_example :
    (c : Cli) × (app_run shell exec_command ≡ some c)
    × (get_exec_args shell c c.first ≡ inr asked)
    × (get_exec_pid_file_path shell c ≡ inr "/work/exec.pid")
    × ((runtime_command shell.environ false (new_runtime c) asked).path
        ≡ (runtime_command shell.environ false runtime asked).path)
    × ((runtime_command shell.environ false (new_runtime c) asked).args
        ≡ (runtime_command shell.environ false runtime asked).args)
runtime_command-Forwards_example =
    runtime_command-Forwards shell (app_run shell) shell.abs shell.environ runtime opts
      "/work/exec.json" "/work/exec.pid" "web" oargs (app_run-Accepts shell) forwarded carried
      oargs-written (record { set = refl; absolute = refl })
      (record { set = refl; absolute = refl })

abbrev absolute_env : Env
absolute_env = record kind_env { abs = λ p. inr p }

abbrev shell_process : ExecProcess
shell_process = new_exec 1 "sh" 5 stdio

start_wrapper-IsStarted_example :
    Leaves
      (IsStarted (app_run shell) none live_task shell_process "/state/moby/web/sh.pid" [])
      (start_wrapper absolute_env 1 none shell_process (world_of live_task) [])
unfolding new_exec new_runc_runtime
start_wrapper-IsStarted_example =
    start_wrapper-IsStarted shell (app_run shell) absolute_env 1 none shell_process
      "/state/moby/web/sh.pid" (world_of live_task) [] (app_run-Accepts shell)
      (record { criu = refl; rootless = refl; set = refl; absolute = refl; word = refl })
