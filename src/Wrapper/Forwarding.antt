-- ===== src/Wrapper/Forwarding.antt =====
-- pkg/runcext/utils.go and cmd/embedshim-runcext/exec.go: the wrapper runs the runtime that the shim
-- would have run.
use embedshim.Prelude.{String, false, none, List, ◌≡◌, refl, str_eq, Bool-cases, inl, inr}
use embedshim.RuncExt.Command.{Runc, command_of, runtime_args, runtime_command}
use embedshim.Wrapper.Args.{Cli, new_runtime}

-- What the parser of the command line promises for the flags that RuntimeCommand writes: a flag that
-- is given has its value, and --log and --systemd-cgroup are empty and off if they are not given.
pub record IsParsed (r : Runc) (cli : Cli) : Type 0 where
  pub command : cli.global_string "command" ≡ command_of r
  pub root : str_eq r.root "" ≡ false → cli.global_string "root" ≡ r.root
  pub log : cli.global_string "log" ≡ r.log
  pub log_format : str_eq r.log_format "" ≡ false → cli.global_string "log-format" ≡ r.log_format
  pub systemd_cgroup : cli.global_bool "systemd-cgroup" ≡ r.systemd_cgroup

-- what the wrapper has flags for
pub record IsForwarded (r : Runc) : Type 0 where
  pub root : str_eq r.root "" ≡ false
  pub log_format : str_eq r.log_format "" ≡ false
  pub debug : r.debug ≡ false
  pub criu : r.criu ≡ ""
  pub rootless : r.rootless ≡ none

command_of-nonempty : (r : Runc) → str_eq (command_of r) "" ≡ false
command_of-nonempty r = elim (Bool-cases (str_eq r.command "")) [
  | inl h ↦ rw h refl
  | inr h ↦ rw h h
]

-- The command that the wrapper runs for a subcommand is the command that RuntimeCommand makes of the
-- shim's own runtime for it, up to the wrapper's process attributes: the same program and the same
-- arguments. This is for a runtime with a root and a log format and without debug, criu and rootless
-- options, for which the wrapper has no use.
pub runtime_command-new_runtime :
    (environ environ' : List String) (r : Runc) (cli : Cli) (args : List String)
    → IsParsed r cli
    → IsForwarded r
    → ((runtime_command environ false (new_runtime cli) args).path
        ≡ (runtime_command environ' false r args).path)
      × ((runtime_command environ false (new_runtime cli) args).args
          ≡ (runtime_command environ' false r args).args)
unfolding runtime_command new_runtime runtime_args
runtime_command-new_runtime environ environ' r cli args p f = (
  rw p.command (rw (command_of-nonempty r) refl),
  rw (p.root f.root) (
      rw p.log (
        rw (p.log_format f.log_format)
          (rw p.systemd_cgroup (rw f.debug (rw f.criu (rw f.rootless refl)))))),
)
