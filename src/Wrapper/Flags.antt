-- ===== src/Wrapper/Flags.antt =====
-- cmd/embedshim-runcext/app.go and exec.go: the flags that the wrapper declares for urfave/cli,
-- without their usage texts.
use embedshim.Prelude.{String, Option, none, some, List, [], ◌∷◌}
use embedshim.Wrapper.Args.{Shell, default_runc_root}

-- cli.StringFlag, BoolFlag, StringSliceFlag, Int64SliceFlag, IntFlag
pub data FlagType : Type 0 where
  string_flag : FlagType
  bool_flag : FlagType
  string_slice_flag : FlagType
  int64_slice_flag : FlagType
  int_flag : FlagType

-- a Name of the form "env, e" is a name and an alias
pub record Flag : Type 0 where
  pub type : FlagType
  pub name : String
  pub alias : Option String
  pub value : String

abbrev string_named : String → String → Flag
string_named n v = record { type = string_flag; name = n; alias = none; value = v }

abbrev unset : FlagType → String → Option String → Flag
unset t n a = record { type = t; name = n; alias = a; value = "" }

-- app.Flags of newApp
unfoldable pub app_flags : Shell → List Flag
app_flags shell =
    string_named "command" "runc"
    ∷ unset bool_flag "debug" none
    ∷ string_named "log" ""
    ∷ string_named "log-format" "text"
    ∷ string_named "root" (default_runc_root shell)
    ∷ unset bool_flag "systemd-cgroup" none
    ∷ string_named "rootless" "auto"
    ∷ []

-- Flags of execCommand
unfoldable pub exec_flags : List Flag
exec_flags =
    unset string_flag "console-socket" none
    ∷ unset string_flag "cwd" none
    ∷ unset string_slice_flag "env" (some "e")
    ∷ unset bool_flag "tty" (some "t")
    ∷ unset string_flag "user" (some "u")
    ∷ unset int64_slice_flag "additional-gids" (some "g")
    ∷ unset string_flag "process" (some "p")
    ∷ unset bool_flag "detach" (some "d")
    ∷ string_named "pid-file" ""
    ∷ unset string_flag "process-label" none
    ∷ unset string_flag "apparmor" none
    ∷ unset bool_flag "no-new-privs" none
    ∷ unset string_slice_flag "cap" (some "c")
    ∷ unset int_flag "preserve-fds" none
    ∷ unset string_slice_flag "cgroup" none
    ∷ unset bool_flag "ignore-paused" none
    ∷ []
