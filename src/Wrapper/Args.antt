-- ===== src/Wrapper/Args.antt =====
-- cmd/embedshim-runcext/exec.go, utils.go, app.go: the command line and the environment variables of
-- the wrapper. The parser of the command line and the operating system are parameters.
use embedshim.Prelude.{
  ℕ, String, Bool, true, false, Option, none, some, List, [], ◌∷◌, ◌++◌, ◌⊎◌, inl, inr, cat, str_eq,
  not, ◌==◌, if◌then◌else◌,
}
use embedshim.GoError.{Err, msg, wrap}
use embedshim.RuncExt.Command.{Runc, option_args, switch_args}

-- what the wrapper asks of its process: os.LookupEnv, os.Environ, strconv.Atoi, filepath.Abs,
-- os.Geteuid, userns.RunningInUserNS
pub record Shell : Type 0 where
  pub lookup_env : String → Option String
  pub environ : List String
  pub atoi : String → Err ⊎ ℕ
  pub abs : String → Err ⊎ String
  pub euid : ℕ
  pub in_userns : Bool

-- what urfave/cli has parsed: GlobalString, GlobalBool, String, Bool and the first argument
pub record Cli : Type 0 where
  pub global_string : String → String
  pub global_bool : String → Bool
  pub string : String → String
  pub bool : String → Bool
  pub first : String

-- newRuntime; SIGKILL is signal 9
unfoldable pub new_runtime : Cli → Runc
new_runtime cli = record {
  command = cli.global_string "command";
  root = cli.global_string "root";
  debug = false;
  log = cli.global_string "log";
  log_format = cli.global_string "log-format";
  pdeath_signal = 9;
  setpgid = false;
  criu = "";
  systemd_cgroup = cli.global_bool "systemd-cgroup";
  rootless = none;
}

module _ (shell : Shell) where
  -- the value of a flag that names a file, made absolute if it is set
  unfoldable pub path_args : String → String → Err ⊎ List String
  path_args flag v =
      if str_eq v ""
      then inr []
      else elim (shell.abs v) [ inl e ↦ inl e | inr path ↦ inr (flag ∷ path ∷ []) ]

  abbrev both :
      Err ⊎ List String → Err ⊎ List String → List String → List String → Err ⊎ List String
  both (inl e) q before rest = inl e
  both (inr xs) (inl e) before rest = inl e
  both (inr xs) (inr ys) before rest = inr (before ++ xs ++ ys ++ rest)

  unfoldable pub get_exec_args : Cli → String → Err ⊎ List String
  unfolding path_args
  get_exec_args cli cid =
      both (path_args "--process" (cli.string "process"))
        (path_args "--pid-file" (cli.string "pid-file"))
        ("exec" ∷ option_args "--console-socket" (cli.string "console-socket")
          ++ switch_args "--detach" (cli.bool "detach"))
        (cid ∷ [])

  unfoldable pub get_exec_pid_file_path : Cli → Err ⊎ String
  get_exec_pid_file_path cli =
      if str_eq (cli.string "pid-file") ""
      then inl (msg "pid-file is required")
      else elim (shell.abs (cli.string "pid-file")) [
        | inl e ↦ inl (wrap "failed to get absolute path for --pid-file" e)
        | inr path ↦ inr path
      ]

  -- os.Getenv
  getenv : String → String
  getenv key = elim (shell.lookup_env key) [ none ↦ "" | some v ↦ v ]

  unfoldable pub get_proc_sync_pipe : Err ⊎ ℕ
  unfolding getenv
  get_proc_sync_pipe = elim (shell.atoi (getenv "_RUNCEXT_PROC_SYNC_PIPE")) [
    | inl e ↦ inl (wrap "failed to get env" e)
    | inr fd ↦ inr fd
  ]

  unfoldable pub should_honor_xdg_runtime_dir : Bool
  should_honor_xdg_runtime_dir =
      if not (shell.euid == 0)
      then true
      else if not shell.in_userns
      then false
      else elim (shell.lookup_env "USER") [ none ↦ true | some u ↦ not (str_eq u "root") ]

  unfoldable pub default_runc_root : String
  unfolding should_honor_xdg_runtime_dir getenv
  default_runc_root =
      if should_honor_xdg_runtime_dir
      then (if str_eq (getenv "XDG_RUNTIME_DIR") ""
          then "/run/runc"
          else cat (getenv "XDG_RUNTIME_DIR") "/runc")
      else "/run/runc"
