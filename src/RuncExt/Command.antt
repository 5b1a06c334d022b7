-- ===== src/RuncExt/Command.antt =====
-- pkg/runcext/utils.go: the command line and the environment of runc and of its exec wrapper.
use embedshim.Prelude.{
  ℕ, String, Bool, true, false, Option, none, some, List, [], ◌∷◌, ◌++◌, ◌⊎◌, inl, inr, str_eq, cat,
  codes, has_prefix, ◌||◌, if◌then◌else◌,
}
use embedshim.GoError.{Err}

-- go-runc's Runc
pub record Runc : Type 0 where
  pub command : String
  pub root : String
  pub debug : Bool
  pub log : String
  pub log_format : String
  pub pdeath_signal : ℕ
  pub setpgid : Bool
  pub criu : String
  pub systemd_cgroup : Bool
  -- nil stands for "auto"
  pub rootless : Option Bool

-- what the code sets of an exec.Cmd
pub record Cmd : Type 0 where
  pub path : String
  pub args : List String
  pub env : List String
  pub setpgid : Bool
  pub pdeathsig : ℕ

-- `if v != "" { out = append(out, flag, v) }`
abbrev pub option_args : String → String → List String
option_args flag v = if str_eq v "" then [] else flag ∷ v ∷ []

-- `if b { out = append(out, flag) }`
abbrev pub switch_args : String → Bool → List String
switch_args flag b = if b then flag ∷ [] else []

rootless_args : Option Bool → List String
rootless_args none = []
rootless_args (some true) = "--rootless=true" ∷ []
rootless_args (some false) = "--rootless=false" ∷ []

unfoldable pub runtime_args : Runc → List String
unfolding rootless_args
runtime_args r =
    option_args "--root" r.root
    ++ switch_args "--debug" r.debug
    ++ option_args "--log" r.log
    ++ option_args "--log-format" r.log_format
    ++ option_args "--criu" r.criu
    ++ switch_args "--systemd-cgroup" r.systemd_cgroup
    ++ rootless_args r.rootless

-- whether one of the names is the variable's: strings.HasPrefix(v, k+"=")
abbrev pub is_named : String → List String → Bool
is_named v [] = false
is_named v (k ∷ ks) = has_prefix (codes v) (codes (cat k "=")) || is_named v ks

unfoldable pub filter_env : List String → List String → List String
filter_env [] names = []
filter_env (v ∷ vs) names =
    let rest = filter_env vs names in if is_named v names then rest else v ∷ rest

-- runc.DefaultCommand
abbrev pub default_command : String
default_command = "runc"

abbrev pub runtime_ext_command : String
runtime_ext_command = "embedshim-runcext"

abbrev pub command_of : Runc → String
command_of r = if str_eq r.command "" then default_command else r.command

-- `environ` is os.Environ()
unfoldable pub runtime_command : List String → Bool → Runc → List String → Cmd
unfolding runtime_args filter_env
runtime_command environ ext r args = record {
  path = if ext then runtime_ext_command else command_of r;
  args = runtime_args r ++ (if ext then "--command" ∷ command_of r ∷ [] else []) ++ args;
  env = filter_env environ ("NOTIFY_SOCKET" ∷ []);
  setpgid = r.setpgid;
  pdeathsig = r.pdeath_signal;
}

-- go-runc's ExecOpts; the path of the console socket, if there is one
pub record ExecOpts : Type 0 where
  pub console_socket : Option String
  pub detach : Bool
  pub pid_file : String

socket_args : Option String → List String
socket_args none = []
socket_args (some path) = "--console-socket" ∷ path ∷ []

-- `abs` is filepath.Abs
unfoldable pub runc_exec_opts_args : (String → Err ⊎ String) → ExecOpts → Err ⊎ List String
unfolding socket_args
runc_exec_opts_args abs opts =
    if str_eq opts.pid_file ""
    then inr (socket_args opts.console_socket ++ switch_args "--detach" opts.detach)
    else elim (abs opts.pid_file) [
      | inl e ↦ inl e
      | inr path ↦ inr (
          socket_args opts.console_socket
          ++ switch_args "--detach" opts.detach
          ++ "--pid-file" ∷ path ∷ [])
    ]
