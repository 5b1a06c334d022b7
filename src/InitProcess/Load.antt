-- ===== src/InitProcess/Load.antt =====
-- init_process.go, runtime_utils.go, platform.go: an init process from the files of its bundle.
use embedshim.Prelude.{
  ℕ, String, Bool, true, false, none, List, ◌∷◌, cat, str_eq, path_text, if◌then◌else◌,
}
use embedshim.GoError.{wrap}
use embedshim.Bundle.{Bundle}
use embedshim.BundleFiles.{
  read_init_options, read_init_stdio, read_init_trace_event_id, read_init_pid,
}
use embedshim.InitProcess.{InitProcess, new_init}
use embedshim.Platform.{Platform}
use embedshim.RuncExt.Command.{Runc}
use embedshim.Host.{Env, M, call, pure, wrapping, ◌>>=◌, ◌>>◌, console_epoller}

-- newRuncRuntime; a path that filepath.Join makes of clean parts is their concatenation
unfoldable pub new_runc_runtime : String → List String → String → String → String → Bool → Runc
new_runc_runtime root path ns runtime criu systemd = record {
  command = runtime;
  root = cat (if str_eq root "" then "/run/containerd/runc" else root) (cat "/" ns);
  debug = false;
  log = path_text ("log.json" ∷ path);
  log_format = "json";
  pdeath_signal = 0;
  setpgid = false;
  criu = criu;
  systemd_cgroup = systemd;
  rootless = none;
}

module _ (env : Env) {S : Type 0} where
  -- NewPlatform
  unfoldable pub new_platform : M S Platform
  new_platform = do
    wrapping (wrap "failed to initialize epoller") (call env console_epoller)
    pure (record { has_epoller = true })

  -- newInitProcess: the files in this order, then the platform
  unfoldable pub new_init_process : ℕ → Bundle → M S InitProcess
  unfolding new_platform new_init new_runc_runtime
  new_init_process self b = do
    opts ← read_init_options env b
    stdio ← read_init_stdio env b
    event_id ← read_init_trace_event_id env b
    platform ← new_platform
    let runtime =
        new_runc_runtime opts.root ("work" ∷ b.path) b.ns opts.binary_name "" opts.systemd_cgroup
    pure (new_init self b.id b.path runtime event_id stdio)

  -- renewInitProcess
  unfoldable pub renew_init_process : ℕ → Bundle → M S InitProcess
  unfolding new_init_process
  renew_init_process self b = do
    init ← new_init_process self b
    pid ← wrapping (wrap "failed to read container pidfile") (read_init_pid env b)
    pure (record init { pid = pid })
