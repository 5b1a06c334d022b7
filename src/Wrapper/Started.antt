-- ===== src/Wrapper/Started.antt =====
-- exec_process.go with cmd/embedshim-runcext: the command that invokeRuncExec starts is one that the
-- wrapper accepts.
use embedshim.Prelude.{ℕ, true, String, Option, some, List, ◌∷◌, ◌≡◌, refl, inl, inr}
use embedshim.ExecProcess.Methods.{process_json_path}
use embedshim.ExecProcess.Start.{exec_opts, start_wrapper}
use embedshim.ExecProcess.Types.{ExecProcess}
use embedshim.GoError.{Err}
use embedshim.RuncExt.Command.{runtime_command}
use embedshim.Host.{
  Env, Outcome, ok, err, panic, Log, Reply, Reply-cases, Call, fails, gives, call, wrapping, skip,
  ◌>>◌, start_command,
}
use embedshim.InitProcess.{InitProcess}
use embedshim.Wrapper.Args.{Shell, Cli}
use embedshim.Wrapper.Asked.{Asks, IsCarried, option_words, opts_args-words, runtime_command-Asks}
use embedshim.Wrapper.CommandLine.{Accepts}
use embedshim.Wrapper.Forwarding.{IsParsed}
use embedshim.World.{World}

-- the log at the end of a run that does not panic
abbrev pub Leaves : {S A : Type 0} → (Log → Type 0) → Outcome S A → Type 0
Leaves P (ok a s l) = P l
Leaves P (err e s l) = P l
Leaves P (panic m) = ⊥

-- `p` is the init process of the exec process `e`
module _ (run : List String → Option Cli) (socket : Option String) (p : InitProcess)
    (e : ExecProcess) (pid_path : String) where
  -- One call was made, which starts the wrapper, and the wrapper reads from the words of this call
  -- what the exec process asks for.
  pub record IsStarted (l m : Log) : Type 0 where
    pub words : List String
    pub variables : List String
    pub reply : Reply
    pub made :
        m ≡ record { call = start_command "embedshim-runcext" words variables; reply = reply } ∷ l
    pub cli : Cli
    pub accepted : run words ≡ some cli
    pub parsed : IsParsed p.runtime cli
    pub asked : Asks (exec_opts socket p e) (process_json_path p e) pid_path p.id cli

call-Leaves :
    {S : Type 0} (env : Env) (c : Call) (f : Err → Err) (s : S) (l : Log) (P : Log → Type 0)
    → ((r : Reply) → P (record { call = c; reply = r } ∷ l))
    → Leaves P ((wrapping f (call env c) >> skip) s l)
call-Leaves env c f s l P h = elim (Reply-cases (env.reply l c)) [
  | inl (e, r) ↦ rw r (h (fails e))
  | inr (n, m, r) ↦ rw r (h (gives n m))
]

-- Whether the wrapper can be started or not, invokeRuncExec has made one call for it: the start of
-- embedshim-runcext with a command line that the wrapper accepts, and from which it reads the runtime
-- of the task and the console socket, the description, the pid file and the container of this exec
-- process, detached. The runtime has no criu and no rootless option, the path of the pid file can be
-- made absolute, and the container's id does not begin with a dash.
pub start_wrapper-IsStarted :
    (shell : Shell) (run : List String → Option Cli) (env : Env) (a : ℕ) (socket : Option String)
    (e : ExecProcess) (pid_path : String) (w : World) (l : Log)
    → Accepts shell run
    → IsCarried env.abs
        (w.inits e.parent).runtime
        (exec_opts socket (w.inits e.parent) e)
        pid_path
        (w.inits e.parent).id
    → Leaves
        (IsStarted run socket (w.inits e.parent) e pid_path l)
        (start_wrapper env a socket e w l)
unfolding start_wrapper runtime_command
start_wrapper-IsStarted shell run env a socket e pid_path w l accepts c =
    let p = w.inits e.parent in
    let opts = exec_opts socket p e in
    let written = opts_args-words env.abs socket true opts.pid_file pid_path c.set c.absolute in
    let read =
      runtime_command-Asks shell run env.abs env.environ p.runtime opts (process_json_path p e)
        pid_path p.id (option_words socket true pid_path) accepts c written in
    rw written (
      call-Leaves env _ _ w l _ (λ r. record {
        words = _;
        variables = _;
        reply = r;
        made = refl;
        cli = read.0;
        accepted = read.1;
        parsed = read.2;
        asked = read.3;
      }))
