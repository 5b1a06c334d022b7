-- ===== src/Monitor/Delivery.antt =====
-- From the exit of a traced process to the end of the wait on it: traceInitProcess, the tracepoint of
-- bpf/exitsnoop.bpf.c and the callback of the pidfd together.
use embedshim.Bpf.Fresh.{Fresh, call-Fresh, made-Waiting}
use embedshim.Prelude.{ℕ, ◌≡◌, refl, subst, sym, ap, ◌∙◌, some, List, ◌∷◌, ◌++◌}
use embedshim.Host.{Env, ok, Log, Reply, gives, pidfd_open, stat_pidns, read_proc_fds, lookup_event}
use embedshim.Host.Logged.{at_success}
use embedshim.ExitSnoop.Types.{PidnsInfo, TaskInfo, ExitStatus, init_store}
use embedshim.Bpf.Tables.{BpfMap}
use embedshim.Bpf.{max_entries, Exiting, Kernel, run, effect, status_of}
use embedshim.Bpf.Tracked.{ended, Waiting, Fair, Kept, run-Kept}
use embedshim.Bpf.History.{
  Unrepeated, history, since, upto, since-append-upto, upto-append, run-append, kernel_at, Answers,
}
use embedshim.InitProcess.Lifecycle.{IsValid}
use embedshim.InitProcess.Waiters.{IsLive}
use embedshim.World.{World, eq_self}
use embedshim.Monitor.{trace_init_process, init_callback, repolling_init_process}
use embedshim.Monitor.Calls.{Calls, row_of, info_of, trace_init_process-Logged}
use embedshim.Monitor.Reports.{Says, reported, init_callback-Says, exit-Says}
use embedshim.ExitSnoop

-- stat(2) of /proc/<pid>/ns/pid tells the pid namespace of the process
abbrev pub LivesIn : Env → ℕ → PidnsInfo → Type 0
LivesIn env pid ns =
    (l : Log) (dev ino : ℕ)
    → env.reply l (stat_pidns pid) ≡ gives dev ino
    → ns ≡ record { dev = dev; ino = ino }

module _ (tasks : BpfMap TaskInfo max_entries) (events : BpfMap ExitStatus max_entries) where
  module _ (moves : Log → List Exiting) (first : Kernel tasks events) (env : Env) where
    before-Fresh :
        (pid id fd x dev ino : ℕ) (r1 : Reply) (l : Log)
        → Fresh tasks events id (kernel_at tasks events moves first l)
        → Fresh tasks events id (
            kernel_at tasks events moves first (
              record { call = stat_pidns pid; reply = gives dev ino }
              ∷ record { call = read_proc_fds pid; reply = r1 }
              ∷ record { call = pidfd_open pid; reply = gives fd x }
              ∷ l))
    unfolding effect
    before-Fresh pid id fd x dev ino r1 l f =
        call-Fresh tasks events moves first id _ _ (λ k. refl)
          (call-Fresh tasks events moves first id _ _ (λ k. refl)
            (call-Fresh tasks events moves first id _ _ (λ k. refl) f))

    -- the insertion leaves the process waiting
    calls-Waiting :
        (pid id : ℕ) (ns : PidnsInfo) (l l1 : Log)
        → Answers tasks events moves first env
        → LivesIn env pid ns
        → Fresh tasks events id (kernel_at tasks events moves first l)
        → Calls env pid id l l1
        → Waiting tasks events pid (info_of id ns) (run tasks events (upto moves id l1) first)
    unfolding upto
    calls-Waiting pid id ns l l1 law lives f c =
        subst
          (λ n. Waiting tasks events pid (info_of id n) (run tasks events (upto moves id l1) first))
          (sym (lives c.located.0 c.dev c.ino c.located.1))
          (subst
            (λ k.
              Waiting tasks events pid (row_of id c.dev c.ino)
                (run tasks events (upto moves id k) first))
            (sym c.last)
            (rw (eq_self id) (
              made-Waiting tasks events pid c.n c.m (row_of id c.dev c.ino) (history moves c.before)
                first
                (subst (λ b. Fresh tasks events id (kernel_at tasks events moves first b))
                  (sym c.opened) (before-Fresh pid id c.fd c.x c.dev c.ino c.r1 l f))
                (law.inserted c.before pid (row_of id c.dev c.ino) c.n c.m c.traced).1)))

    -- the event of the exit is found at the end of the log
    event_found :
        (pid id : ℕ) (ns : PidnsInfo) (l l1 m : Log) {x : Exiting}
        → Answers tasks events moves first env
        → LivesIn env pid ns
        → Fresh tasks events id (kernel_at tasks events moves first l)
        → Calls env pid id l l1
        → Unrepeated id m
        → Fair tasks events pid
            (info_of id ns)
            (run tasks events (upto moves id (m ++ l1)) first)
            (since moves id (m ++ l1))
        → ended pid (since moves id (m ++ l1)) ≡ some x
        → env.reply (m ++ l1) (lookup_event init_store id) ≡ gives pid x.exit_code
    event_found pid id ns l l1 m {x} law lives f c u fair e =
        law.found (m ++ l1) id (status_of pid x) (
          subst (λ (k : Kernel tasks events). events.find k.exited id ≡ some (status_of pid x))
            (sym
                (run-append tasks events (since moves id (m ++ l1)) (upto moves id (m ++ l1)) first)
              ∙ ap (λ ss. run tasks events ss first) (since-append-upto moves id (m ++ l1)))
            kept)
      where
        waiting :
            Waiting tasks events pid
              (info_of id ns)
              (run tasks events (upto moves id (m ++ l1)) first)
        waiting = rw (upto-append moves id m l1 u) (calls-Waiting pid id ns l l1 law lives f c)

        kept : Kept tasks events pid (info_of id ns) (some x) (
            run tasks events
              (since moves id (m ++ l1))
              (run tasks events (upto moves id (m ++ l1)) first))
        kept =
            subst
              (λ o. Kept tasks events pid (info_of id ns) o (
                run tasks events (since moves id (m ++ l1))
                  (run tasks events (upto moves id (m ++ l1)) first)))
              e (run-Kept tasks events pid _ _ (since moves id (m ++ l1)) waiting fair)

    read_exit-Says :
        (a status pid : ℕ) (v : World) (l : Log)
        → env.reply l (lookup_event init_store (v.inits a).trace_event_id) ≡ gives pid status
        → IsValid (v.inits a)
        → IsLive (v.inits a).init_state
        → Says a (env.exit_status status) (repolling_init_process env a v l)
    unfolding repolling_init_process ExitSnoop.get_exited_event
    read_exit-Says a status pid v l e valid live = rw e (exit-Says env a status v _ valid live)

    -- The traced process `a`, from the log `l` at which traceInitProcess was called on it to the later
    -- log `m ++ l1`, by which it has exited as `x`; `v` is the world then.
    module _ (a : ℕ) (w v : World) (l m : Log) (ns : PidnsInfo) {w1 : World} {l1 : Log}
        {x : Exiting} (law : Answers tasks events moves first env)
        (lives : LivesIn env (w.inits a).pid ns)
        (fresh : Fresh tasks events
          (w.inits a).trace_event_id
          (kernel_at tasks events moves first l))
        (traced : trace_init_process env a w l ≡ ok tt w1 l1)
        (single : Unrepeated (w.inits a).trace_event_id m)
        (fair : Fair tasks events
          (w.inits a).pid
          (info_of (w.inits a).trace_event_id ns)
          (run tasks events (upto moves (w.inits a).trace_event_id (m ++ l1)) first)
          (since moves (w.inits a).trace_event_id (m ++ l1)))
        (exited : ended (w.inits a).pid (since moves (w.inits a).trace_event_id (m ++ l1)) ≡ some x)
        (same : (v.inits a).trace_event_id ≡ (w.inits a).trace_event_id)
        (valid : IsValid (v.inits a)) (live : IsLive (v.inits a).init_state) where
      own_event :
          env.reply (m ++ l1) (lookup_event init_store (v.inits a).trace_event_id)
          ≡ gives (w.inits a).pid x.exit_code
      own_event =
          ap (λ i. env.reply (m ++ l1) (lookup_event init_store i)) same
          ∙ event_found (w.inits a).pid (w.inits a).trace_event_id ns l l1 m law lives fresh
              (at_success (λ _. Calls env (w.inits a).pid (w.inits a).trace_event_id l) tt w1 l1
                (trace_init_process env a w l) (trace_init_process-Logged env a w l) traced)
              single fair exited

      -- The exit of a traced process is delivered. If traceInitProcess has succeeded on a process whose
      -- trace ID was in neither map, and the process has exited since its row was inserted, then the
      -- callback of its pidfd, run on the process while it is valid and created, running or paused, wakes
      -- its waiters with the exit status of its own exit code. This holds whatever is called, and whatever
      -- other processes, or other threads of this one, exit in between, as long as no call touches its row
      -- or its event or traces with its ID, it exits in its pid namespace, and the map of exit events is
      -- not full then.
      pub trace_init_process-Delivers :
          Says a (env.exit_status x.exit_code) (init_callback env a v (m ++ l1))
      trace_init_process-Delivers =
          subst (λ r. Says a (env.exit_status (reported r)) (init_callback env a v (m ++ l1)))
            own_event (init_callback-Says env a v (m ++ l1) valid live)

      -- The exit of a traced process survives a restart. If traceInitProcess has succeeded on a process
      -- whose trace ID was in neither map, and the process has exited since its row was inserted, then
      -- repollingInitProcess, run on the process while it is valid and created, running or paused, wakes
      -- its waiters with the exit status of its own exit code. This holds whatever is called, and whatever
      -- other processes, or other threads of this one, exit in between, as long as no call touches its row
      -- or its event or traces with its ID, it exits in its pid namespace, and the map of exit events is
      -- not full then.
      pub repolling_init_process-Delivers :
          Says a (env.exit_status x.exit_code) (repolling_init_process env a v (m ++ l1))
      repolling_init_process-Delivers =
          read_exit-Says a x.exit_code (w.inits a).pid v (m ++ l1) own_event valid live
