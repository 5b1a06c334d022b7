-- ===== src/ExecProcess/Failure.antt =====
-- What the caller of Start sees when the wrapper of runc exec cannot be run.
use embedshim.Prelude.{
  String, ℕ, true, false, Option, none, some, List, ◌≡◌, refl, inl, inr, ap, ◌∙◌, if◌then◌else◌,
  Bool-cases,
}
use embedshim.GoError.{Err, wrap}
use embedshim.Host.{
  Env, M, Outcome, ok, err, panic, Log, fails, continue, tried_outcome, start_command,
  console_socket, Reply-cases, call, after, finish_with, renamed, modify, ◌>>◌,
}
use embedshim.Host.Quiet.{quiet_rules, Quiet, Unchanged}
use embedshim.Host.Keeps.{Same}
use embedshim.Io.Creation.{create_io-Keeps}
use embedshim.Host.Stuck.{Stuck, Broken, AlwaysFails, stuck_rules, Stuck-call}
use embedshim.Io.{ProcessIo, create_io}
use embedshim.InitProcess
use embedshim.ExecProcess.Methods
use embedshim.ExecProcess.Seen.{seen}
use embedshim.ExecProcess.Start
use embedshim.ExecProcess.Start.Frame.{close_pipe-Quiet}
use embedshim.ExecProcess.States
use embedshim.ExecProcess.Types.{ExecProcess, created, running}
use embedshim.World.{World, eq_self, on_exec}

-- the wrapper is not installed, say
abbrev pub NoWrapper : Env → Type 0
NoWrapper env =
    (path : String) (args vars : List String) → AlwaysFails env (start_command path args vars)

module _ (env : Env) (a : ℕ) (absent : NoWrapper env) where
  start_command-Stuck :
      (path : String) (args vars : List String)
      → Stuck {S = World} (call env (start_command path args vars))
  start_command-Stuck path args vars = Stuck-call env _ (absent path args vars)

  start_wrapper-Stuck :
      (socket : Option String) (e : ExecProcess) → Stuck (Start.start_wrapper env a socket e)
  unfolding Start.start_wrapper
  start_wrapper-Stuck socket e = search (stuck_rules, quiet_rules, start_command-Stuck)

  invoke_runc_exec-Stuck :
      (socket : Option String) (pio : Option ProcessIo)
      → Stuck (Start.invoke_runc_exec env a socket pio)
  unfolding Start.invoke_runc_exec
  invoke_runc_exec-Stuck socket pio =
      search (stuck_rules, quiet_rules, start_wrapper-Stuck, close_pipe-Quiet env a) depth 16

-- what Start needs before the wrapper is not there: the console socket, or the pipes and fifos
abbrev pub Unready : Env → ExecProcess → World → Log → Type 0
Unready env e w l =
    if e.stdio.terminal
    then ((x : Err) × (env.reply l console_socket ≡ fails x))
    else ((x : Err) × (v : World) × (m : Log) × (create_io env e.stdio w l ≡ err x v m))

-- A success of a process that runs, whose waiters have been woken, and that has no exit time; or an error
-- of what comes before the wrapper, after which the process is as it was.
abbrev pub Hidden : Env → ℕ → World → Log → Outcome World (Unit {0}) → Type 0
Hidden env a w l (ok _ u m) = seen a u ≡ (running, true, none)
Hidden env a w l (err _ u m) = (seen a u ≡ seen a w) × Unready env (w.execs a) w l
Hidden env a w l (panic m) = ⊥

-- `start` itself, which does not change the state
abbrev Woken : ℕ → Outcome World (Unit {0}) → Type 0
Woken a (ok _ u m) = seen a u ≡ (created, true, none)
Woken a (err _ u m) = ⊥
Woken a (panic m) = ⊥

module _ (env : Env) (a : ℕ) where
  after_invoke-Woken :
      (w : World) (o : Outcome World (Unit {0}))
      → seen a w ≡ (created, false, none)
      → Broken w o
      → Woken a (continue (tried_outcome o) (Start.after_invoke env a))
  unfolding Start.after_invoke Methods.close_wait_block InitProcess.report
  after_invoke-Woken w (ok _ v l) h b = elim b [ ]
  after_invoke-Woken w (err e v l) h b =
      rw b (rw (ap (λ t. t.1) h) (rw (eq_self a) (ap (λ t. (t.0, true, t.2)) h)))
  after_invoke-Woken w (panic m) h b = elim b [ ]

  invoke_with-Woken :
      (socket : Option String) (pio : Option ProcessIo) (w : World) (l : Log)
      → NoWrapper env
      → seen a w ≡ (created, false, none)
      → Woken a (Start.invoke_with env a socket pio w l)
  unfolding Start.invoke_with
  invoke_with-Woken socket pio w l absent h =
      after_invoke-Woken w (Start.invoke_runc_exec env a socket pio w l) h
        ((invoke_runc_exec-Stuck env a absent socket pio).at w l)

  closed-Woken :
      (u : World) (o : Outcome World (Unit {0}))
      → seen a u ≡ (created, true, none)
      → Unchanged u o
      → Woken a (after o (inr tt))
  closed-Woken u (ok _ t m) h q = rw q h
  closed-Woken u (err e t m) h q = rw q h
  closed-Woken u (panic m) h q = q

  finished-Woken :
      (last : M World (Unit {0})) (o : Outcome World (Unit {0}))
      → Quiet last
      → Woken a o
      → Woken a (finish_with (tried_outcome o) last)
  finished-Woken last (ok tt u m) q h = closed-Woken u (last u m) h (q.at u m)
  finished-Woken last (err e u m) q h = elim h [ ]
  finished-Woken last (panic m) q h = elim h [ ]

  -- the outcome of `start` itself
  abbrev Begun : World → Log → Outcome World (Unit {0}) → Type 0
  Begun w l (ok _ u m) = seen a u ≡ (created, true, none)
  Begun w l (err _ u m) = (seen a u ≡ seen a w) × Unready env (w.execs a) w l
  Begun w l (panic m) = ⊥

  Woken-Begun : (w : World) (l : Log) (o : Outcome World (Unit {0})) → Woken a o → Begun w l o
  Woken-Begun w l (ok _ u m) h = h
  Woken-Begun w l (err _ u m) h = elim h [ ]
  Woken-Begun w l (panic m) h = elim h [ ]

  piped-Begun :
      (w : World) (l : Log) (o : Outcome World ProcessIo)
      → NoWrapper env
      → seen a w ≡ (created, false, none)
      → (w.execs a).stdio.terminal ≡ false
      → create_io env (w.execs a).stdio w l ≡ o
      → Same (seen a) (λ m. ⊥) w o
      → Begun w l (
          continue (renamed (wrap "failed to create exec process I/O") o) (λ io.
            on_exec a (modify (λ x. record x { io = some io }))
            >> Start.invoke_with env a none (some io)))
  piped-Begun w l (ok io u m) absent h t e k =
      Woken-Begun w l _ (invoke_with-Woken none (some io) _ m absent (rw (eq_self a) (k ∙ h)))
  piped-Begun w l (err x u m) absent h t e k = (k, simp (t) (x, u, m, e))
  piped-Begun w l (panic m) absent h t e k = k

  start-Begun :
      (w : World) (l : Log)
      → NoWrapper env
      → seen a w ≡ (created, false, none)
      → Begun w l (Start.start env a w l)
  unfolding Start.start
  start-Begun w l absent h = elim (Bool-cases (w.execs a).stdio.terminal) [
    | inl t ↦ rw t (elim (Reply-cases (env.reply l console_socket)) [
      | inl (x, r) ↦ rw r (refl, rw t (x, r))
      | inr (n, m, r) ↦ rw r (
          Woken-Begun w l _
            (finished-Woken _ _ (search quiet_rules) (invoke_with-Woken _ none w _ absent h)))
    ])
    | inr f ↦ simp (f) (
        piped-Begun w l (create_io env (w.execs a).stdio w l) absent h f refl
          ((create_io-Keeps env (seen a) (λ m. ⊥) (w.execs a).stdio).at w l))
  ]

  launched :
      (w : World) (l : Log) (o : Outcome World (Unit {0}))
      → Begun w l o
      → Hidden env a w l (continue o (λ _. States.created_transition a "running"))
  unfolding States.created_transition
  launched w l (ok _ u m) h = rw (eq_self a) (ap (λ t. (running, t.1, t.2)) h)
  launched w l (err _ u m) h = h
  launched w l (panic m) h = h

  -- Where the wrapper of runc exec cannot be run at all, Start of a created exec process whose waiters are
  -- blocked never says so: either the console socket or the pipes and fifos could not be made, and it
  -- returns an error with the process as it was, or it returns nil, with a process that is running, whose
  -- waiters have been woken, and that has no exit time. It never panics.
  pub start-Hidden :
      (w : World) (l : Log)
      → NoWrapper env
      → seen a w ≡ (created, false, none)
      → Hidden env a w l (States.start env a w l)
  unfolding States.start States.start_in
  start-Hidden w l absent h =
      rw (ap (λ t. t.0) h) (launched w l (Start.start env a w l) (start-Begun w l absent h))
