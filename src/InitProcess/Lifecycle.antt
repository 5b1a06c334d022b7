-- ===== src/InitProcess/Lifecycle.antt =====
-- The life of an init process over any sequence of requests. A request takes the lock, so requests
-- run one after another; an error is returned to the caller and the next request finds the state
-- that the failed one left.
use embedshim.Prelude.{
  ℕ, String, Bool, true, false, Option, none, some, ◌≡◌, ◌≢◌, refl, subst, sym, arith,
}
use embedshim.Host.{Env, M, Outcome, ok, err, panic, continue, Log, Stdio, skip, ◌>>◌}
use embedshim.Host.Quiet.{Quiet, Unchanged, quiet_rules, Quiet-then, Quiet-skip}
use embedshim.InitProcess
use embedshim.InitProcess.{InitState, InitProcess, created, running, paused, stopped, deleted}
use embedshim.InitProcess.Frame.{start-Quiet, kill-Quiet, update-Quiet, exec-Quiet, delete-Quiet}
use embedshim.InitProcess.States
use embedshim.InitProcess.Recording.{set_exited-Exits}

-- The calls that shim.go and monitor.go make on the init process after its creation. An exec always
-- carries the trace ID that (*shim).Exec put into the context.
pub data Request : Type 0 where
  start delete pause resume : Request
  kill : ℕ → Bool → Request
  set_exited : ℕ → Request
  exec : ℕ → String → String → Stdio → Request
  update : String → Request

unfoldable pub perform : Env → Request → M InitProcess (Unit {0})
perform env start = States.start env
perform env delete = States.delete env
perform env pause = States.pause
perform env resume = States.resume
perform env (kill signal all) = States.kill env signal all
perform env (set_exited status) = States.set_exited env status
perform env (exec trace_id id spec io) = do States.exec env (some trace_id) id spec io; skip
perform env (update resources) = States.update env resources

-- what a state promises: until the exit is recorded the waiters are blocked, and after it they run
abbrev pub Fits : InitState → Bool → Option ℕ → Type 0
Fits stopped wait_closed exited = (wait_closed ≡ true) × (exited ≢ none)
Fits deleted wait_closed exited = Unit
Fits _ wait_closed exited = (wait_closed ≡ false) × (exited ≡ none)

abbrev pub IsValid : InitProcess → Type 0
IsValid p = Fits p.init_state p.wait_closed p.exited

-- the transitions of the state machine
pub data Edge : InitState → InitState → Type 0 where
  stay : {s : InitState} → Edge s s
  launch : Edge created running
  exit_created : Edge created stopped
  exit_running : Edge running stopped
  exit_paused : Edge paused stopped
  remove_created : Edge created deleted
  remove_stopped : Edge stopped deleted

-- the request did not panic, moved along an edge, and left a valid process
abbrev pub Lawful : InitProcess → Outcome InitProcess (Unit {0}) → Type 0
Lawful p (ok _ q l) = Edge p.init_state q.init_state × IsValid q
Lawful p (err _ q l) = Edge p.init_state q.init_state × IsValid q
Lawful p (panic m) = ⊥

Lawful-Unchanged :
    (p : InitProcess) (o : Outcome InitProcess (Unit {0})) → Unchanged p o → IsValid p → Lawful p o
Lawful-Unchanged p (ok _ q l) u v =
    (subst (λ r. Edge p.init_state r.init_state) (sym u) stay, subst IsValid (sym u) v)
Lawful-Unchanged p (err _ q l) u v =
    (subst (λ r. Edge p.init_state r.init_state) (sym u) stay, subst IsValid (sym u) v)
Lawful-Unchanged p (panic m) u v = u

-- a method that changes nothing, followed by a transition that may be made
Lawful-then :
    (p : InitProcess) (o : Outcome InitProcess (Unit {0})) (f : M InitProcess (Unit {0}))
    → Unchanged p o
    → IsValid p
    → ((l : Log) → Lawful p (f p l))
    → Lawful p (continue o (λ _. f))
Lawful-then p (ok _ q l) f u v k = subst (λ r. Lawful p (f r l)) (sym u) (k l)
Lawful-then p (err e q l) f u v k = Lawful-Unchanged p (err e q l) u v
Lawful-then p (panic m) f u v k = u

module _ (env : Env) where
  start-Lawful :
      (s : InitState) (p : InitProcess) (l : Log)
      → p.init_state ≡ s
      → IsValid p
      → Lawful p (States.start_in env s p l)
  unfolding States.start_in
  start-Lawful created p l e v =
      Lawful-then p (InitProcess.start env p l) (States.created_transition "running")
        ((start-Quiet env).at p l) v (λ l'. ground (arith, launch))
  start-Lawful running p l e v = (stay, v)
  start-Lawful paused p l e v = (stay, v)
  start-Lawful stopped p l e v = (stay, v)
  start-Lawful deleted p l e v = (stay, v)

  exit-Lawful :
      (s : InitState) (status : ℕ) (p : InitProcess) (l : Log)
      → p.init_state ≡ s
      → IsValid p
      → Lawful p (States.set_exited_in env s status p l)
  unfolding States.set_exited_in
  exit-Lawful created status p l e v = ground (arith, set_exited-Exits env status p l, exit_created)
  exit-Lawful running status p l e v = ground (arith, set_exited-Exits env status p l, exit_running)
  exit-Lawful paused status p l e v = ground (arith, set_exited-Exits env status p l, exit_paused)
  exit-Lawful stopped status p l e v = (stay, v)
  exit-Lawful deleted status p l e v = (stay, v)

  delete-Lawful :
      (s : InitState) (p : InitProcess) (l : Log)
      → p.init_state ≡ s
      → IsValid p
      → Lawful p (States.delete_in env s p l)
  unfolding States.delete_in
  delete-Lawful created p l e v =
      Lawful-then p (InitProcess.delete env p l) (States.created_transition "deleted")
        ((delete-Quiet env).at p l) v (λ l'. ground (arith, remove_created))
  delete-Lawful stopped p l e v =
      Lawful-then p (InitProcess.delete env p l) (States.stopped_transition "deleted")
        ((delete-Quiet env).at p l) v (λ l'. ground (arith, remove_stopped))
  delete-Lawful _ p l e v = (stay, v)

  pub kill_in-Quiet :
      (s : InitState) (signal : ℕ) (all : Bool) → Quiet (States.kill_in env s signal all)
  unfolding States.kill_in
  kill_in-Quiet deleted signal all = search quiet_rules
  kill_in-Quiet _ signal all = kill-Quiet env signal all

  pub update_in-Quiet : (s : InitState) (r : String) → Quiet (States.update_in env s r)
  unfolding States.update_in
  update_in-Quiet stopped r = search quiet_rules
  update_in-Quiet deleted r = search quiet_rules
  update_in-Quiet _ r = update-Quiet env r

  pub exec_in-Quiet :
      (s : InitState) (t : ℕ) (id spec : String) (io : Stdio)
      → Quiet (States.exec_in env s (some t) id spec io)
  unfolding States.exec_in
  exec_in-Quiet created t id spec io = exec-Quiet env t id spec io
  exec_in-Quiet running t id spec io = exec-Quiet env t id spec io
  exec_in-Quiet _ t id spec io = search quiet_rules

pub pause_in-Quiet : (s : InitState) → Quiet (States.pause_in s)
unfolding States.pause_in
pause_in-Quiet created = search quiet_rules
pause_in-Quiet _ = search quiet_rules

pub resume_in-Quiet : (s : InitState) → Quiet (States.resume_in s)
unfolding States.resume_in
resume_in-Quiet created = search quiet_rules
resume_in-Quiet _ = search quiet_rules

-- Every request to a valid init process, whatever the kernel and runc answer, ends without a panic,
-- in the same state or along one edge of the state machine, and leaves a valid process: the waiters
-- are blocked and no exit time is set while it is created, running or paused, and they run and the
-- time is set once it is stopped. This holds of requests that fail too.
pub perform-Lawful :
    (env : Env) (r : Request) (p : InitProcess) (l : Log) → IsValid p → Lawful p (perform env r p l)
unfolding perform States.start States.delete States.kill States.set_exited States.exec States.update
    States.pause States.resume
perform-Lawful env start p l v = start-Lawful env p.init_state p l refl v
perform-Lawful env delete p l v = delete-Lawful env p.init_state p l refl v
perform-Lawful env pause p l v = Lawful-Unchanged p _ ((pause_in-Quiet p.init_state).at p l) v
perform-Lawful env resume p l v = Lawful-Unchanged p _ ((resume_in-Quiet p.init_state).at p l) v
perform-Lawful env (kill signal all) p l v =
    Lawful-Unchanged p _ ((kill_in-Quiet env p.init_state signal all).at p l) v
perform-Lawful env (set_exited status) p l v = exit-Lawful env p.init_state status p l refl v
perform-Lawful env (exec t id spec io) p l v =
    Lawful-Unchanged p _
      ((Quiet-then _ _ (exec_in-Quiet env p.init_state t id spec io) Quiet-skip).at p l) v
perform-Lawful env (update resources) p l v =
    Lawful-Unchanged p _ ((update_in-Quiet env p.init_state resources).at p l) v
