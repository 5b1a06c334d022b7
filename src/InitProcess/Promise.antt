-- ===== src/InitProcess/Promise.antt =====
-- What an init process promises a client: a promise of one exit status, which is kept once or never.
use embedshim.Prelude.{
  ℕ, Bool, List, [], ◌∷◌, ◌≡◌, refl, sym, subst, ◌⊎◌, inl, inr, arith, ℤ, if◌then◌else◌,
}
use embedshim.Host.{Env, M, Outcome, ok, err, panic, continue, Log, forgotten}
use embedshim.Host.Quiet.{Unchanged, Quiet-then, Quiet-skip}
use embedshim.InitProcess
use embedshim.InitProcess.{InitState, InitProcess, created, running, paused, stopped, deleted}
use embedshim.InitProcess.Frame.{delete-Quiet, start-Quiet}
use embedshim.InitProcess.States
use embedshim.InitProcess.Recording.{set_exited-Exits}
use embedshim.InitProcess.Waiters.{perform_all}
use embedshim.InitProcess.Lifecycle.{
  Request, start, delete, pause, resume, kill, set_exited, exec, update, perform, pause_in-Quiet,
  resume_in-Quiet, kill_in-Quiet, update_in-Quiet, exec_in-Quiet, IsValid, Lawful, perform-Lawful,
}

pub data Promise : Type 0 where
  pending : Promise
  kept : ℤ → Promise
  abandoned : Promise

view_of : InitState → Bool → ℤ → Promise
view_of created closed status = pending
view_of running closed status = pending
view_of paused closed status = pending
view_of stopped closed status = kept status
view_of deleted closed status = if closed then kept status else abandoned

-- the promise that a client sees in a process
unfoldable pub view : InitProcess → Promise
unfolding view_of
view p = view_of p.init_state p.wait_closed p.status

abbrev pub keep : ℤ → Promise → Promise
keep status pending = kept status
keep status (kept old) = kept old
keep status abandoned = abandoned

-- what one request may do to the promise
abbrev pub Allows : Env → Request → Promise → Promise → Type 0
Allows env (set_exited status) x y = y ≡ keep (env.exit_status status) x
Allows env delete x y = (y ≡ x) ⊎ ((x ≡ pending) × (y ≡ abandoned))
Allows env _ x y = y ≡ x

-- the run did not panic, and the process that it left satisfies `Q`
abbrev pub After : (InitProcess → Type 0) → Outcome InitProcess (Unit {0}) → Type 0
After Q (ok _ q l) = Q q
After Q (err _ q l) = Q q
After Q (panic m) = ⊥

-- the promise after a list of requests
pub data Leads (env : Env) : List Request → Promise → Promise → Type 0 where
  done : {x : Promise} → Leads env [] x x
  step :
      {r : Request} {rs : List Request} {x y z : Promise}
      → Allows env r x y
      → Leads env rs y z
      → Leads env (r ∷ rs) x z

module _ (Q : InitProcess → Type 0) where
  After-Unchanged :
      (p : InitProcess) (o : Outcome InitProcess (Unit {0})) → Unchanged p o → Q p → After Q o
  After-Unchanged p (ok _ q l) u h = subst Q (sym u) h
  After-Unchanged p (err _ q l) u h = subst Q (sym u) h
  After-Unchanged p (panic m) u h = u

  -- a method that changes nothing, followed by a transition
  After-then :
      (p : InitProcess) (o : Outcome InitProcess (Unit {0})) (f : M InitProcess (Unit {0}))
      → Unchanged p o
      → Q p
      → ((l : Log) → After Q (f p l))
      → After Q (continue o (λ _. f))
  After-then p (ok _ q l) f u h k = subst (λ r. After Q (f r l)) (sym u) (k l)
  After-then p (err e q l) f u h k = subst Q (sym u) h
  After-then p (panic m) f u h k = u

module _ (env : Env) where
  start-Keeps :
      (s : InitState) (p : InitProcess) (l : Log)
      → p.init_state ≡ s
      → After (λ q. view q ≡ view p) (States.start_in env s p l)
  unfolding States.start_in view States.created_transition
  start-Keeps created p l e =
      After-then (λ q. view q ≡ view p) p (InitProcess.start env p l)
        (States.created_transition "running") ((start-Quiet env).at p l) refl (λ l'. ground arith)
  start-Keeps running p l e = refl
  start-Keeps paused p l e = refl
  start-Keeps stopped p l e = refl
  start-Keeps deleted p l e = refl

  exit-Keeps :
      (s : InitState) (status : ℕ) (p : InitProcess) (l : Log)
      → p.init_state ≡ s
      → IsValid p
      → After
          (λ q. view q ≡ keep (env.exit_status status) (view p))
          (States.set_exited_in env s status p l)
  unfolding States.set_exited_in view
  exit-Keeps created status p l e v = ground (arith, set_exited-Exits env status p l)
  exit-Keeps running status p l e v = ground (arith, set_exited-Exits env status p l)
  exit-Keeps paused status p l e v = ground (arith, set_exited-Exits env status p l)
  exit-Keeps stopped status p l e v = ground arith
  exit-Keeps deleted status p l e v = ground arith

  delete-Abandons :
      (s : InitState) (p : InitProcess) (l : Log)
      → p.init_state ≡ s
      → IsValid p
      → After (λ q. Allows env delete (view p) (view q)) (States.delete_in env s p l)
  unfolding States.delete_in view States.created_transition States.stopped_transition
  delete-Abandons created p l e v =
      After-then (λ q. Allows env delete (view p) (view q)) p (InitProcess.delete env p l)
        (States.created_transition "deleted") ((delete-Quiet env).at p l) (inl refl)
        (λ l'. inr (ground arith, ground arith))
  delete-Abandons stopped p l e v =
      After-then (λ q. Allows env delete (view p) (view q)) p (InitProcess.delete env p l)
        (States.stopped_transition "deleted") ((delete-Quiet env).at p l) (inl refl)
        (λ l'. inl (ground arith))
  delete-Abandons _ p l e v = inl refl

  perform-Allows :
      (r : Request) (p : InitProcess) (l : Log)
      → IsValid p
      → After (λ q. Allows env r (view p) (view q)) (perform env r p l)
  unfolding perform States.start States.delete States.kill States.set_exited States.exec
      States.update States.pause States.resume
  perform-Allows start p l v = start-Keeps p.init_state p l refl
  perform-Allows delete p l v = delete-Abandons p.init_state p l refl v
  perform-Allows (set_exited status) p l v = exit-Keeps p.init_state status p l refl v
  perform-Allows pause p l v = After-Unchanged _ p _ ((pause_in-Quiet p.init_state).at p l) refl
  perform-Allows resume p l v = After-Unchanged _ p _ ((resume_in-Quiet p.init_state).at p l) refl
  perform-Allows (kill signal all) p l v =
      After-Unchanged _ p _ ((kill_in-Quiet env p.init_state signal all).at p l) refl
  perform-Allows (exec t id spec io) p l v =
      After-Unchanged _ p _
        ((Quiet-then _ _ (exec_in-Quiet env p.init_state t id spec io) Quiet-skip).at p l) refl
  perform-Allows (update resources) p l v =
      After-Unchanged _ p _ ((update_in-Quiet env p.init_state resources).at p l) refl

  -- The init process refines a promise of one exit status. Whatever requests a valid process gets,
  -- none panics, and what a client sees of it moves as the promise may: an exit that is reported keeps
  -- a pending promise with its exit status and leaves any other as it is, a delete may abandon a
  -- pending one, and no other request changes it, failed requests included.
  pub perform_all-Leads :
      (rs : List Request) (p : InitProcess) (l : Log)
      → IsValid p
      → After (λ q. Leads env rs (view p) (view q)) (perform_all env rs p l)
  unfolding perform_all
  perform_all-Leads [] p l v = done
  perform_all-Leads (r ∷ rs) p l v =
      next (perform env r p l) (perform-Allows r p l v) (perform-Lawful env r p l v)
        (perform_all-Leads rs)
    where
      extend :
          (x y : Promise) (o : Outcome InitProcess (Unit {0}))
          → Allows env r x y
          → After (λ q. Leads env rs y (view q)) o
          → After (λ q. Leads env (r ∷ rs) x (view q)) o
      extend x y (ok _ q m) a h = step a h
      extend x y (err _ q m) a h = step a h
      extend x y (panic m) a h = h

      next :
          (o : Outcome InitProcess (Unit {0}))
          → After (λ q. Allows env r (view p) (view q)) o
          → Lawful p o
          → ((q : InitProcess) (m : Log)
              → IsValid q
              → After (λ u. Leads env rs (view q) (view u)) (perform_all env rs q m))
          → After
              (λ q. Leads env (r ∷ rs) (view p) (view q))
              (continue (forgotten o) (λ _. perform_all env rs))
      next (ok _ q m) a k rest = extend (view p) (view q) _ a (rest q m k.1)
      next (err _ q m) a k rest = extend (view p) (view q) _ a (rest q m k.1)
      next (panic m) a k rest = a
