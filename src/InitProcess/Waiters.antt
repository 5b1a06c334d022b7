-- ===== src/InitProcess/Waiters.antt =====
-- What a waiter on the init process sees: the exit status that was recorded first, or nothing.
use embedshim.Prelude.{
  ℕ, Bool, true, false, Option, List, [], ◌∷◌, ◌≡◌, refl, subst, sym, ◌∙◌, arith, ℤ,
}
use embedshim.Host.{Env, M, Outcome, ok, err, panic, continue, Log, skip, ignore, forgotten, ◌>>◌}
use embedshim.Host.Quiet.{Unchanged, Quiet-then, Quiet-skip}
use embedshim.InitProcess
use embedshim.InitProcess.{InitState, InitProcess, created, running, paused, stopped, deleted}
use embedshim.InitProcess.Frame.{delete-Quiet}
use embedshim.InitProcess.States
use embedshim.InitProcess.Lifecycle.{
  Request, start, delete, pause, resume, kill, set_exited, exec, update, perform, pause_in-Quiet,
  resume_in-Quiet, kill_in-Quiet, update_in-Quiet, exec_in-Quiet, IsValid, Fits,
}
use embedshim.InitProcess.Recording.{set_exited-Exits}

-- requests one after another; an error goes to its caller only
unfoldable pub perform_all : Env → List Request → M InitProcess (Unit {0})
perform_all env [] = skip
perform_all env (r ∷ rs) = do ignore (perform env r); perform_all env rs

abbrev pub IsOver : InitState → Type 0
IsOver stopped = Unit
IsOver deleted = Unit
IsOver _ = ⊥

-- `q` shows a waiter what `p` shows, and is stopped or deleted
pub record Settled (p q : InitProcess) : Type 0 where
  pub over : IsOver q.init_state
  pub same_status : q.status ≡ p.status
  pub same_time : q.exited ≡ p.exited
  pub same_wait : q.wait_closed ≡ p.wait_closed

-- the run did not panic, and ended in a process that is settled as `p`
abbrev pub Settles : InitProcess → Outcome InitProcess (Unit {0}) → Type 0
Settles p (ok _ q l) = Settled p q
Settles p (err _ q l) = Settled p q
Settles p (panic m) = ⊥

settled : (p : InitProcess) → IsOver p.init_state → Settled p p
settled p h = record { over = h; same_status = refl; same_time = refl; same_wait = refl }

Settles-Unchanged :
    (p : InitProcess) (o : Outcome InitProcess (Unit {0}))
    → Unchanged p o
    → IsOver p.init_state
    → Settles p o
Settles-Unchanged p (ok _ q l) u h = subst (Settled p) (sym u) (settled p h)
Settles-Unchanged p (err _ q l) u h = subst (Settled p) (sym u) (settled p h)
Settles-Unchanged p (panic m) u h = u

module _ (env : Env) where
  remove-Settles :
      (p : InitProcess) (o : Outcome InitProcess (Unit {0}))
      → Unchanged p o
      → IsOver p.init_state
      → Settles p (continue o (λ _. States.stopped_transition "deleted"))
  unfolding States.stopped_transition
  remove-Settles p (ok _ q l) u h = ground arith
  remove-Settles p (err e q l) u h = Settles-Unchanged p (err e q l) u h
  remove-Settles p (panic m) u h = u

  start-Settles :
      (s : InitState) (p : InitProcess) (l : Log)
      → p.init_state ≡ s
      → IsOver s
      → Settles p (States.start_in env s p l)
  unfolding States.start_in
  start-Settles stopped p l e h = settled p (rw e tt)
  start-Settles deleted p l e h = settled p (rw e tt)
  start-Settles created p l e h = elim h [ ]
  start-Settles running p l e h = elim h [ ]
  start-Settles paused p l e h = elim h [ ]

  delete-Settles :
      (s : InitState) (p : InitProcess) (l : Log)
      → p.init_state ≡ s
      → IsOver s
      → Settles p (States.delete_in env s p l)
  unfolding States.delete_in
  delete-Settles stopped p l e h =
      remove-Settles p (InitProcess.delete env p l) ((delete-Quiet env).at p l) (rw e tt)
  delete-Settles deleted p l e h = settled p (rw e tt)
  delete-Settles created p l e h = elim h [ ]
  delete-Settles running p l e h = elim h [ ]
  delete-Settles paused p l e h = elim h [ ]

  exit-Settles :
      (s : InitState) (status : ℕ) (p : InitProcess) (l : Log)
      → p.init_state ≡ s
      → IsOver s
      → Settles p (States.set_exited_in env s status p l)
  unfolding States.set_exited_in
  exit-Settles stopped status p l e h = settled p (rw e tt)
  exit-Settles deleted status p l e h = settled p (rw e tt)
  exit-Settles created status p l e h = elim h [ ]
  exit-Settles running status p l e h = elim h [ ]
  exit-Settles paused status p l e h = elim h [ ]

  perform-Settles :
      (r : Request) (p : InitProcess) (l : Log)
      → IsOver p.init_state
      → Settles p (perform env r p l)
  unfolding perform States.start States.delete States.kill States.set_exited States.exec
      States.update States.pause States.resume
  perform-Settles start p l h = start-Settles p.init_state p l refl h
  perform-Settles delete p l h = delete-Settles p.init_state p l refl h
  perform-Settles (set_exited status) p l h = exit-Settles p.init_state status p l refl h
  perform-Settles pause p l h = Settles-Unchanged p _ ((pause_in-Quiet p.init_state).at p l) h
  perform-Settles resume p l h = Settles-Unchanged p _ ((resume_in-Quiet p.init_state).at p l) h
  perform-Settles (kill signal all) p l h =
      Settles-Unchanged p _ ((kill_in-Quiet env p.init_state signal all).at p l) h
  perform-Settles (exec t id spec io) p l h =
      Settles-Unchanged p _
        ((Quiet-then _ _ (exec_in-Quiet env p.init_state t id spec io) Quiet-skip).at p l) h
  perform-Settles (update resources) p l h =
      Settles-Unchanged p _ ((update_in-Quiet env p.init_state resources).at p l) h

  Settled-trans :
      (p q : InitProcess) (o : Outcome InitProcess (Unit {0}))
      → Settled p q
      → Settles q o
      → Settles p o
  Settled-trans p q (ok _ r l) h k = ground arith
  Settled-trans p q (err _ r l) h k = ground arith
  Settled-trans p q (panic m) h k = k

  -- Once an init process is stopped or deleted, no sequence of requests changes the exit status and
  -- the exit time that a waiter reads, or whether it is woken at all; none of them panics.
  pub perform_all-Settles :
      (rs : List Request) (p : InitProcess) (l : Log)
      → IsOver p.init_state
      → Settles p (perform_all env rs p l)
  unfolding perform_all
  perform_all-Settles [] p l h = settled p h
  perform_all-Settles (r ∷ rs) p l h =
      next (perform env r p l) (perform-Settles r p l h) (perform_all-Settles rs)
    where
      next :
          (o : Outcome InitProcess (Unit {0}))
          → Settles p o
          → ((q : InitProcess) (l : Log) → IsOver q.init_state → Settles q (perform_all env rs q l))
          → Settles p (continue (forgotten o) (λ _. perform_all env rs))
      next (ok _ q l') k rest = Settled-trans p q (perform_all env rs q l') k (rest q l' k.over)
      next (err _ q l') k rest = Settled-trans p q (perform_all env rs q l') k (rest q l' k.over)
      next (panic m) k rest = k

abbrev pub IsLive : InitState → Type 0
IsLive stopped = ⊥
IsLive deleted = ⊥
IsLive _ = Unit

-- a waiter of the process is woken and reads `status`
abbrev pub Reports : ℤ → Outcome InitProcess (Unit {0}) → Type 0
Reports status (ok _ q l) = (q.wait_closed ≡ true) × (q.status ≡ status) × IsOver q.init_state
Reports status (err _ q l) = (q.wait_closed ≡ true) × (q.status ≡ status) × IsOver q.init_state
Reports status (panic m) = ⊥

-- a waiter of the process goes on waiting
abbrev pub Blocks : Outcome InitProcess (Unit {0}) → Type 0
Blocks (ok _ q l) = q.wait_closed ≡ false
Blocks (err _ q l) = q.wait_closed ≡ false
Blocks (panic m) = ⊥

module _ (env : Env) where
  pub exit-Reports :
      (s : InitState) (status : ℕ) (p : InitProcess) (l : Log)
      → p.init_state ≡ s
      → IsLive s
      → IsValid p
      → Reports (env.exit_status status) (States.set_exited_in env s status p l)
  unfolding States.set_exited_in
  exit-Reports created status p l e h v = ground (arith, set_exited-Exits env status p l)
  exit-Reports running status p l e h v = ground (arith, set_exited-Exits env status p l)
  exit-Reports paused status p l e h v = ground (arith, set_exited-Exits env status p l)
  exit-Reports stopped status p l e h v = elim h [ ]
  exit-Reports deleted status p l e h v = elim h [ ]

  -- The first exit that is recorded for a valid process which is created, running or paused wakes its
  -- waiters with the exit status of that wait status, and they read this status after any further
  -- requests, later exits and failed requests among them; nothing panics.
  pub first_exit_wins :
      (status : ℕ) (rs : List Request) (p : InitProcess) (l : Log)
      → IsValid p
      → IsLive p.init_state
      → Reports (env.exit_status status) (perform_all env (set_exited status ∷ rs) p l)
  unfolding perform_all perform States.set_exited
  first_exit_wins status rs p l v h =
      next (States.set_exited_in env p.init_state status p l)
        (exit-Reports p.init_state status p l refl h v)
    where
      keeps :
          (q : InitProcess) (o : Outcome InitProcess (Unit {0}))
          → (q.wait_closed ≡ true) × (q.status ≡ env.exit_status status) × IsOver q.init_state
          → Settles q o
          → Reports (env.exit_status status) o
      keeps q (ok _ r l') k t = ground arith
      keeps q (err _ r l') k t = ground arith
      keeps q (panic m) k t = t

      next :
          (o : Outcome InitProcess (Unit {0}))
          → Reports (env.exit_status status) o
          → Reports (env.exit_status status) (continue (forgotten o) (λ _. perform_all env rs))
      next (ok _ q l') k = keeps q (perform_all env rs q l') k (perform_all-Settles env rs q l' k.2)
      next (err _ q l') k =
          keeps q (perform_all env rs q l') k (perform_all-Settles env rs q l' k.2)
      next (panic m) k = k

  remove_created :
      (p q : InitProcess) (l' : Log) (o : Outcome InitProcess (Unit {0}))
      → Unchanged p o
      → p.wait_closed ≡ false
      → continue o (λ _. States.created_transition "deleted") ≡ ok tt q l'
      → (q.wait_closed ≡ false) × IsOver q.init_state
  unfolding States.created_transition
  remove_created p q l' (ok _ r m) u v d = ground arith
  remove_created p q l' (err e r m) u v d = cc
  remove_created p q l' (panic m) u v d = cc

  deleted_unstarted :
      (s : InitState) (p q : InitProcess) (l l' : Log)
      → p.init_state ≡ s
      → s ≡ created
      → p.wait_closed ≡ false
      → States.delete_in env s p l ≡ ok tt q l'
      → (q.wait_closed ≡ false) × IsOver q.init_state
  unfolding States.delete_in
  deleted_unstarted created p q l l' e c v d =
      remove_created p q l' (InitProcess.delete env p l) ((delete-Quiet env).at p l) v d
  deleted_unstarted _ p q l l' e c v d = cc

  created_waits : (s : InitState) (w : Bool) (t : Option ℕ) → s ≡ created → Fits s w t → w ≡ false
  created_waits created w t e f = f.0
  created_waits _ w t e f = cc

  -- A valid process that is deleted while it is still created never wakes its waiters: after the
  -- delete has succeeded, no sequence of requests, the report of its exit among them, closes the
  -- channel that they wait on.
  pub deleted_unstarted-Blocks :
      (rs : List Request) (p q : InitProcess) (l l' : Log)
      → IsValid p
      → p.init_state ≡ created
      → perform env delete p l ≡ ok tt q l'
      → Blocks (perform_all env rs q l')
  unfolding perform States.delete
  deleted_unstarted-Blocks rs p q l l' v e d =
      let r =
        deleted_unstarted p.init_state p q l l' refl e
          (created_waits p.init_state p.wait_closed p.exited e v) d in
      keeps (perform_all env rs q l') (perform_all-Settles env rs q l' r.1) r.0
    where
      keeps : (o : Outcome InitProcess (Unit {0})) → Settles q o → q.wait_closed ≡ false → Blocks o
      keeps (ok _ r m) t w = t.same_wait ∙ w
      keeps (err _ r m) t w = t.same_wait ∙ w
      keeps (panic m) t w = t
