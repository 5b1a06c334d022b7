-- ===== src/Shim/Agreement.antt =====
-- shim.go: what Wait and State tell of the same task.
use embedshim.Prelude.{
  ℕ, Bool, true, false, Option, none, some, ◌≡◌, ◌≢◌, refl, ◌⊎◌, inl, inr, arith,
}
use embedshim.Host.{Env, Outcome, ok, Log}
use embedshim.InitProcess.{InitState, created, running, paused, stopped, deleted}
use embedshim.InitProcess.Lifecycle.{IsValid, Fits}
use embedshim.InitProcess.States
use embedshim.Shim.Task
use embedshim.Shim.Types.{TaskExit, TaskState, stopped_status, runtime_status}
use embedshim.World.{eq_self, World}

-- A Wait that returns tells what State tells, which is an end; if Wait blocks, then State tells of no
-- end, or the task has been deleted.
abbrev pub Agrees : InitState → Outcome World (Option TaskExit) → Outcome World TaskState → Type 0
Agrees i (ok (some t) _ _) (ok s _ _) =
    (s.status ≡ stopped_status)
    × (s.pid ≡ t.pid)
    × (s.exit_status ≡ t.status)
    × (s.exited_at ≡ t.timestamp)
Agrees i (ok none _ _) (ok s _ _) = (s.status ≢ stopped_status) ⊎ (i ≡ deleted)
Agrees i _ _ = ⊥

by_state :
    (i : InitState) (closed : Bool) (t : Option ℕ)
    → Fits i closed t
    → ((closed ≡ true) × (runtime_status (States.status_in i) ≡ stopped_status))
      ⊎ ((closed ≡ false)
          × ((runtime_status (States.status_in i) ≢ stopped_status) ⊎ (i ≡ deleted)))
unfolding States.status_in runtime_status
by_state created closed t h = inr (h.0, inl (ground arith))
by_state running closed t h = inr (h.0, inl (ground arith))
by_state paused closed t h = inr (h.0, inl (ground arith))
by_state stopped closed t h = inl (h.0, refl)
by_state deleted true t h = inl (refl, refl)
by_state deleted false t h = inr (refl, inr refl)

-- For a valid init process, Wait and State agree: if Wait returns, then State reports the same pid,
-- exit status and time, and the status stopped; if Wait blocks, then State does not report stopped,
-- unless the task has been deleted.
pub wait-state :
    (env : Env) (a : ℕ) (w : World) (l : Log)
    → IsValid (w.inits a)
    → Agrees (w.inits a).init_state (Task.wait env a w l) (Task.state env a w l)
unfolding Task.wait Task.state States.status
wait-state env a w l v =
    elim (by_state (w.inits a).init_state (w.inits a).wait_closed (w.inits a).exited v) [
      | inl (closed, over) ↦ rw (eq_self a) (rw closed (over, refl, refl, refl))
      | inr (blocked, alive) ↦ rw blocked alive
    ]
