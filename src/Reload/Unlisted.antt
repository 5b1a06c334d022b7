-- ===== src/Reload/Unlisted.antt =====
-- reload.go, lines 75 to 93: a task whose container is unknown.
use embedshim.Prelude.{Bool-cases, inl, inr, ◌==◌, ap, ==_iff, ℕ, some, ◌≡◌, refl}
use embedshim.GoError.{Err}
use embedshim.Bundle.{Bundle}
use embedshim.Host.{Outcome, err, panic, Env, Log, ok}
use embedshim.InitProcess.{InitProcess, running}
use embedshim.InitProcess.States
use embedshim.Reload.{adopt}
use embedshim.Shim.Task
use embedshim.World.{update, World}

-- a run that makes no call, succeeds, and leaves all init processes as they are
abbrev pub Idle : World → Log → Outcome World (Unit {0}) → Type 0
Idle w l (ok _ v m) = (m ≡ l) × ((c : ℕ) → v.inits c ≡ w.inits c)
Idle w l (err _ v m) = ⊥
Idle w l (panic m) = ⊥

same_pointer : {A : Type 0} (a c : ℕ) (f : ℕ → A) → update f a (f a) c ≡ f c
same_pointer a c f = elim (Bool-cases (a == c)) [
  | inl same ↦ rw same (ap f ((==_iff a c).0 same))
  | inr other ↦ rw other refl
]

refused :
    (env : Env) (p : InitProcess) (l : Log)
    → p.init_state ≡ running
    → States.delete env p l ≡ States.delete_in env running p l
unfolding States.delete
refused env p l h = ap (λ s. States.delete_in env s p l) h

-- If the container of a task that is loaded is unknown and its init process runs, then nothing is done
-- at all: the process is not stopped, its bundle stays, and the task does not join the tasks.
pub adopt-unlisted :
    (env : Env) (b : Bundle) (a : ℕ) (e : Err) (w : World) (l : Log)
    → (w.inits a).init_state ≡ running
    → Idle w l (adopt env b a (some e) w l)
unfolding adopt Task.delete States.delete_in Task.removed_or_gone
adopt-unlisted env b a e w l h =
    rw (refused env (w.inits a) l h) (refl, λ c. same_pointer a c w.inits)
