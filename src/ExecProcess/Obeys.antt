-- ===== src/ExecProcess/Obeys.antt =====
-- The state machine of an exec process: its states, what they promise, and actions that respect it.
use embedshim.Prelude.{ℕ, Bool, true, false, Option, none, ◌≡◌, ◌≢◌, subst, sym}
use embedshim.Host.{M, Outcome, ok, err, panic, continue, Log, ◌>>◌}
use embedshim.Host.Quiet.{Quiet, Unchanged}
use embedshim.Host.Keeps.{Same}
use embedshim.ExecProcess.Types.{ExecProcess, ExecState, created, running, stopped, deleted}
use embedshim.ExecProcess.Seen.{seen, NoPlatform, KeepsExec}
use embedshim.ExecProcess.States
use embedshim.World.{World, eq_self}

-- What a state promises. A running process may have woken its waiters: a start whose wrapper failed
-- has done so.
abbrev pub Fits : ExecState → Bool → Option ℕ → Type 0
Fits created wait_closed exited = (wait_closed ≡ false) × (exited ≡ none)
Fits running wait_closed exited = exited ≡ none
Fits stopped wait_closed exited = (wait_closed ≡ true) × (exited ≢ none)
Fits deleted wait_closed exited = Unit

abbrev pub IsValid : ExecProcess → Type 0
IsValid e = Fits e.exec_state e.wait_closed e.exited

pub data Edge : ExecState → ExecState → Type 0 where
  stay : {s : ExecState} → Edge s s
  launch : Edge created running
  exit_created : Edge created stopped
  exit_running : Edge running stopped
  remove_created : Edge created deleted
  remove_stopped : Edge stopped deleted

-- the run moved along an edge and left a valid process; it panics only for want of a console platform
abbrev pub Lawful : {A : Type 0} → ℕ → ExecState → Outcome World A → Type 0
Lawful a s (ok _ v l) = Edge s (v.execs a).exec_state × IsValid (v.execs a)
Lawful a s (err _ v l) = Edge s (v.execs a).exec_state × IsValid (v.execs a)
Lawful a s (panic m) = NoPlatform m

-- an action is lawful where the process is in the state `s`
pub record Obeys {A : Type 0} (a : ℕ) (s : ExecState) (m : M World A) : Type 0 where
  pub at :
      (w : World) (l : Log) → (w.execs a).exec_state ≡ s → IsValid (w.execs a) → Lawful a s (m w l)

module _ (a : ℕ) (s : ExecState) where
  pub stayed :
      (w v : World)
      → seen a v ≡ seen a w
      → (w.execs a).exec_state ≡ s
      → IsValid (w.execs a)
      → Edge s (v.execs a).exec_state × IsValid (v.execs a)
  stayed w v u e h = subst (λ t. Edge s t.0 × Fits t.0 t.1 t.2) (sym u) (rw e stay, h)

  module _ {A : Type 0} where
    Lawful-Same :
        (w : World) (o : Outcome World A)
        → Same (seen a) NoPlatform w o
        → (w.execs a).exec_state ≡ s
        → IsValid (w.execs a)
        → Lawful a s o
    Lawful-Same w (ok _ v l) u e h = stayed w v u e h
    Lawful-Same w (err _ v l) u e h = stayed w v u e h
    Lawful-Same w (panic m) u e h = u

    pub Obeys-Keeps : (m : M World A) → KeepsExec a m → Obeys a s m
    Obeys-Keeps m k = record { at = λ w l e h. Lawful-Same w (m w l) (k.at w l) e h }

  moved :
      (v w : World)
      → seen a w ≡ seen a v
      → Edge s (v.execs a).exec_state × IsValid (v.execs a)
      → Edge s (w.execs a).exec_state × IsValid (w.execs a)
  moved v w u h = subst (λ t. Edge s t.0 × Fits t.0 t.1 t.2) (sym u) h

  kept :
      {B : Type 0} (v : World) (o : Outcome World B)
      → Same (seen a) NoPlatform v o
      → Edge s (v.execs a).exec_state × IsValid (v.execs a)
      → Lawful a s o
  kept v (ok _ w l) u h = moved v w u h
  kept v (err _ w l) u h = moved v w u h
  kept v (panic m) u h = u

  module _ {A B : Type 0} where
    then-kept :
        (o : Outcome World A) (f : A → M World B)
        → Lawful a s o
        → ((x : A) → KeepsExec a (f x))
        → Lawful a s (continue o f)
    then-kept (ok x v l) f h k = kept v (f x v l) ((k x).at v l) h
    then-kept (err e v l) f h k = h
    then-kept (panic m) f h k = h

    pub Obeys-then :
        (m : M World A) (n : M World B) → Obeys a s m → KeepsExec a n → Obeys a s (m >> n)
    Obeys-then m n q k = record {
      at = λ w l e h. then-kept (m w l) (λ _. n) (q.at w l e h) (λ _. k);
    }

    first-kept :
        (w : World) (o : Outcome World A) (f : A → M World B)
        → Unchanged w o
        → (w.execs a).exec_state ≡ s
        → IsValid (w.execs a)
        → ((x : A) → Obeys a s (f x))
        → Lawful a s (continue o f)
    first-kept w (ok x v l) f u e h k = (k x).at v l (rw u e) (rw u h)
    first-kept w (err x v l) f u e h k = rw u (rw e stay, h)
    first-kept w (panic m) f u e h k = elim u [ ]

    pub Obeys-first : (m : M World A) (n : M World B) → Quiet m → Obeys a s n → Obeys a s (m >> n)
    Obeys-first m n q k = record {
      at = λ w l e h. first-kept w (m w l) (λ _. n) (q.at w l) e h (λ _. k);
    }

  pub becomes :
      (t : ExecState)
      → Edge s t
      → ((e : ExecProcess) → e.exec_state ≡ s → IsValid e → Fits t e.wait_closed e.exited)
      → Obeys a s (States.become a t)
  becomes t d f = record { at = λ w l e h. rw (eq_self a) (d, f (w.execs a) e h) }
