-- ===== src/ExecProcess/Seen.antt =====
-- What an exec process shows of its state machine, and actions that leave it as it is. The only panic
-- is that of a missing console platform.
use embedshim.Prelude.{ℕ, String, Bool, Option, ◌≡◌}
use embedshim.Host.{M, modify}
use embedshim.Host.Keeps.{Keeps}
use embedshim.ExecProcess.Types.{ExecProcess, ExecState}
use embedshim.World.{World, on_exec, eq_self}

abbrev pub part : ExecProcess → ExecState × Bool × Option ℕ
part e = (e.exec_state, e.wait_closed, e.exited)

abbrev pub seen : ℕ → World → ExecState × Bool × Option ℕ
seen a w = part (w.execs a)

abbrev pub NoPlatform : String → Type 0
NoPlatform m = m ≡ "nil pointer dereference"

abbrev pub KeepsExec : {A : Type 0} → ℕ → M World A → Type 0
KeepsExec a m = Keeps (seen a) NoPlatform m

module _ (a : ℕ) where
  pub on_exec-Keeps :
      (g : ExecProcess → ExecProcess)
      → ((e : ExecProcess) → part (g e) ≡ part e)
      → KeepsExec a (on_exec a (modify g))
  on_exec-Keeps g h = record { at = λ w l. rw (eq_self a) (h (w.execs a)) }
