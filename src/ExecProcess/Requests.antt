-- ===== src/ExecProcess/Requests.antt =====
-- What a request makes of an exec process, a second report of its exit included.
use embedshim.Prelude.{ℕ, true, ◌≡◌, ◌⊎◌}
use embedshim.Host.{Outcome, ok, err, panic}
use embedshim.ExecProcess.Exits.{IsLive}
use embedshim.ExecProcess.Lifecycle.{Request, set_exited}
use embedshim.ExecProcess.Obeys.{IsValid, Edge}
use embedshim.ExecProcess.Seen.{NoPlatform}
use embedshim.ExecProcess.States
use embedshim.ExecProcess.Types.{ExecProcess}
use embedshim.World.{World}

-- the exit is reported to a live process whose waiters have been woken
abbrev pub Overtaken : Request → ExecProcess → Type 0
Overtaken (set_exited status) e = IsLive e.exec_state × (e.wait_closed ≡ true)
Overtaken _ e = ⊥

-- `e` is the process before the request
abbrev pub Proceeds : ℕ → Request → ExecProcess → Outcome World (Unit {0}) → Type 0
Proceeds a r e (ok _ v l) = Edge e.exec_state (v.execs a).exec_state × IsValid (v.execs a)
Proceeds a r e (err _ v l) = Edge e.exec_state (v.execs a).exec_state × IsValid (v.execs a)
Proceeds a r e (panic m) = NoPlatform m ⊎ ((m ≡ "close of closed channel") × Overtaken r e)
