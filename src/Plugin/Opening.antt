-- ===== src/Plugin/Opening.antt =====
-- plugin.go: what the start of the task manager leaves open when it fails.
use embedshim.Prelude.{String, List, [], ◌∷◌, arith, ◌≡◌, inl, inr}
use embedshim.ExitSnoop.Load.{pin_all, tracing_tasks, exited_events, prog_name}
use embedshim.Host.{
  Env, Log, M, Call, Reply, Reply-cases, gives, fails, call, attach_tracepoint, ◌>>◌,
}
use embedshim.Host.Ledger.{Owes}
use embedshim.IdAllocator
use embedshim.Monitor.Opening.{opened, settled}
use embedshim.World.{World}

module _ (env : Env) where
  pub called-Owes :
      (c : Call) (w : World) (l : Log)
      → ((r : Reply) → opened c r ≡ 0)
      → ((r : Reply) → settled c r ≡ 0)
      → Owes opened settled l 0 0 0 (call env c w l)
  called-Owes c w l h k = elim (Reply-cases (env.reply l c)) [
    | inl (e, r) ↦ rw r (ground (arith, h (fails e), k (fails e)))
    | inr (n, m, r) ↦ rw r (ground (arith, h (gives n m), k (gives n m)))
  ]

  abbrev all_pins : List String
  all_pins = tracing_tasks ∷ exited_events ∷ prog_name ∷ []

  abbrev pinning : List String → M World (Unit {0})
  pinning root = do call env attach_tracepoint; pin_all env root all_pins
