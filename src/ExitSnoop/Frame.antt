-- ===== src/ExitSnoop/Frame.antt =====
-- The calls of the store change nothing but the maps, which are outside.
use embedshim.Prelude.{ℕ, refl}
use embedshim.Host.{Env, Call, rest}
use embedshim.Host.Quiet.{Quiet, quiet_rules}
use embedshim.ExitSnoop
use embedshim.ExitSnoop.Types.{StoreId}

module _ (env : Env) {S : Type 0} where
  rest-Quiet : (c : Call) → Quiet {S = S} (rest env c)
  rest-Quiet c = record { at = λ s l. refl }

  pub get_exited_event-Quiet :
      (store : StoreId) (id : ℕ) → Quiet {S = S} (ExitSnoop.get_exited_event env store id)
  unfolding ExitSnoop.get_exited_event
  get_exited_event-Quiet store id = search (quiet_rules, rest-Quiet)

  pub get_tracing_task-Quiet :
      (store : StoreId) (pid : ℕ) → Quiet {S = S} (ExitSnoop.get_tracing_task env store pid)
  unfolding ExitSnoop.get_tracing_task
  get_tracing_task-Quiet store pid = search (quiet_rules, rest-Quiet)

  pub delete_exited_event-Quiet :
      (store : StoreId) (id : ℕ) → Quiet {S = S} (ExitSnoop.delete_exited_event env store id)
  unfolding ExitSnoop.delete_exited_event
  delete_exited_event-Quiet store id = search quiet_rules
