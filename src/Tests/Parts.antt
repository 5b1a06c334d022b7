-- ===== src/Tests/Parts.antt =====
-- Example runs of the bundle, the epoller, the exec IDs and the runc log.
use embedshim.Prelude.{str_eq, if◌then◌else◌}
use embedshim.GoError.{sentinel, key_not_exist}
use embedshim.Plugin.{start}
use embedshim.Host.{read_dir}
use embedshim.Host.{load_pinned_map, Call, Reply, fails, gives, Log}
use embedshim.ExitSnoop.Load.{exited_events}
use embedshim.Tests.{kind_env}
use embedshim.PidFd.Once.{Loop}
use embedshim.Prelude.{insert, List, [], ◌∷◌, refl, empty, no_names}
use embedshim.Host.{Env}
use embedshim.Shim.{reserve_exec_id}
use embedshim.Prelude.{name, named}
use embedshim.RuncLog.{LogLine, get_last_runtime_error}
use embedshim.RuncLog.Latest.{latest, or_text, entries, Reads, get_last_runtime_error-latest}
use embedshim.Host.{skip}
use embedshim.Bundle.{new_bundle}
use embedshim.Bundle.Rollback.{Balances, new_bundle-Balances}
use embedshim.Shim.Types.{Shim, fresh_shim}
use embedshim.Shim.ExecIds
use embedshim.Shim.ExecIds.{Calls, Reach, Exclusive, Reach-Exclusive}

abbrev busy_shim : Shim
busy_shim = record fresh_shim { reserved = name (name no_names "a" tt) "b" tt }

busy : Reach (record { pending = "b" ∷ "a" ∷ []; shim = busy_shim })
unfolding reserve_exec_id name named
busy =
    ExecIds.next (ExecIds.next ExecIds.start (ExecIds.reserve "a" [] refl))
      (ExecIds.reserve "b" [] refl)

Reach-Exclusive_example : Exclusive busy_shim ("b" ∷ "a" ∷ [])
Reach-Exclusive_example = Reach-Exclusive busy

abbrev lines : List LogLine
lines =
    record { level = "error"; message = " no such file " }
    ∷ record { level = "info"; message = "done" }
    ∷ []

abbrev logging_env : Env
logging_env = record kind_env { log_entries = λ l. entries lines }

get_last_runtime_error-latest_example :
    Reads tt
      (or_text (latest lines) "")
      (get_last_runtime_error logging_env "/run/web/log.json" tt [])
get_last_runtime_error-latest_example =
    get_last_runtime_error-latest logging_env "/run/web/log.json" tt [] lines 7 768 refl refl refl

new_bundle-Balances_example :
    Balances
      ("web" ∷ "moby" ∷ "state" ∷ [])
      []
      0
      1
      0
      (new_bundle kind_env ("root" ∷ []) ("state" ∷ []) "moby" "web" ((λ b. skip) ∷ []) tt [])
new_bundle-Balances_example =
    new_bundle-Balances kind_env ("root" ∷ []) ("state" ∷ []) "moby" "web" ((λ b. skip) ∷ []) tt []
      refl ((λ s l. refl), tt)

abbrev two_callbacks : Loop
two_callbacks = record { poller = insert (insert empty 8 8) 7 7; ran = [] }

-- a kernel in which the second map of a store cannot be loaded
abbrev half_loading : Log → Call → Reply
half_loading l (load_pinned_map (name ∷ path)) =
    if str_eq name exited_events then fails (sentinel key_not_exist) else gives 7 768
half_loading l _ = gives 7 768

-- a kernel in which the folder of the state cannot be read
abbrev unreadable : Log → Call → Reply
unreadable l (read_dir path) = fails (sentinel key_not_exist)
unreadable l _ = gives 7 768
