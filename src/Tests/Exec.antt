-- ===== src/Tests/Exec.antt =====
-- Example runs of an exec process.
use embedshim.Tests.{env_with, kind_env, world_of, live_task}
use embedshim.ExecProcess.Synced.{Synced, sync_with_child-Synced}
use embedshim.Prelude.{none, [], refl, pos}
use embedshim.GoError.{sentinel, os_not_exist}
use embedshim.Host.{Env, gives, Log, Call, Reply, fails, start_command}
use embedshim.ExecProcess.Types.{new_exec}
use embedshim.ExecProcess.Exits.{Ends, exit_callback-Ends}
use embedshim.ExecProcess.Failure.{Hidden, start-Hidden}
use embedshim.ExecProcess.Start
use embedshim.ExecProcess.States as ExecStates

-- a kernel whose exit event is that of the exec process with pid 0
abbrev exec_env : Env
exec_env = env_with (λ l c. gives 0 512)

exit_callback-Ends_example :
    Ends 2
      (pos 2)
      (world_of live_task)
      (ExecStates.exit_callback exec_env 2 (world_of live_task) [])
unfolding new_exec
exit_callback-Ends_example = exit_callback-Ends exec_env 2 (world_of live_task) [] tt refl

-- the program of the wrapper is not there
abbrev uninstalled : Log → Call → Reply
uninstalled l (start_command path args vars) = fails (sentinel os_not_exist)
uninstalled l _ = gives 7 768

abbrev bare_env : Env
bare_env = env_with uninstalled

start-Hidden_example :
    Hidden bare_env 2 (world_of live_task) [] (ExecStates.start bare_env 2 (world_of live_task) [])
unfolding new_exec
start-Hidden_example =
    start-Hidden bare_env 2 (world_of live_task) []
      (λ path args vars l. (sentinel os_not_exist, refl)) refl

sync_with_child-Synced_example :
    Synced 2 (Start.sync_with_child kind_env 2 none 9 (world_of live_task) [])
sync_with_child-Synced_example = sync_with_child-Synced kind_env 2 none 9 (world_of live_task) []
