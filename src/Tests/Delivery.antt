-- ===== src/Tests/Delivery.antt =====
-- Example runs with a kernel that keeps the two maps of exitsnoop: from the tracing of a process to the
-- report of its exit.
use embedshim.RuncLog.{check_runc_init_alive}
use embedshim.InitProcess.Load.{new_runc_runtime}
use embedshim.ExitSnoop
use embedshim.PidFd
use embedshim.Prelude.{
  ℕ, ◌+◌, ◌*◌, ◌^◌, ◌≡◌, ◌<◌, refl, Option, none, some, List, [], ◌∷◌, ◌==◌, pos, inr, Map, lookup,
  insert, erase, empty, length, lookup-insert, lookup-erase, if◌then◌else◌, ltb, arith, cat,
}
use embedshim.GoError.{msg, sentinel, key_not_exist}
use embedshim.Host.{
  fd, Env, Call, Log, Reply, fails, gives, Outcome, ok, trace_task, lookup_event, stat_pidns,
}
use embedshim.ExitSnoop.Types.{TaskInfo, ExitStatus, init_store}
use embedshim.Bpf.Tables.{BpfMap}
use embedshim.Bpf.{max_entries, Exiting, Kernel, run}
use embedshim.Bpf.Tracked.{ended, Fair}
use embedshim.Bpf.History.{Answers, kernel_at, history, since, upto}
use embedshim.Bpf.Fresh.{Fresh}
use embedshim.World.{World}
use embedshim.Monitor.{trace_init_process, init_callback, repolling_init_process}
use embedshim.Monitor.Calls.{info_of}
use embedshim.Monitor.Reports.{Says}
use embedshim.Monitor.Delivery.{
  LivesIn, trace_init_process-Delivers, repolling_init_process-Delivers,
}
use embedshim.Tests.{env_with, world_of, live_task, new_task}

module _ {V : Type 0} where
  abbrev added : Option V → Map V → ℕ → V → Option (Map V)
  added (some old) t k v = none
  added none t k v = if ltb (length t.entries) max_entries then some (insert t k v) else none

  added_absent :
      (o : Option V) (t : Map V) (k : ℕ) (v : V) {u : Map V} → added o t k v ≡ some u → o ≡ none
  added_absent none t k v e = refl
  added_absent (some x) t k v e = cc

  find-added :
      (o : Option V) (t : Map V) (k : ℕ) (v : V) {u : Map V} (j : ℕ)
      → added o t k v ≡ some u
      → lookup u j ≡ (if k == j then some v else lookup t j)
  find-added none t k v j e = ground (arith, lookup-insert t k j v)
  find-added (some x) t k v j e = cc

  added_room :
      (o : Option V) (t : Map V) (k : ℕ) (v : V)
      → o ≡ none
      → length t.entries < max_entries
      → (u : Map V) × (added o t k v ≡ some u)
  added_room none t k v e h = (insert t k v, ground arith)
  added_room (some x) t k v e h = absurd (cc)

  abbrev map_table : BpfMap V max_entries
  map_table = record {
    Table = Map V;
    find = lookup;
    add = λ t k v. added (lookup t k) t k v;
    remove = erase;
    count = λ t. length t.entries;
    add_absent = λ t k v e. added_absent (lookup t k) t k v e;
    find-add = λ t k v j e. find-added (lookup t k) t k v j e;
    add_room = λ t k v e h. added_room (lookup t k) t k v e h;
    find-remove = lookup-erase;
  }

abbrev KernelOf : Type 0
KernelOf = Kernel (map_table {V = TaskInfo}) (map_table {V = ExitStatus})

abbrev no_rows : KernelOf
no_rows = record { tracing = empty; exited = empty }

-- a thread with the number `tid` of the process `pid`
abbrev leaving : ℕ → ℕ → ℕ → Exiting
leaving pid tid code = record {
  pid_tgid = pid * 2 ^ 32 + tid;
  in_ns = λ ns. ns.ino == 5;
  exit_code = code;
  start_boottime = 100;
  now = 200;
}

-- Another process exits before the insertion, and one after the tracing; then a thread of process 42,
-- and process 42 with the wait status of code 3.
abbrev moves : Log → List Exiting
moves l =
    if length l == 3
    then leaving 77 77 0 ∷ []
    else if length l == 6
    then leaving 42 42 768 ∷ leaving 42 45 9 ∷ leaving 43 43 0 ∷ []
    else []

abbrev or_refused : Option (Map TaskInfo) → Reply
or_refused none = fails (msg "key exists")
or_refused (some t) = gives 0 0

abbrev or_missing : Option ExitStatus → Reply
or_missing none = fails (sentinel key_not_exist)
or_missing (some x) = gives x.pid x.exit_code

abbrev the_kernel : Log → KernelOf
the_kernel = kernel_at map_table map_table moves no_rows

abbrev kernel_reply : Log → Call → Reply
kernel_reply l (trace_task init_store pid info) =
    or_refused (map_table.add (the_kernel l).tracing pid info)
kernel_reply l (lookup_event init_store id) = or_missing (lookup (the_kernel l).exited id)
kernel_reply l (stat_pidns pid) = gives 4 5
kernel_reply l c = gives 7 0

abbrev kernel_env : Env
kernel_env = record (env_with kernel_reply) {
  proc_fds = λ l p. fd 5 (inr (cat new_task.runtime.root "/web/exec.fifo")) ∷ [];
}

refused-some :
    (o : Option (Map TaskInfo)) (n m : ℕ)
    → or_refused o ≡ gives n m
    → (t : Map TaskInfo) × (o ≡ some t)
refused-some none n m e = absurd (cc)
refused-some (some t) n m e = (t, refl)

kernel_env-Answers : Answers map_table map_table moves no_rows kernel_env
kernel_env-Answers = record {
  inserted = λ l pid info n m e. refused-some (map_table.add (the_kernel l).tracing pid info) n m e;
  found = λ l id x e. rw e refl;
}

abbrev log_of : Outcome World (Unit {0}) → Log
log_of (ok x w l) = l
log_of _ = []

abbrev world_after : Outcome World (Unit {0}) → World
world_after (ok x w l) = w
world_after _ = world_of new_task

abbrev tracing : Outcome World (Unit {0})
tracing = trace_init_process kernel_env 1 (world_of new_task) []

tracing_ok : tracing ≡ ok tt (world_after tracing) (log_of tracing)
unfolding check_runc_init_alive new_runc_runtime ExitSnoop.get_pidns_info ExitSnoop.trace PidFd.add
    trace_init_process run history lookup insert erase
tracing_ok = refl

ended_42 : ended 42 (since moves 4 (log_of tracing)) ≡ some (leaving 42 42 768)
unfolding check_runc_init_alive new_runc_runtime ExitSnoop.get_pidns_info ExitSnoop.trace PidFd.add
    trace_init_process run history lookup insert erase since
ended_42 = refl

no_rows-Fresh : Fresh map_table map_table 4 (the_kernel [])
unfolding history run lookup
no_rows-Fresh = record { no_row = λ p i e. cc; no_event = refl }

kernel_env-LivesIn : LivesIn kernel_env 42 (record { dev = 4; ino = 5 })
kernel_env-LivesIn = λ l dev ino e. ground arith

traced_task-Fair :
    Fair map_table map_table 42
      (info_of 4 (record { dev = 4; ino = 5 }))
      (run map_table map_table (upto moves 4 (log_of tracing)) no_rows)
      (since moves 4 (log_of tracing))
unfolding check_runc_init_alive new_runc_runtime ExitSnoop.get_pidns_info ExitSnoop.trace PidFd.add
    trace_init_process run history lookup insert erase since upto
traced_task-Fair = ((λ h e. (refl, omega arith)), ((λ h e. cc), ((λ h e. cc), (tt, (tt, tt)))))

trace_init_process-Delivers_example :
    Says 1 (pos 3) (init_callback kernel_env 1 (world_of live_task) (log_of tracing))
trace_init_process-Delivers_example =
    trace_init_process-Delivers map_table map_table moves no_rows kernel_env 1 (world_of new_task)
      (world_of live_task) [] [] (record { dev = 4; ino = 5 }) kernel_env-Answers kernel_env-LivesIn
      no_rows-Fresh tracing_ok tt traced_task-Fair ended_42 refl (refl, refl) tt

repolling_init_process-Delivers_example :
    Says 1 (pos 3) (repolling_init_process kernel_env 1 (world_of new_task) (log_of tracing))
repolling_init_process-Delivers_example =
    repolling_init_process-Delivers map_table map_table moves no_rows kernel_env 1
      (world_of new_task) (world_of new_task) [] [] (record { dev = 4; ino = 5 }) kernel_env-Answers
      kernel_env-LivesIn no_rows-Fresh tracing_ok tt traced_task-Fair ended_42 refl (refl, refl) tt
