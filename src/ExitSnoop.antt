-- ===== src/ExitSnoop.antt =====
-- pkg/exitsnoop/map.go: the store. The maps are kernel objects that the tracepoint changes at any
-- time, so every operation is an outside call with a reply of its own.
pub mod Types
pub mod Load
pub mod Pins
pub mod CleanUp
pub mod Recovery
pub mod Frame
use embedshim.Prelude.{ℕ}
use embedshim.GoError.{wrap}
use embedshim.ExitSnoop.Types.{PidnsInfo, TaskInfo, ExitStatus, StoreId}
use embedshim.Host.{
  Env, M, call, call_pair, rest, pure, skip, ignore, wrapping, ◌>>=◌, ◌>>◌, trace_task, lookup_task,
  delete_task, insert_event, lookup_event, delete_event, close_maps, stat_pidns,
}

module _ (env : Env) {S : Type 0} where
  -- tracingTasks.Update(…, UpdateNoExist)
  unfoldable pub trace : StoreId → ℕ → TaskInfo → M S (Unit {0})
  trace store pid info = do call env (trace_task store pid info); skip

  unfoldable pub get_tracing_task : StoreId → ℕ → M S TaskInfo
  get_tracing_task store pid = do
    more ← rest env (lookup_task store pid)
    (trace_id, dev) ←
        wrapping (wrap "failed to get task with given pid") (call_pair env (lookup_task store pid))
    pure (record { trace_id = trace_id; pidns_info = record { dev = dev; ino = more.0 } })

  unfoldable pub delete_tracing_task : StoreId → ℕ → M S (Unit {0})
  delete_tracing_task store pid = do call env (delete_task store pid); skip

  -- exitedEvents.Update(…, UpdateNoExist)
  unfoldable pub exited_event_from_wait_status : StoreId → ℕ → ℕ → ℕ → M S (Unit {0})
  exited_event_from_wait_status store trace_id pid status = do
    call env (
        insert_event store trace_id
          (record { pid = pid; exit_code = status; start_boottime = 0; exited_time = 0 }))
    skip

  unfoldable pub get_exited_event : StoreId → ℕ → M S ExitStatus
  get_exited_event store trace_id = do
    more ← rest env (lookup_event store trace_id)
    (pid, code) ←
        wrapping (wrap "failed to get task exited status with given id")
          (call_pair env (lookup_event store trace_id))
    pure (record { pid = pid; exit_code = code; start_boottime = more.0; exited_time = more.1 })

  unfoldable pub delete_exited_event : StoreId → ℕ → M S (Unit {0})
  delete_exited_event store trace_id = do call env (delete_event store trace_id); skip

  unfoldable pub close : StoreId → M S (Unit {0})
  close store = ignore (call env (close_maps store))

  -- getPidnsInfo of monitor.go
  unfoldable pub get_pidns_info : ℕ → M S PidnsInfo
  get_pidns_info pid = do
    (dev, ino) ← call_pair env (stat_pidns pid)
    pure (record { dev = dev; ino = ino })
