-- ===== src/Bpf/Fresh.antt =====
-- A trace ID that is in no row and no event stays so until a row with it is inserted.
use embedshim.Prelude.{
  ℕ, ◌≡◌, ◌≢◌, ◌/◌, ◌%◌, ◌^◌, ◌∙◌, refl, Option, none, some, List, [], ◌∷◌, ◌==◌, arith, Bool-cases,
  inl, inr,
}
use embedshim.Host.{Call, Event, Reply, fails, gives, Log, trace_task}
use embedshim.ExitSnoop.Types.{TaskInfo, ExitStatus, init_store}
use embedshim.Bpf.Tables.{BpfMap, find-or_same_ne}
use embedshim.Bpf.{
  max_entries, Exiting, Step, made, Kernel, run, step, after_reply, effect, with_row, record_exit,
  handle_sched_process_exit, status_of,
}
use embedshim.Bpf.Tracked.{Waiting}
use embedshim.Bpf.History.{exits, history, kernel_at}

module _ (tasks : BpfMap TaskInfo max_entries) (events : BpfMap ExitStatus max_entries) where
  -- no row and no event has the trace ID
  pub record Fresh (id : ℕ) (k : Kernel tasks events) : Type 0 where
    pub no_row : (p : ℕ) (i : TaskInfo) → tasks.find k.tracing p ≡ some i → i.trace_id ≢ id
    pub no_event : events.find k.exited id ≡ none

  row-Fresh :
      (id p : ℕ) (k : Kernel tasks events) (x : Exiting) (o : Option TaskInfo)
      → tasks.find k.tracing p ≡ o
      → Fresh id k
      → Fresh id (with_row tasks events k p x o)
  unfolding with_row record_exit
  row-Fresh id p k x none e f = f
  row-Fresh id p k x (some rt) e f = elim (Bool-cases (x.in_ns rt.pidns_info)) [
    | inl t ↦ rw t (record {
      no_row = λ q i h. f.no_row q i (ground (arith, tasks.find-remove k.tracing p q, h));
      no_event =
          find-or_same_ne events k.exited rt.trace_id (status_of p x) id (f.no_row p rt e)
          ∙ f.no_event;
    })
    | inr t ↦ rw t f
  ]

  exit-Fresh :
      (id : ℕ) (k : Kernel tasks events) (x : Exiting)
      → Fresh id k
      → Fresh id (handle_sched_process_exit tasks events k x)
  unfolding handle_sched_process_exit
  exit-Fresh id k x f = elim (Bool-cases (x.pid_tgid / 2 ^ 32 == x.pid_tgid % 2 ^ 32)) [
    | inl t ↦ rw t (row-Fresh id (x.pid_tgid / 2 ^ 32) k x _ refl f)
    | inr t ↦ rw t f
  ]

  pub exits-Fresh :
      (id : ℕ) (xs : List Exiting) (ss : List Step) (k : Kernel tasks events)
      → Fresh id (run tasks events ss k)
      → Fresh id (run tasks events (exits xs ss) k)
  unfolding run step
  exits-Fresh id [] ss k f = f
  exits-Fresh id (x ∷ xs) ss k f = exit-Fresh id _ x (exits-Fresh id xs ss k f)

  reply-Fresh :
      (id : ℕ) (k : Kernel tasks events) (c : Call) (r : Reply)
      → effect tasks events k c ≡ k
      → Fresh id k
      → Fresh id (after_reply tasks events k c r)
  unfolding after_reply
  reply-Fresh id k c (fails e) h f = f
  reply-Fresh id k c (gives n m) h f = rw h f

  -- a call that does not touch the maps, and the exits after it
  pub call-Fresh :
      (moves : Log → List Exiting) (first : Kernel tasks events) (id : ℕ) (e : Event) (l : Log)
      → ((k : Kernel tasks events) → effect tasks events k e.call ≡ k)
      → Fresh id (kernel_at tasks events moves first l)
      → Fresh id (kernel_at tasks events moves first (e ∷ l))
  unfolding history run step
  call-Fresh moves first id e l h f =
      exits-Fresh id (moves (e ∷ l)) (made e ∷ history moves l) first
        (reply-Fresh id _ e.call e.reply (h _) f)

  inserted-Waiting :
      (pid : ℕ) (info : TaskInfo) (k : Kernel tasks events) {t : tasks.Table}
      → Fresh info.trace_id k
      → tasks.add k.tracing pid info ≡ some t
      → Waiting tasks events pid info (record { tracing = t; exited = k.exited })
  inserted-Waiting pid info k {t} f e = record {
    row = ground (arith, tasks.find-add k.tracing pid info pid e);
    own = λ p i h ne. f.no_row p i (ground (arith, tasks.find-add k.tracing pid info p e));
    unused = f.no_event;
  }

  pub made-Waiting :
      (pid n m : ℕ) (info : TaskInfo) (ss : List Step) (k : Kernel tasks events) {t : tasks.Table}
      → Fresh info.trace_id (run tasks events ss k)
      → tasks.add (run tasks events ss k).tracing pid info ≡ some t
      → Waiting tasks events pid info (
          run tasks events
            (made (record { call = trace_task init_store pid info; reply = gives n m }) ∷ ss)
            k)
  unfolding run step after_reply effect
  made-Waiting pid n m info ss k f e = rw e (inserted-Waiting pid info (run tasks events ss k) f e)
