-- ===== src/Bpf/Tracked.antt =====
-- A process that is alive when its row is inserted is not lost, whatever else is traced, forgotten and
-- exits meanwhile.
use embedshim.Prelude.{
  ℕ, ◌/◌, ◌%◌, ◌^◌, ◌≡◌, ◌≢◌, ◌<◌, refl, Bool, true, false, Option, none, some, List, [], ◌∷◌, ◌==◌,
  arith, Bool-cases, inl, inr, ◌∙◌,
}
use embedshim.Host.{Call, Reply, fails, gives, trace_task, delete_task, insert_event, delete_event}
use embedshim.ExitSnoop.Types.{TaskInfo, ExitStatus, init_store}
use embedshim.Bpf.Tables.{
  BpfMap, find-or_same_ne, find-or_same_kept, find-or_same_room, find-or_same_cases,
}
use embedshim.Bpf.{
  max_entries, Exiting, Step, exit, made, Kernel, run, step, effect, is_leader, status_of,
  record_exit, with_row, after_reply, handle_sched_process_exit,
}

-- the exit of the process `pid` in a history, the first one if the pid is used again
abbrev pub or_this : Option Exiting → Bool → Exiting → Option Exiting
or_this (some y) b x = some y
or_this none true x = some x
or_this none false x = none

abbrev pub ended : ℕ → List Step → Option Exiting
ended pid [] = none
ended pid (exit x ∷ ss) = or_this (ended pid ss) (is_leader pid x) x
ended pid (made e ∷ ss) = ended pid ss

-- a call that leaves the row of `pid` and the event of `id` alone
abbrev pub Foreign : ℕ → ℕ → Call → Type 0
Foreign pid id (trace_task init_store p info) = info.trace_id ≢ id
Foreign pid id (delete_task init_store p) = p ≢ pid
Foreign pid id (insert_event init_store i status) = i ≢ id
Foreign pid id (delete_event init_store i) = i ≢ id
Foreign pid id _ = Unit

module _ (tasks : BpfMap TaskInfo max_entries) (events : BpfMap ExitStatus max_entries) where
  -- the row of the process stands, its trace ID is in no other row, and no event has that ID
  pub record Waiting (pid : ℕ) (info : TaskInfo) (k : Kernel tasks events) : Type 0 where
    pub row : tasks.find k.tracing pid ≡ some info
    pub own :
        (p : ℕ) (i : TaskInfo)
        → tasks.find k.tracing p ≡ some i
        → p ≢ pid
        → i.trace_id ≢ info.trace_id
    pub unused : events.find k.exited info.trace_id ≡ none

  -- While the process lives, what it exits in: its own pid namespace, with room for its event. The calls
  -- of others concern other rows and events.
  abbrev pub Fair : ℕ → TaskInfo → Kernel tasks events → List Step → Type 0
  Fair pid info k [] = Unit
  Fair pid info k (exit x ∷ ss) =
      (is_leader pid x ≡ true
        → ended pid ss ≡ none
        → (x.in_ns info.pidns_info ≡ true)
          × (events.count (run tasks events ss k).exited < max_entries))
      × Fair pid info k ss
  Fair pid info k (made e ∷ ss) = Foreign pid info.trace_id e.call × Fair pid info k ss

  -- a process that lives waits, and the event of one that has ended stands with its own exit code
  abbrev pub Kept : ℕ → TaskInfo → Option Exiting → Kernel tasks events → Type 0
  Kept pid info none k = Waiting pid info k
  Kept pid info (some x) k = events.find k.exited info.trace_id ≡ some (status_of pid x)

  record-other :
      (pid p : ℕ) (info rt : TaskInfo) (k : Kernel tasks events) (x : Exiting)
      → p ≢ pid
      → rt.trace_id ≢ info.trace_id
      → Waiting pid info k
      → Waiting pid info (record_exit tasks events k p rt x)
  unfolding record_exit
  record-other pid p info rt k x other fresh w = record {
    row = ground (arith, tasks.find-remove k.tracing p pid, w.row);
    own = λ q i h ne. w.own q i (ground (arith, tasks.find-remove k.tracing p q, h)) ne;
    unused = find-or_same_ne events k.exited rt.trace_id _ info.trace_id fresh ∙ w.unused;
  }

  effect-Waiting :
      (pid : ℕ) (info : TaskInfo) (k : Kernel tasks events) (c : Call)
      → Foreign pid info.trace_id c
      → Waiting pid info k
      → Waiting pid info (effect tasks events k c)
  unfolding effect
  effect-Waiting pid info k (trace_task init_store p i) f w = record {
    row = find-or_same_kept tasks k.tracing p i pid w.row;
    own = λ q j h ne. elim (find-or_same_cases tasks k.tracing p i q h) [
      | inl old ↦ w.own q j old ne
      | inr (_, e) ↦ rw (← e) f
    ];
    unused = w.unused;
  }
  effect-Waiting pid info k (delete_task init_store p) f w = record {
    row = ground (arith, tasks.find-remove k.tracing p pid, w.row);
    own = λ q i h ne. w.own q i (ground (arith, tasks.find-remove k.tracing p q, h)) ne;
    unused = w.unused;
  }
  effect-Waiting pid info k (insert_event init_store i x) f w = record {
    row = w.row;
    own = w.own;
    unused = find-or_same_ne events k.exited i x info.trace_id f ∙ w.unused;
  }
  effect-Waiting pid info k (delete_event init_store i) f w = record {
    row = w.row;
    own = w.own;
    unused = ground (arith, events.find-remove k.exited i info.trace_id, w.unused);
  }
  effect-Waiting pid info k _ f w = w

  effect-event :
      (pid : ℕ) (info : TaskInfo) (k : Kernel tasks events) (c : Call) {e : ExitStatus}
      → Foreign pid info.trace_id c
      → events.find k.exited info.trace_id ≡ some e
      → events.find (effect tasks events k c).exited info.trace_id ≡ some e
  unfolding effect
  effect-event pid info k (insert_event init_store i x) f h =
      find-or_same_kept events k.exited i x info.trace_id h
  effect-event pid info k (delete_event init_store i) f h =
      ground (arith, events.find-remove k.exited i info.trace_id)
  effect-event pid info k (trace_task init_store p i) f h = h
  effect-event pid info k (delete_task init_store p) f h = h
  effect-event pid info k _ f h = h

  with_row-event :
      (id p : ℕ) (k : Kernel tasks events) (x : Exiting) (o : Option TaskInfo) {e : ExitStatus}
      → events.find k.exited id ≡ some e
      → events.find (with_row tasks events k p x o).exited id ≡ some e
  unfolding with_row
  with_row-event id p k x none h = h
  with_row-event id p k x (some rt) h =
      ground (arith, find-or_same_kept events k.exited rt.trace_id (status_of p x) id h)

  handle-event :
      (id : ℕ) (k : Kernel tasks events) (x : Exiting) {e : ExitStatus}
      → events.find k.exited id ≡ some e
      → events.find (handle_sched_process_exit tasks events k x).exited id ≡ some e
  unfolding handle_sched_process_exit
  handle-event id k x h = ground (
    arith,
    with_row-event id (x.pid_tgid / 2 ^ 32) k x (tasks.find k.tracing (x.pid_tgid / 2 ^ 32)) h,
  )

  with_row-other :
      (pid p : ℕ) (info : TaskInfo) (k : Kernel tasks events) (x : Exiting) (o : Option TaskInfo)
      → p ≢ pid
      → tasks.find k.tracing p ≡ o
      → Waiting pid info k
      → Waiting pid info (with_row tasks events k p x o)
  unfolding with_row
  with_row-other pid p info k x none ne e w = w
  with_row-other pid p info k x (some rt) ne e w = elim (Bool-cases (x.in_ns rt.pidns_info)) [
    | inl t ↦ rw t (record-other pid p info rt k x ne (w.own p rt e ne) w)
    | inr t ↦ rw t w
  ]

  handle-other :
      (pid : ℕ) (info : TaskInfo) (k : Kernel tasks events) (x : Exiting)
      → is_leader pid x ≡ false
      → Waiting pid info k
      → Waiting pid info (handle_sched_process_exit tasks events k x)
  unfolding handle_sched_process_exit
  handle-other pid info k x o w = elim (Bool-cases (x.pid_tgid / 2 ^ 32 == x.pid_tgid % 2 ^ 32)) [
    | inl t ↦ rw t (with_row-other pid (x.pid_tgid / 2 ^ 32) info k x _ (ground arith) refl w)
    | inr t ↦ rw t w
  ]

  handle-own :
      (pid : ℕ) (info : TaskInfo) (k : Kernel tasks events) (x : Exiting)
      → is_leader pid x ≡ true
      → x.in_ns info.pidns_info ≡ true
      → events.count k.exited < max_entries
      → Waiting pid info k
      → events.find (handle_sched_process_exit tasks events k x).exited info.trace_id
        ≡ some (status_of pid x)
  unfolding handle_sched_process_exit with_row record_exit
  handle-own pid info k x o i r w =
      ground
        (arith, w.row, find-or_same_room events k.exited info.trace_id (status_of pid x) w.unused r)

  step-Kept :
      (pid : ℕ) (info : TaskInfo) (k : Kernel tasks events) (o : Option Exiting) (x : Exiting)
      → (is_leader pid x ≡ true
          → o ≡ none
          → (x.in_ns info.pidns_info ≡ true) × (events.count k.exited < max_entries))
      → Kept pid info o k
      → Kept pid info (or_this o (is_leader pid x) x) (handle_sched_process_exit tasks events k x)
  step-Kept pid info k (some y) x f h = handle-event info.trace_id k x h
  step-Kept pid info k none x f w = elim (Bool-cases (is_leader pid x)) [
    | inl t ↦ rw t (handle-own pid info k x t (f t refl).0 (f t refl).1 w)
    | inr t ↦ rw t (handle-other pid info k x t w)
  ]

  reply-Kept :
      (pid : ℕ) (info : TaskInfo) (k : Kernel tasks events) (o : Option Exiting) (c : Call)
      (r : Reply)
      → Foreign pid info.trace_id c
      → Kept pid info o k
      → Kept pid info o (after_reply tasks events k c r)
  unfolding after_reply
  reply-Kept pid info k o c (fails e) f h = h
  reply-Kept pid info k none c (gives n m) f h = effect-Waiting pid info k c f h
  reply-Kept pid info k (some x) c (gives n m) f h = effect-event pid info k c f h

  -- A process that is alive when its row is inserted is not lost.
  pub run-Kept :
      (pid : ℕ) (info : TaskInfo) (k : Kernel tasks events) (ss : List Step)
      → Waiting pid info k
      → Fair pid info k ss
      → Kept pid info (ended pid ss) (run tasks events ss k)
  unfolding run step
  run-Kept pid info k [] w f = w
  run-Kept pid info k (exit x ∷ ss) w f =
      step-Kept pid info (run tasks events ss k) (ended pid ss) x f.0 (run-Kept pid info k ss w f.1)
  run-Kept pid info k (made e ∷ ss) w f =
      reply-Kept pid info (run tasks events ss k) (ended pid ss) e.call e.reply f.0
        (run-Kept pid info k ss w f.1)
