-- ===== src/Monitor/Calls.antt =====
-- traceInitProcess: the calls that it has made when it succeeds.
use embedshim.GoError.{wrap}
use embedshim.Host.Logged.{
  succeeded, failed, Logged, Logged-bind, Logged-renamed, Logged-rolled_back, call-Logged,
  call_pair-Logged,
}
use embedshim.Prelude.{
  String, lookup, ℕ, ◌≡◌, refl, Option, none, some, ◌∷◌, Option-cases, inl, inr,
}
use embedshim.Host.{
  continue, wrapping, Env, Log, Reply, gives, pidfd_open, pidfd_send_signal, trace_task, stat_pidns,
  read_proc_fds, epoll_add,
}
use embedshim.RuncLog.{holds_fifo, check_runc_init_alive}
use embedshim.ExitSnoop
use embedshim.ExitSnoop.Types.{PidnsInfo, TaskInfo, init_store}
use embedshim.PidFd
use embedshim.InitProcess.{InitProcess}
use embedshim.World.{init_exit, Callback, set_poller, World}
use embedshim.Monitor.{trace_alive, register_init, trace_init_process}

abbrev pub info_of : ℕ → PidnsInfo → TaskInfo
info_of id ns = record { trace_id = id; pidns_info = ns }

abbrev pub row_of : ℕ → ℕ → ℕ → TaskInfo
row_of id dev ino = record { trace_id = id; pidns_info = record { dev = dev; ino = ino } }

-- the calls of a traceInitProcess that succeeds, from the log `l` to the log `l'`
pub record Calls (env : Env) (pid id : ℕ) (l l' : Log) : Type 0 where
  pub fd : ℕ
  pub x : ℕ
  pub dev : ℕ
  pub ino : ℕ
  pub n : ℕ
  pub m : ℕ
  pub r1 : Reply
  pub r4 : Reply
  pub r5 : Reply
  pub before : Log
  pub opened :
      before
      ≡ record { call = stat_pidns pid; reply = gives dev ino }
        ∷ record { call = read_proc_fds pid; reply = r1 }
        ∷ record { call = pidfd_open pid; reply = gives fd x }
        ∷ l
  pub located : (k : Log) × (env.reply k (stat_pidns pid) ≡ gives dev ino)
  pub traced : env.reply before (trace_task init_store pid (row_of id dev ino)) ≡ gives n m
  pub last :
      l'
      ≡ record { call = epoll_add fd; reply = r5 }
        ∷ record { call = pidfd_send_signal fd 0; reply = r4 }
        ∷ record { call = trace_task init_store pid (row_of id dev ino); reply = gives n m }
        ∷ before

module _ (env : Env) where
  add-Logged :
      (fd : ℕ) (c : Callback) (old : Option Callback) (w : World) (b : Log) (P : Log → Type 0)
      → ((r : Reply) → P (record { call = epoll_add fd; reply = r } ∷ b))
      → Logged (λ _. P) (PidFd.register env (λ (w : World). w.poller) set_poller fd c old w b)
  unfolding PidFd.register
  add-Logged fd c (some o) w b P h = failed
  add-Logged fd c none w b P h =
      Logged-bind
        (Logged-renamed _ (call-Logged env (epoll_add fd) w b (λ _. P) (λ n m e. h (gives n m))))
        (λ n s l k. succeeded k)

  register_init-Logged :
      (a fd : ℕ) (p : InitProcess) (w : World) (b : Log) (P : Log → Type 0)
      → ((r4 r5 : Reply)
          → P (
              record { call = epoll_add fd; reply = r5 }
              ∷ record { call = pidfd_send_signal fd 0; reply = r4 }
              ∷ b))
      → Logged (λ _. P) (register_init env a fd p w b)
  unfolding register_init PidFd.add
  register_init-Logged a fd p w b P h = Logged-rolled_back _ (
      Logged-bind
        (call-Logged env (pidfd_send_signal fd 0) w b
          (λ _ l. (r : Reply) → P (record { call = epoll_add fd; reply = r } ∷ l))
          (λ n m e r. h (gives n m) r))
        (λ n s l k. add-Logged fd (init_exit a) (lookup s.poller fd) s l P k))

  look-Logged :
      (fifo : String) (pid : ℕ) (w : World) (b : Log) (P : Log → Type 0)
      → ((r : Reply) → P (record { call = read_proc_fds pid; reply = r } ∷ b))
      → Logged (λ _. P) (check_runc_init_alive env fifo pid w b)
  unfolding check_runc_init_alive
  look-Logged fifo pid w b P h =
      Logged-bind
        (Logged-renamed _
          (call-Logged env (read_proc_fds pid) w b (λ _. P) (λ n m e. h (gives n m))))
        (λ n s l k. elim (Option-cases (holds_fifo fifo (env.proc_fds l pid))) [
          | inl e ↦ rw e (succeeded k)
          | inr (x, e) ↦ rw e failed
        ])

  -- from the insertion on, at the log `b`
  insert_row-Logged :
      (a fd : ℕ) (p : InitProcess) (info : TaskInfo) (w : World) (b : Log) (P : Log → Type 0)
      → ((n m : ℕ) (r4 r5 : Reply)
          → env.reply b (trace_task init_store p.pid info) ≡ gives n m
          → P (
              record { call = epoll_add fd; reply = r5 }
              ∷ record { call = pidfd_send_signal fd 0; reply = r4 }
              ∷ record { call = trace_task init_store p.pid info; reply = gives n m }
              ∷ b))
      → Logged
          (λ _. P)
          (continue
            (wrapping
              (wrap "failed to insert taskinfo")
              (ExitSnoop.trace env init_store p.pid info)
              w
              b)
            (λ _. register_init env a fd p))
  unfolding ExitSnoop.trace
  insert_row-Logged a fd p info w b P h =
      Logged-bind
        (Logged-renamed _ (
          Logged-bind
            (call-Logged env (trace_task init_store p.pid info) w b
              (λ _ l.
                (r4 r5 : Reply)
                → P (
                    record { call = epoll_add fd; reply = r5 }
                    ∷ record { call = pidfd_send_signal fd 0; reply = r4 }
                    ∷ l))
              (λ n m e r4 r5. h n m r4 r5 e))
            (λ n s l k. succeeded k)))
        (λ _ s l k. register_init-Logged a fd p s l P k)

  get_pidns_info-Logged :
      (pid : ℕ) (w : World) (b : Log) (P : PidnsInfo → Log → Type 0)
      → ((dev ino : ℕ)
          → env.reply b (stat_pidns pid) ≡ gives dev ino
          → P
              (record { dev = dev; ino = ino })
              (record { call = stat_pidns pid; reply = gives dev ino } ∷ b))
      → Logged P (ExitSnoop.get_pidns_info env pid w b)
  unfolding ExitSnoop.get_pidns_info
  get_pidns_info-Logged pid w b P h =
      Logged-bind
        (call_pair-Logged env (stat_pidns pid) w b (λ d. P (record { dev = d.0; ino = d.1 })) h)
        (λ d s l k. succeeded k)

  located-Logged :
      (a fd : ℕ) (p : InitProcess) (w : World) (l b : Log)
      → ((dev ino n m : ℕ) (r4 r5 : Reply)
          → env.reply b (stat_pidns p.pid) ≡ gives dev ino
          → env.reply
              (record { call = stat_pidns p.pid; reply = gives dev ino } ∷ b)
              (trace_task init_store p.pid (row_of p.trace_event_id dev ino))
            ≡ gives n m
          → Calls env p.pid p.trace_event_id l (
              record { call = epoll_add fd; reply = r5 }
              ∷ record { call = pidfd_send_signal fd 0; reply = r4 }
              ∷ record {
                call = trace_task init_store p.pid (row_of p.trace_event_id dev ino);
                reply = gives n m;
              }
              ∷ record { call = stat_pidns p.pid; reply = gives dev ino }
              ∷ b))
      → Logged
          (λ _. Calls env p.pid p.trace_event_id l)
          (continue
            (wrapping (wrap "failed to get pidns info") (ExitSnoop.get_pidns_info env p.pid) w b)
            (λ ns s c.
              continue
                (wrapping
                  (wrap "failed to insert taskinfo")
                  (ExitSnoop.trace env init_store p.pid
                    (record { trace_id = p.trace_event_id; pidns_info = ns }))
                  s
                  c)
                (λ _. register_init env a fd p)))
  located-Logged a fd p w l b h =
      Logged-bind
        (Logged-renamed _ (
          get_pidns_info-Logged p.pid w b
            (λ ns c.
              (n m : ℕ) (r4 r5 : Reply)
              → env.reply c (
                  trace_task init_store p.pid
                    (record { trace_id = p.trace_event_id; pidns_info = ns }))
                ≡ gives n m
              → Calls env p.pid p.trace_event_id l (
                  record { call = epoll_add fd; reply = r5 }
                  ∷ record { call = pidfd_send_signal fd 0; reply = r4 }
                  ∷ record {
                    call =
                        trace_task init_store p.pid
                          (record { trace_id = p.trace_event_id; pidns_info = ns });
                    reply = gives n m;
                  }
                  ∷ c))
            (λ dev ino e n m r4 r5 t. h dev ino n m r4 r5 e t)))
        (λ ns s c k. insert_row-Logged a fd p _ s c (Calls env p.pid p.trace_event_id l) k)

  trace_alive-Logged :
      (a fd x : ℕ) (p : InitProcess) (w : World) (l : Log)
      → Logged
          (λ _. Calls env p.pid p.trace_event_id l)
          (trace_alive env a fd p w (record { call = pidfd_open p.pid; reply = gives fd x } ∷ l))
  unfolding trace_alive
  trace_alive-Logged a fd x p w l = Logged-rolled_back _ (
      Logged-bind (look-Logged _ p.pid w _ (λ b. (r : Reply) × (b ≡ before r)) (λ r. (r, refl)))
        (λ _ s b (k : (r : Reply) × (b ≡ before r)).
          located-Logged a fd p s l b (λ dev ino n m r4 r5 e t. record {
            fd = fd;
            x = x;
            dev = dev;
            ino = ino;
            n = n;
            m = m;
            r1 = k.0;
            r4 = r4;
            r5 = r5;
            before = record { call = stat_pidns p.pid; reply = gives dev ino } ∷ b;
            opened = rw (k.1) refl;
            located = (b, e);
            traced = t;
            last = refl;
          })))
    where
      before : Reply → Log
      before r =
          record { call = read_proc_fds p.pid; reply = r }
          ∷ record { call = pidfd_open p.pid; reply = gives fd x }
          ∷ l

  pub trace_init_process-Logged :
      (a : ℕ) (w : World) (l : Log)
      → Logged
          (λ _. Calls env (w.inits a).pid (w.inits a).trace_event_id l)
          (trace_init_process env a w l)
  unfolding trace_init_process
  trace_init_process-Logged a w l =
      Logged-bind
        (Logged-renamed _ (
          call-Logged env (pidfd_open (w.inits a).pid) w l
            (λ fd c.
              (x : ℕ) × (c ≡ record { call = pidfd_open (w.inits a).pid; reply = gives fd x } ∷ l))
            (λ fd x e. (x, refl))))
        (λ fd s c k. rw (k.1) (trace_alive-Logged a fd (k.0) (w.inits a) s l))
