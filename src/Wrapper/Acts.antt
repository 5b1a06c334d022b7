-- ===== src/Wrapper/Acts.antt =====
-- cmd/embedshim-runcext/exec.go: what others see of the wrapper, step by step. It tells its parent
-- the pid and the state of the process it has made, and may kill that process.
use embedshim.Prelude.{
  ◌∙◌, ℕ, zero, suc, String, Bool, Option, none, some, List, [], ◌∷◌, ◌≡◌, refl, ◌⊎◌, inl, inr,
  ◌==◌, arith, Bool-cases,
}
use embedshim.GoError.{Err, wrap, is, eintr}
use embedshim.Host.{
  file_close, Env, Outcome, ok, err, panic, Log, Call, Reply-cases, reap, waitid, write_message,
  kill_process, ◌>>=◌, ◌>>◌, call, pidfd_open, ignore, rolled_back, wrapping,
}
use embedshim.Host.Ran.{Ran, Ran-bind, Ran-weaken}
use embedshim.RuncExt.{write_proc_sync_message, read_proc_sync}
use embedshim.RuncExt.Types.{
  ProcSync, ProcSyncType, exec_pid_done, exec_status_done, new_exec_pid_message,
  new_exec_status_message,
}
use embedshim.Wrapper.{
  next_message, sync_parent_exec_pid, reap_loop, reaped, early_exit, sync_parent_exec_status,
  tell_parent,
}

-- what others see of the wrapper
pub data Act : Type 0 where
  -- a message is written, or it is tried
  says : ProcSync → Act
  kills : ℕ → Act

abbrev act : Call → List Act → List Act
act (write_message m) xs = says m ∷ xs
act (kill_process pid) xs = kills pid ∷ xs
act _ xs = xs

-- the newest first
abbrev pub acts : Log → List Act
acts [] = []
acts (e ∷ l) = act e.call (acts l)

-- the only panic is that of a wait that was interrupted in every round
abbrev pub Interrupted : String → Type 0
Interrupted m = m ≡ "interrupted for ever"

abbrev pub pid_told : ℕ → List Act → List Act
pid_told pid base = says (new_exec_pid_message pid) ∷ base

-- all that is told of a process: its pid and its state
abbrev pub Whole : ℕ → List Act → List Act → Type 0
Whole pid base xs =
    (exited : Bool) × (status : ℕ) × (xs
      ≡ says (new_exec_status_message exited status) ∷ pid_told pid base)

-- a beginning of it
abbrev pub Partly : ℕ → List Act → List Act → Type 0
Partly pid base xs = (xs ≡ base) ⊎ ((xs ≡ pid_told pid base) ⊎ Whole pid base xs)

-- the process is killed after that
abbrev pub Stopped : ℕ → List Act → List Act → Type 0
Stopped pid base xs = (before : List Act) × (Partly pid base before × (xs ≡ kills pid ∷ before))

abbrev pub Failed : List Act → List Act → Type 0
Failed base xs = (xs ≡ base) ⊎ ((pid : ℕ) × Stopped pid base xs)

module _ (env : Env) {S : Type 0} where
  -- a message and its answer
  exchange-Said :
      (m : ProcSync) (want : ProcSyncType) (s : S) (l : Log) (base : List Act)
      → acts l ≡ base
      → Ran Interrupted
          (λ _ k. acts k ≡ says m ∷ base)
          (λ k. acts k ≡ says m ∷ base)
          ((wrapping (wrap "failed to sync") (write_proc_sync_message env m)
              >> (next_message env >>= read_proc_sync want))
            s l)
  unfolding write_proc_sync_message read_proc_sync next_message
  exchange-Said m want s l base h = ground (arith, h)

  reap_loop-Mute :
      (rounds pid : ℕ) (s : S) (l : Log)
      → Ran Interrupted (λ _ m. acts m ≡ acts l) (λ m. ⊥) (reap_loop env rounds pid s l)
  unfolding reap_loop
  reap_loop-Mute zero pid s l = refl
  reap_loop-Mute (suc rounds) pid s l = elim (Reply-cases (env.reply l (reap pid))) [
    | inr (status, k, r) ↦ rw r refl
    | inl (e, r) ↦ elim (Bool-cases (is e eintr)) [
      | inl again ↦ rw r (rw again (reap_loop-Mute rounds pid s _))
      | inr over ↦ rw r (rw over refl)
    ]
  ]

  reaped-Mute :
      (r : Option (Err ⊎ ℕ)) (s : S) (l : Log) (base : List Act)
      → acts l ≡ base
      → Ran Interrupted (λ _ m. acts m ≡ base) (λ m. acts m ≡ base) (reaped env r s l)
  unfolding reaped
  reaped-Mute none s l base h = refl
  reaped-Mute (some (inl e)) s l base h = h
  reaped-Mute (some (inr status)) s l base h = h

  early_exit-Mute :
      (rounds pid info_pid : ℕ) (s : S) (l : Log) (base : List Act)
      → acts l ≡ base
      → Ran Interrupted
          (λ _ m. acts m ≡ base)
          (λ m. acts m ≡ base)
          (early_exit env rounds pid info_pid s l)
  unfolding early_exit
  early_exit-Mute rounds pid info_pid s l base h = elim (Bool-cases (info_pid == 0)) [
    | inl none_yet ↦ rw none_yet h
    | inr some_exit ↦ rw some_exit (
        Ran-bind Interrupted (λ _ m. acts m ≡ acts l) (λ _ m. acts m ≡ base) (λ m. ⊥)
          (λ m. acts m ≡ base) (reap_loop env rounds pid s l) _ (reap_loop-Mute rounds pid s l)
          (λ r t m q.
            Ran-bind Interrupted (λ _ k. acts k ≡ base) (λ _ k. acts k ≡ base) (λ k. acts k ≡ base)
              (λ k. acts k ≡ base) (reaped env r t m) _ (reaped-Mute r t m base (q ∙ h))
              (λ a u k p. p) λ k p. p)
          λ k p. elim p [ ])
  ]

  status-Said :
      (rounds fd pid : ℕ) (s : S) (l : Log) (base : List Act)
      → acts l ≡ pid_told pid base
      → Ran Interrupted
          (λ _ m. Whole pid base (acts m))
          (λ m. Partly pid base (acts m))
          (sync_parent_exec_status env rounds fd pid s l)
  unfolding sync_parent_exec_status
  status-Said rounds fd pid s l base h = elim (Reply-cases (env.reply l (waitid fd))) [
    | inl (e, r) ↦ rw r (inr (inl h))
    | inr (info, k, r) ↦ rw r (
        Ran-bind Interrupted (λ _ m. acts m ≡ pid_told pid base) (λ _ m. Whole pid base (acts m))
          (λ m. acts m ≡ pid_told pid base) (λ m. Partly pid base (acts m))
          (early_exit env rounds pid info s _) _
          (early_exit-Mute rounds pid info s _ (pid_told pid base) h)
          (λ x t m q.
            Ran-weaken Interrupted
              (λ _ k. acts k ≡ says (new_exec_status_message x.0 x.1) ∷ pid_told pid base)
              (λ _ k. Whole pid base (acts k))
              (λ k. acts k ≡ says (new_exec_status_message x.0 x.1) ∷ pid_told pid base)
              (λ k. Partly pid base (acts k)) _
              (exchange-Said (new_exec_status_message x.0 x.1) exec_status_done t m
                (pid_told pid base) q)
              (λ _ k p. (x.0, x.1, p)) (λ k p. inr (inr (x.0, x.1, p))))
          λ k p. inr (inl p))
  ]

  killed-Partly :
      (pid : ℕ) (base : List Act) (P : Unit {0} → Log → Type 0) (o : Outcome S (Unit {0}))
      → Ran Interrupted P (λ m. Partly pid base (acts m)) o
      → Ran Interrupted P
          (λ m. Stopped pid base (acts m))
          (rolled_back o (λ _. ignore (call env (kill_process pid))))
  killed-Partly pid base P (ok a s l) h = h
  killed-Partly pid base P (err e s l) h = elim (Reply-cases (env.reply l (kill_process pid))) [
    | inl (e, r) ↦ rw r (acts l, (h, refl))
    | inr (x, k, r) ↦ rw r (acts l, (h, refl))
  ]
  killed-Partly pid base P (panic m) h = h

  told_to-Said :
      (rounds pid : ℕ) (s : S) (l : Log) (base : List Act)
      → acts l ≡ base
      → Ran Interrupted
          (λ _ m. Whole pid base (acts m))
          (λ m. Partly pid base (acts m))
          ((wrapping (wrap "failed to open pidfd on exec process") (call env (pidfd_open pid))
              >>= (λ fd. sync_parent_exec_pid env pid >> sync_parent_exec_status env rounds fd pid))
            s l)
  unfolding sync_parent_exec_pid
  told_to-Said rounds pid s l base h = elim (Reply-cases (env.reply l (pidfd_open pid))) [
    | inl (e, r) ↦ rw r (inl h)
    | inr (fd, k, r) ↦ rw r (
        Ran-bind Interrupted (λ _ m. acts m ≡ pid_told pid base) (λ _ m. Whole pid base (acts m))
          (λ m. acts m ≡ pid_told pid base) (λ m. Partly pid base (acts m)) _ _
          (exchange-Said (new_exec_pid_message pid) exec_pid_done s _ base h)
          (λ x t m q. status-Said rounds fd pid t m base q) (λ k p. inr (inl p)))
  ]

  pub tell_parent-Said :
      (rounds pid : ℕ) (s : S) (l : Log) (base : List Act)
      → acts l ≡ base
      → Ran Interrupted
          (λ _ m. Whole pid base (acts m))
          (λ m. Stopped pid base (acts m))
          (tell_parent env rounds pid s l)
  unfolding tell_parent
  tell_parent-Said rounds pid s l base h =
      killed-Partly pid base (λ _ m. Whole pid base (acts m)) _ (told_to-Said rounds pid s l base h)

  pub closed-Whole :
      (pid pipe : ℕ) (base : List Act) (s : S) (l : Log)
      → Whole pid base (acts l)
      → Ran Interrupted
          (λ _ m. (n : ℕ) × Whole n base (acts m))
          (λ m. Failed base (acts m))
          (ignore (call env (file_close pipe)) s l)
  closed-Whole pid pipe base s l h = elim (Reply-cases (env.reply l (file_close pipe))) [
    | inl (e, r) ↦ rw r (pid, h)
    | inr (x, k, r) ↦ rw r (pid, h)
  ]
