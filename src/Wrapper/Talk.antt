-- ===== src/Wrapper/Talk.antt =====
-- cmd/embedshim-runcext/exec.go: a whole run of the wrapper, as its parent sees it.
use embedshim.Prelude.{Sum-cases, ap, ℕ, String, List, ◌∷◌, ◌≡◌, refl, inl, inr}
use embedshim.GoError.{wrap, text}
use embedshim.Host.{
  Env, Outcome, ok, err, panic, Log, fails, gives, Reply-cases, continue, ◌>>=◌, ◌>>◌, call, ignore,
  on_error, wrapping, tried_outcome, file_close, run_command, read_pid_file, write_message,
}
use embedshim.RuncExt.{write_proc_sync_message}
use embedshim.RuncExt.Types.{new_error_message}
use embedshim.Wrapper.{run_exec, tell_parent, exec_and_tell, told, run_exec}
use embedshim.Wrapper.Args.{
  get_exec_pid_file_path, get_proc_sync_pipe, Shell, Cli, get_exec_args, get_exec_pid_file_path,
  get_proc_sync_pipe,
}
use embedshim.Host.Ran.{Ran, Ran-bind}
use embedshim.Wrapper.Acts.{
  Interrupted, Act, says, kills, acts, Interrupted, Whole, Partly, Stopped, Failed,
  tell_parent-Said, closed-Whole,
}

-- One run of the wrapper, from what was done before to what is done after.
pub data Talk (base xs : List Act) : Type 0 where
  -- it does not begin
  silent : xs ≡ base → Talk base xs
  -- it fails before it knows a process
  fruitless : (t : String) → xs ≡ says (new_error_message t) ∷ base → Talk base xs
  -- it fails later: the process is killed, and then the error is told
  broken_off :
      (pid : ℕ) (t : String) (before : List Act)
      → Partly pid base before
      → xs ≡ says (new_error_message t) ∷ kills pid ∷ before
      → Talk base xs
  complete : (pid : ℕ) → Whole pid base xs → Talk base xs

Failed-Talk :
    (t : String) (base xs : List Act) → Failed base xs → Talk base (says (new_error_message t) ∷ xs)
Failed-Talk t base xs (inl h) = fruitless t (ap (λ ys. says (new_error_message t) ∷ ys) h)
Failed-Talk t base xs (inr (pid, (before, (h, q)))) =
    broken_off pid t before h (ap (λ ys. says (new_error_message t) ∷ ys) q)

module _ (env : Env) {S : Type 0} (shell : Shell) (cli : Cli) (rounds : ℕ) where
  started-Said :
      (pipe pid : ℕ) (s : S) (l : Log) (base : List Act)
      → acts l ≡ base
      → Ran Interrupted
          (λ _ m. (n : ℕ) × Whole n base (acts m))
          (λ m. Failed base (acts m))
          ((tell_parent env rounds pid >> ignore (call env (file_close pipe))) s l)
  started-Said pipe pid s l base h =
      Ran-bind Interrupted (λ _ m. Whole pid base (acts m)) (λ _ m. (n : ℕ) × Whole n base (acts m))
        (λ m. Stopped pid base (acts m)) (λ m. Failed base (acts m)) _ _
        (tell_parent-Said env rounds pid s l base h)
        (λ _ t m q. closed-Whole env pid pipe base t m q) (λ k p. inr (pid, p))

  run_command-Said :
      (path : String) (args : List String) (pipe : ℕ) (s : S) (l : Log) (base : List Act)
      → acts l ≡ base
      → Ran Interrupted
          (λ _ m. (n : ℕ) × Whole n base (acts m))
          (λ m. Failed base (acts m))
          ((wrapping (wrap "failed to run") (call env (run_command path args))
              >> (wrapping (wrap "failed to read exec pid from file") (call env read_pid_file)
                  >>= (λ pid. tell_parent env rounds pid >> ignore (call env (file_close pipe)))))
            s l)
  run_command-Said path args pipe s l base h =
      elim (Reply-cases (env.reply l (run_command path args))) [
        | inl (e, r) ↦ rw r (inl h)
        | inr (x, k, r) ↦
            rw r
              elim (Reply-cases (
                env.reply (record { call = run_command path args; reply = gives x k } ∷ l)
                  read_pid_file)) [
                    | inl (e, q) ↦ rw q (inl h)
                    | inr (pid, y, q) ↦ rw q (started-Said pipe pid s _ base h)
                  ]
      ]

  exec_and_tell-Said :
      (pipe : ℕ) (s : S) (l : Log)
      → Ran Interrupted
          (λ _ m. (n : ℕ) × Whole n (acts l) (acts m))
          (λ m. Failed (acts l) (acts m))
          (exec_and_tell env shell cli rounds pipe s l)
  unfolding exec_and_tell
  exec_and_tell-Said pipe s l = elim (Sum-cases (get_exec_args shell cli cli.first)) [
    | inl (e, r) ↦ rw r (inl refl)
    | inr (args, r) ↦ rw r (run_command-Said _ _ pipe s l (acts l) refl)
  ]

  told-Talks :
      (pipe : ℕ) (base : List Act) (o : Outcome S (Unit {0}))
      → Ran Interrupted (λ _ m. (n : ℕ) × Whole n base (acts m)) (λ m. Failed base (acts m)) o
      → Ran Interrupted
          (λ _ m. Talk base (acts m))
          (λ m. Talk base (acts m))
          (continue (tried_outcome o) (λ r.
            on_error (λ _. ignore (call env (file_close pipe))) (told env shell cli rounds r)))
  unfolding told write_proc_sync_message
  told-Talks pipe base (ok a s l) (pid, h) = complete pid h
  told-Talks pipe base (err e s l) h =
      elim (Reply-cases (env.reply l (write_message (new_error_message (text env.names e))))) [
        | inr (x, k, r) ↦ rw r (Failed-Talk _ base (acts l) h)
        | inl (x, r) ↦
            rw r
              elim (Reply-cases (
                env.reply
                  (record {
                    call = write_message (new_error_message (text env.names e));
                    reply = fails x;
                  }
                    ∷ l)
                  (file_close pipe))) [
                    | inl (y, q) ↦ rw q (Failed-Talk _ base (acts l) h)
                    | inr (y, k, q) ↦ rw q (Failed-Talk _ base (acts l) h)
                  ]
      ]
  told-Talks pipe base (panic m) h = h

  -- Whatever the kernel, the runtime and the parent do, a run of the wrapper either says nothing at
  -- all; or says just an error and kills nothing, not knowing a process yet; or tells the pid of its
  -- process and then its state, both once and in that order, and nothing more; or breaks this off at
  -- some point, and then it kills that process first and says an error last. It kills nothing else.
  -- The only panic is that of a wait4 that is interrupted in each of the rounds.
  pub run_exec-Talks :
      (s : S) (l : Log)
      → Ran Interrupted
          (λ _ m. Talk (acts l) (acts m))
          (λ m. Talk (acts l) (acts m))
          (run_exec env shell cli rounds s l)
  unfolding run_exec
  run_exec-Talks s l = elim (Sum-cases (get_exec_pid_file_path shell cli)) [
    | inl (e, r) ↦ rw r (silent refl)
    | inr (path, r) ↦ rw r elim (Sum-cases (get_proc_sync_pipe shell)) [
      | inl (e, q) ↦ rw q (silent refl)
      | inr (pipe, q) ↦ rw q (told-Talks pipe (acts l) _ (exec_and_tell-Said pipe s l))
    ]
  ]
