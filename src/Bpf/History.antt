-- ===== src/Bpf/History.antt =====
-- The program's log as a history of the two maps: between two calls of the program any processes may
-- exit. The kernel answers the calls from the maps as they are then.
use embedshim.Prelude.{
  ℕ, ◌≡◌, refl, ap, ◌∙◌, Bool, false, some, List, [], ◌∷◌, ◌++◌, ◌==◌, if◌then◌else◌, Bool-cases,
  inl, inr,
}
use embedshim.Host.{Env, Log, Call, Event, Reply, gives, trace_task, lookup_event}
use embedshim.ExitSnoop.Types.{TaskInfo, ExitStatus, init_store}
use embedshim.Bpf.Tables.{BpfMap}
use embedshim.Bpf.{max_entries, Exiting, Step, exit, made, Kernel, run}

-- exits on top of a history
abbrev pub exits : List Exiting → List Step → List Step
exits [] ss = ss
exits (x ∷ xs) ss = exit x ∷ exits xs ss

abbrev inserting : ℕ → Call → Reply → Bool
inserting id (trace_task init_store pid info) (gives n m) = info.trace_id == id
inserting id _ _ = false

-- the call has inserted a row with the trace ID
abbrev pub inserts : ℕ → Event → Bool
inserts id e = inserting id e.call e.reply

-- no call of the log has inserted such a row
abbrev pub Unrepeated : ℕ → Log → Type 0
Unrepeated id [] = Unit
Unrepeated id (e ∷ l) = (inserts id e ≡ false) × Unrepeated id l

-- `moves l` are the exits that follow the last call of `l` and precede the next one.
module _ (moves : Log → List Exiting) where
  unfoldable pub history : Log → List Step
  history [] = exits (moves []) []
  history (e ∷ l) = exits (moves (e ∷ l)) (made e ∷ history l)

  -- what has happened since the row with the trace ID was inserted last, and up to then
  unfoldable pub since : ℕ → Log → List Step
  since id [] = exits (moves []) []
  since id (e ∷ l) =
      let rest = since id l in exits (moves (e ∷ l)) (if inserts id e then [] else made e ∷ rest)

  unfoldable pub upto : ℕ → Log → List Step
  unfolding history
  upto id [] = []
  upto id (e ∷ l) = let rest = upto id l in if inserts id e then made e ∷ history l else rest

  exits-append : (xs : List Exiting) (ss ts : List Step) → exits xs ss ++ ts ≡ exits xs (ss ++ ts)
  exits-append [] ss ts = refl
  exits-append (x ∷ xs) ss ts = ap (◌∷◌ (exit x)) (exits-append xs ss ts)

  pub since-append-upto : (id : ℕ) (l : Log) → since id l ++ upto id l ≡ history l
  unfolding since upto history
  since-append-upto id [] = exits-append (moves []) [] []
  since-append-upto id (e ∷ l) = elim (Bool-cases (inserts id e)) [
    | inl h ↦ rw h (exits-append (moves (e ∷ l)) [] (made e ∷ history l))
    | inr h ↦ rw h (
        exits-append (moves (e ∷ l)) (made e ∷ since id l) (upto id l)
        ∙ ap (λ r. exits (moves (e ∷ l)) (made e ∷ r)) (since-append-upto id l))
  ]

  pub upto-append : (id : ℕ) (m l : Log) → Unrepeated id m → upto id (m ++ l) ≡ upto id l
  unfolding upto
  upto-append id [] l h = refl
  upto-append id (e ∷ m) l h = rw (h.0) (upto-append id m l h.1)

module _ (tasks : BpfMap TaskInfo max_entries) (events : BpfMap ExitStatus max_entries) where
  pub run-append :
      (ss ts : List Step) (k : Kernel tasks events)
      → run tasks events (ss ++ ts) k ≡ run tasks events ss (run tasks events ts k)
  unfolding run
  run-append [] ts k = refl
  run-append (s ∷ ss) ts k = rw (run-append ss ts k) refl

  module _ (moves : Log → List Exiting) (first : Kernel tasks events) where
    -- the maps when the next call is made
    abbrev pub kernel_at : Log → Kernel tasks events
    kernel_at l = run tasks events (history moves l) first

    -- the kernel answers from the maps: an insertion that succeeds was made, and an event that is there
    -- is found
    pub record Answers (env : Env) : Type 0 where
      pub inserted :
          (l : Log) (pid : ℕ) (info : TaskInfo) (n m : ℕ)
          → env.reply l (trace_task init_store pid info) ≡ gives n m
          → (t : tasks.Table) × (tasks.add (kernel_at l).tracing pid info ≡ some t)
      pub found :
          (l : Log) (id : ℕ) (x : ExitStatus)
          → events.find (kernel_at l).exited id ≡ some x
          → env.reply l (lookup_event init_store id) ≡ gives x.pid x.exit_code
