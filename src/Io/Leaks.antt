-- ===== src/Io/Leaks.antt =====
-- The descriptors of newRuncPipeIO: what a failed call has opened, its clean-up closes.
use embedshim.Prelude.{
  ℕ, ◌+◌, ◌≡◌, refl, inl, inr, Bool, true, false, Option, none, some, List, [], ◌∷◌, ◌++◌, String,
  arith, ◌==◌, if◌then◌else◌, Bool-cases,
}
use embedshim.GoError.{wrap}
use embedshim.Host.{
  Env, M, Outcome, ok, err, panic, continue, Log, opens, closes, Stdio, ignore, rolled_back,
  dropping, wrapping, call, fchown, pure, ◌>>◌,
}
use embedshim.Io.{
  Pipe, PipeIo, Closer, pipe, file, is_set, close_closer, close_all, guarded, new_pipe,
  open_rw_fifo, stdin_part, fifo_part, new_runc_pipe_io,
}

abbrev hits : ℕ → ℕ → ℕ
hits n m = if m == n then 1 else 0

abbrev held_by : ℕ → Closer → ℕ
held_by n (pipe p) = hits n p.r + hits n p.w
held_by n (file f) = hits n f

-- how often `n` stands among the descriptors that are held
abbrev held : ℕ → List Closer → ℕ
held n [] = 0
held n (c ∷ cs) = held_by n c + held n cs

abbrev held_pipe : ℕ → Option Pipe → ℕ
held_pipe n none = 0
held_pipe n (some p) = held_by n (pipe p)

abbrev held_file : ℕ → Option ℕ → ℕ
held_file n none = 0
held_file n (some f) = hits n f

-- how often a finished I/O holds descriptor `n`
abbrev pub held_io : ℕ → PipeIo → ℕ
held_io n i = held_pipe n i.stdin + held_file n i.stdout + held_file n i.stderr

-- From `before` descriptors `n` held at log `l`: a result holds those that `after` counts and
-- satisfies `Post`; an error holds none.
abbrev pub Accounts : {S A : Type 0} → ℕ → Log → ℕ → (A → ℕ) → (A → Type 0) → Outcome S A → Type 0
Accounts n l before after Post (ok a s l') =
    (opens n l' + closes n l + before ≡ opens n l + closes n l' + after a) × Post a
Accounts n l before after Post (err e s l') =
    opens n l' + closes n l + before ≡ opens n l + closes n l'
Accounts n l before after Post (panic m) = ⊥

abbrev pub Anything : {A : Type 0} → A → Type 0
Anything a = Unit

-- the log after a clean-up, which always returns
abbrev Closed : {S : Type 0} → ℕ → Log → ℕ → Outcome S (Unit {0}) → Type 0
Closed n l before (ok a s l') = opens n l' + closes n l + before ≡ opens n l + closes n l'
Closed n l before (err e s l') = ⊥
Closed n l before (panic m) = ⊥

module _ (n : ℕ) {S B : Type 0} where
  Accounts-shift :
      (l l' : Log) (before mid : ℕ) (end : B → ℕ) (Post : B → Type 0) (o : Outcome S B)
      → opens n l' + closes n l + before ≡ opens n l + closes n l' + mid
      → Accounts n l' mid end Post o
      → Accounts n l before end Post o
  Accounts-shift l l' before mid end Post (ok b t l'') h q = (omega arith, q.1)
  Accounts-shift l l' before mid end Post (err e t l'') h q = omega arith
  Accounts-shift l l' before mid end Post (panic m) h q = q

  -- a failed action is followed by the clean-up of what was held before it
  Accounts-undo :
      (l : Log) (before : ℕ) (after : B → ℕ) (o : Outcome S B) (undo : M S (Unit {0}))
      → Accounts n l 0 after Anything o
      → ((s : S) (l' : Log) → Closed n l' before (undo s l'))
      → Accounts n l before (λ a. after a + before) Anything (rolled_back o (λ _. undo))
  Accounts-undo l before after (ok a s l') undo h k = (omega arith, tt)
  Accounts-undo l before after (err e s l') undo h k = sum (undo s l') (k s l')
    where
      sum :
          (o : Outcome S (Unit {0}))
          → Closed n l' before o
          → Accounts n l before (λ (a : B). after a + before) Anything (dropping o e)
      sum (ok y t l'') q = omega arith
      sum (err e t l'') q = elim q [ ]
      sum (panic m) q = q
  Accounts-undo l before after (panic m) undo h k = h

module _ (n : ℕ) {S A B : Type 0} where
  Accounts-bind :
      (l : Log) (before : ℕ) (mid : A → ℕ) (Mid : A → Type 0) (end : B → ℕ) (End : B → Type 0)
      (o : Outcome S A) (f : A → M S B)
      → Accounts n l before mid Mid o
      → ((a : A) (s : S) (l' : Log) → Mid a → Accounts n l' (mid a) end End (f a s l'))
      → Accounts n l before end End (continue o f)
  Accounts-bind l before mid Mid end End (ok a s l') f h k =
      Accounts-shift n l l' before (mid a) end End (f a s l') h.0 (k a s l' h.1)
  Accounts-bind l before mid Mid end End (err e s l') f h k = h
  Accounts-bind l before mid Mid end End (panic m) f h k = h

module _ (n : ℕ) {S : Type 0} where
  Closed-bind :
      (l : Log) (a b : ℕ) (o : Outcome S (Unit {0})) (f : M S (Unit {0}))
      → Closed n l a o
      → ((s : S) (l' : Log) → Closed n l' b (f s l'))
      → Closed n l (a + b) (continue o (λ _. f))
  Closed-bind l a b (ok x s l') f h k = sum (f s l') (k s l')
    where
      sum : (o : Outcome S (Unit {0})) → Closed n l' b o → Closed n l (a + b) o
      sum (ok y t l'') q = omega arith
      sum (err e t l'') q = q
      sum (panic m) q = q
  Closed-bind l a b (err e s l') f h k = h
  Closed-bind l a b (panic m) f h k = h

module _ (env : Env) (n : ℕ) {S : Type 0} where
  close_closer-Closed :
      (c : Closer) (s : S) (l : Log) → Closed n l (held_by n c) (ignore (close_closer env c) s l)
  unfolding close_closer
  close_closer-Closed (pipe p) s l = ground arith
  close_closer-Closed (file f) s l = ground arith

  close_all-Closed :
      (cs : List Closer) (s : S) (l : Log) → Closed n l (held n cs) (close_all env cs s l)
  unfolding close_all
  close_all-Closed [] s l = omega arith
  close_all-Closed (c ∷ cs) s l =
      Closed-bind n l (held_by n c) (held n cs) (ignore (close_closer env c) s l) (close_all env cs)
        (close_closer-Closed c s l) (close_all-Closed cs)

  new_pipe-Accounts :
      (s : S) (l : Log) → Accounts n l 0 (λ p. held_by n (pipe p)) Anything (new_pipe env s l)
  unfolding new_pipe
  new_pipe-Accounts s l = ground arith

  open_rw_fifo-Accounts :
      (path : String) (s : S) (l : Log)
      → Accounts n l 0 (hits n) Anything (open_rw_fifo env path s l)
  unfolding open_rw_fifo
  open_rw_fifo-Accounts path s l = ground arith

  fchown-Accounts :
      (name : String) (f : ℕ) (s : S) (l : Log)
      → Accounts n l 0 (λ _. 0) Anything (wrapping (wrap name) (call env (fchown f)) s l)
  fchown-Accounts name f s l = ground arith

module _ (env : Env) (n : ℕ) {S A : Type 0} where
  guarded-Accounts :
      (cs : List Closer) (after : A → ℕ) (m : M S A) (s : S) (l : Log)
      → Accounts n l 0 after Anything (m s l)
      → Accounts n l (held n cs) (λ a. after a + held n cs) Anything (guarded env cs m s l)
  unfolding guarded
  guarded-Accounts cs after m s l h =
      Accounts-undo n l (held n cs) after (m s l) (close_all env cs) h (close_all-Closed env n cs)

module _ (env : Env) (n : ℕ) {S : Type 0} where
  guarded-chown :
      (cs : List Closer) (name : String) (f : ℕ) (s : S) (l : Log)
      → Accounts n l
          (held n cs)
          (λ _. 0 + held n cs)
          Anything
          (guarded env cs (wrapping (wrap name) (call env (fchown f))) s l)
  guarded-chown cs name f s l =
      guarded-Accounts env n cs (λ _. 0) (wrapping (wrap name) (call env (fchown f))) s l
        (fchown-Accounts env n name f s l)

module _ (env : Env) (n : ℕ) {S A : Type 0} where
  -- a descriptor is chowned and becomes part of the result
  chown-Accounts :
      (cs : List Closer) (name : String) (f : ℕ) (r : A) (after : A → ℕ) (Post : A → Type 0)
      (before : ℕ) (s : S) (l : Log)
      → before ≡ held n cs
      → after r ≡ held n cs
      → Post r
      → Accounts n l before after Post
          ((guarded env cs (wrapping (wrap name) (call env (fchown f))) >> pure r) s l)
  chown-Accounts cs name f r after Post before s l e e' post = rw e (
      Accounts-bind n l (held n cs) (λ _. 0 + held n cs) Anything after Post
        (guarded env cs (wrapping (wrap name) (call env (fchown f))) s l) (λ _. pure r)
        (guarded-chown env n cs name f s l) λ a t l' _. (omega arith, post))

held-append : (n : ℕ) (cs ds : List Closer) → held n (cs ++ ds) ≡ held n cs + held n ds
held-append n [] ds = omega arith
held-append n (c ∷ cs) ds = omega (arith, held-append n cs ds)

module _ (env : Env) (n : ℕ) {S : Type 0} where
  stdin_part-Accounts :
      (wanted : Bool) (s : S) (l : Log)
      → Accounts n l 0
          (λ r. held n r.1)
          (λ r. held n r.1 ≡ held_pipe n r.0)
          (stdin_part env wanted s l)
  unfolding stdin_part
  stdin_part-Accounts false s l = (omega arith, refl)
  stdin_part-Accounts true s l =
      Accounts-bind n l 0 (λ p. held_by n (pipe p) + 0) Anything (λ r. held n r.1)
        (λ r. held n r.1 ≡ held_pipe n r.0) (guarded env [] (new_pipe env) s l) _
        (guarded-Accounts env n [] (λ p. held_by n (pipe p)) (new_pipe env) s l
          (new_pipe-Accounts env n s l))
        λ p t l' _.
          chown-Accounts env n (pipe p ∷ []) "failed to chown stdin" p.r (some p, pipe p ∷ [])
            (λ r. held n r.1) (λ r. held n r.1 ≡ held_pipe n r.0) (held_by n (pipe p) + 0) t l' refl
            refl (omega arith)

  fifo_part-Accounts :
      (wanted : Bool) (name path : String) (cs : List Closer) (s : S) (l : Log)
      → Accounts n l
          (held n cs)
          (λ r. held n r.1)
          (λ r. held n r.1 ≡ held n cs + held_file n r.0)
          (fifo_part env wanted name path cs s l)
  unfolding fifo_part
  fifo_part-Accounts wanted name path cs s l = elim (Bool-cases wanted) [
    | inr unset ↦ rw unset (omega arith, omega arith)
    | inl set ↦ rw set (
        Accounts-bind n l (held n cs) (λ f. hits n f + held n cs) Anything (λ r. held n r.1)
          (λ r. held n r.1 ≡ held n cs + held_file n r.0)
          (guarded env cs (open_rw_fifo env path) s l) _
          (guarded-Accounts env n cs (hits n) (open_rw_fifo env path) s l
            (open_rw_fifo-Accounts env n path s l))
          λ f t l' _.
            chown-Accounts env n (cs ++ file f ∷ []) name f (some f, cs ++ file f ∷ [])
              (λ r. held n r.1) (λ r. held n r.1 ≡ held n cs + held_file n r.0)
              (hits n f + held n cs) t l' (omega (arith, held-append n cs (file f ∷ []))) refl
              (omega (arith, held-append n cs (file f ∷ []))))
  ]

  -- On every run of newRuncPipeIO, whatever the system calls answer: if it fails, it has closed every
  -- descriptor that it opened, as often as it opened it; if it succeeds, the descriptors opened and
  -- not closed are those of the returned pipe and fifos. It never panics.
  pub new_runc_pipe_io-Accounts :
      (stdio : Stdio) (s : S) (l : Log)
      → Accounts n l 0 (held_io n) Anything (new_runc_pipe_io env stdio s l)
  unfolding new_runc_pipe_io
  new_runc_pipe_io-Accounts stdio s l =
      Accounts-bind n l 0 (λ r. held n r.1) (λ r. held n r.1 ≡ held_pipe n r.0) (held_io n) Anything
        (stdin_part env (is_set stdio.stdin) s l) _ (stdin_part-Accounts (is_set stdio.stdin) s l)
        λ (i, cs) t l' hi.
          Accounts-bind n l' (held n cs) (λ r. held n r.1)
            (λ r. held n r.1 ≡ held n cs + held_file n r.0) (held_io n) Anything
            (fifo_part env (is_set stdio.stdout) "failed to chown stdout" stdio.stdout cs t l') _
            (fifo_part-Accounts (is_set stdio.stdout) "failed to chown stdout" stdio.stdout cs t l')
            λ (o, ds) u l'' ho.
              Accounts-bind n l'' (held n ds) (λ r. held n r.1)
                (λ r. held n r.1 ≡ held n ds + held_file n r.0) (held_io n) Anything
                (fifo_part env (is_set stdio.stderr) "failed to chown stderr" stdio.stderr ds u l'')
                _
                (fifo_part-Accounts (is_set stdio.stderr) "failed to chown stderr" stdio.stderr ds u
                  l'')
                λ (e, es) v l''' he. (omega arith, tt)
