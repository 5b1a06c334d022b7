-- ===== src/Host/Logged.antt =====
-- What a run that succeeds leaves in the log. Of a run that fails nothing is stated.
use embedshim.Prelude.{ℕ, ◌≡◌, ◌∷◌, inl, inr, subst, String}
use embedshim.GoError.{Err}
use embedshim.Host.{
  M, Env, Call, Outcome, ok, err, panic, Log, continue, renamed, rolled_back, dropping, call,
  call_pair, gives, Reply-cases,
}

pub data Logged {S A : Type 0} (P : A → Log → Type 0) : Outcome S A → Type 0 where
  succeeded : {a : A} {s : S} {l : Log} → P a l → Logged P (ok a s l)
  failed : {e : Err} {s : S} {l : Log} → Logged P (err e s l)
  crashed : {m : String} → Logged P (panic m)

module _ {S A : Type 0} (P : A → Log → Type 0) where
  abbrev Held : Outcome S A → Type 0
  Held (ok a s l) = P a l
  Held (err e s l) = Unit
  Held (panic m) = Unit

  held : {o : Outcome S A} → Logged P o → Held o
  held (succeeded h) = h
  held failed = tt
  held crashed = tt

  -- what is known of a run that has succeeded
  pub at_success : (a : A) (s : S) (l : Log) (o : Outcome S A) → Logged P o → o ≡ ok a s l → P a l
  at_success a s l o h e = subst Held e (held h)

module _ {S A : Type 0} {P : A → Log → Type 0} where
  dropped : (e : Err) (o : Outcome S (Unit {0})) → Logged P (dropping {A = A} o e)
  dropped e (ok x s l) = failed
  dropped e (err x s l) = failed
  dropped e (panic m) = crashed

  pub Logged-rolled_back :
      (undo : Err → M S (Unit {0})) {o : Outcome S A} → Logged P o → Logged P (rolled_back o undo)
  Logged-rolled_back undo (succeeded h) = succeeded h
  Logged-rolled_back undo (failed {e} {s} {l}) = dropped e (undo e s l)
  Logged-rolled_back undo crashed = crashed

  pub Logged-renamed : (f : Err → Err) {o : Outcome S A} → Logged P o → Logged P (renamed f o)
  Logged-renamed f (succeeded h) = succeeded h
  Logged-renamed f failed = failed
  Logged-renamed f crashed = crashed

module _ {S A B : Type 0} {P : A → Log → Type 0} {Q : B → Log → Type 0} where
  pub Logged-bind :
      {o : Outcome S A} {f : A → M S B}
      → Logged P o
      → ((a : A) (s : S) (l : Log) → P a l → Logged Q (f a s l))
      → Logged Q (continue o f)
  Logged-bind (succeeded {a} {s} {l} h) k = k a s l h
  Logged-bind failed k = failed
  Logged-bind crashed k = crashed

module _ {S : Type 0} (env : Env) (c : Call) (s : S) (l : Log) where
  pub call_pair-Logged :
      (P : ℕ × ℕ → Log → Type 0)
      → ((n m : ℕ)
          → env.reply l c ≡ gives n m
          → P (n, m) (record { call = c; reply = gives n m } ∷ l))
      → Logged P (call_pair env c s l)
  call_pair-Logged P h = elim (Reply-cases (env.reply l c)) [
    | inl (e, r) ↦ rw r failed
    | inr (n, m, r) ↦ rw r (succeeded (h n m r))
  ]

  pub call-Logged :
      (P : ℕ → Log → Type 0)
      → ((n m : ℕ) → env.reply l c ≡ gives n m → P n (record { call = c; reply = gives n m } ∷ l))
      → Logged P (call env c s l)
  call-Logged P h = elim (Reply-cases (env.reply l c)) [
    | inl (e, r) ↦ rw r failed
    | inr (n, m, r) ↦ rw r (succeeded (h n m r))
  ]
