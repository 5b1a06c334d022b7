-- ===== src/Host/Ran.antt =====
-- What a run leaves in the log, for every way in which it ends.
use embedshim.Prelude.{ℕ, ◌∷◌, inl, inr, String}
use embedshim.GoError.{Err}
use embedshim.Host.{
  renamed, rolled_back, dropping, after, finish_with, tried_outcome, Env, Call, Reply, fails, gives,
  Reply-cases, call, ignore, M, Outcome, ok, err, panic, Log, continue,
}

-- A run that returns a value satisfies `P`, one that fails `E`, and a panic `X`.
abbrev pub Ran :
    {S A : Type 0} → (String → Type 0) → (A → Log → Type 0) → (Log → Type 0) → Outcome S A → Type 0
Ran X P E (ok a s l) = P a l
Ran X P E (err e s l) = E l
Ran X P E (panic m) = X m

-- nothing is stated
abbrev pub Whatever : {A : Type 0} → A → Type 0
Whatever x = Unit

-- for what does not occur
abbrev pub Never : {A : Type 0} → A → Type 0
Never x = ⊥

module _ (X : String → Type 0) where
  module _ {S A B : Type 0} where
    pub Ran-bind :
        (P : A → Log → Type 0) (Q : B → Log → Type 0) (E F : Log → Type 0) (o : Outcome S A)
        (f : A → M S B)
        → Ran X P E o
        → ((a : A) (s : S) (l : Log) → P a l → Ran X Q F (f a s l))
        → ((l : Log) → E l → F l)
        → Ran X Q F (continue o f)
    Ran-bind P Q E F (ok a s l) f h k e = k a s l h
    Ran-bind P Q E F (err x s l) f h k e = e l h
    Ran-bind P Q E F (panic m) f h k e = h

  module _ {S A : Type 0} where
    pub Ran-weaken :
        (P Q : A → Log → Type 0) (E F : Log → Type 0) (o : Outcome S A)
        → Ran X P E o
        → ((a : A) (l : Log) → P a l → Q a l)
        → ((l : Log) → E l → F l)
        → Ran X Q F o
    Ran-weaken P Q E F (ok a s l) h p e = p a l h
    Ran-weaken P Q E F (err x s l) h p e = e l h
    Ran-weaken P Q E F (panic m) h p e = h

  module _ (env : Env) {S : Type 0} where
    pub call-Ran :
        (c : Call) (P : ℕ → Log → Type 0) (E : Log → Type 0) (s : S) (l : Log)
        → ((n m : ℕ) → P n (record { call = c; reply = gives n m } ∷ l))
        → ((e : Err) → E (record { call = c; reply = fails e } ∷ l))
        → Ran X P E (call env c s l)
    call-Ran c P E s l p e = elim (Reply-cases (env.reply l c)) [
      | inl (x, r) ↦ rw r (e x)
      | inr (n, m, r) ↦ rw r (p n m)
    ]

    -- a call whose error is not looked at
    pub ignore-Ran :
        (c : Call) (P : Log → Type 0) (E : Log → Type 0) (s : S) (l : Log)
        → ((r : Reply) → P (record { call = c; reply = r } ∷ l))
        → Ran X (λ _. P) E (ignore (call env c) s l)
    ignore-Ran c P E s l p = elim (Reply-cases (env.reply l c)) [
      | inl (x, r) ↦ rw r (p _)
      | inr (n, m, r) ↦ rw r (p _)
    ]

  module _ {S A : Type 0} where
    after-Ran :
        (P : Log → Type 0) (a : A) (o : Outcome S (Unit {0}))
        → Ran X (λ _. P) P o
        → (E : Log → Type 0) → Ran X (λ _. P) E (after o (inr a))
    after-Ran P a (ok x s l) h E = h
    after-Ran P a (err x s l) h E = h
    after-Ran P a (panic m) h E = h

    after-failed-Ran :
        (E : Log → Type 0) (x : Err) (o : Outcome S (Unit {0}))
        → Ran X (λ _. E) E o
        → (P : A → Log → Type 0) → Ran X P E (after o (inl x))
    after-failed-Ran E x (ok y s l) h P = h
    after-failed-Ran E x (err y s l) h P = h
    after-failed-Ran E x (panic m) h P = h

    -- `defer last()`, where `last` keeps what is known
    pub finally-Ran :
        (P : Log → Type 0) (E : Log → Type 0) (o : Outcome S A) (last : M S (Unit {0}))
        → Ran X (λ _. P) E o
        → ((s : S) (l : Log) → P l → Ran X (λ _. P) P (last s l))
        → ((s : S) (l : Log) → E l → Ran X (λ _. E) E (last s l))
        → Ran X (λ _. P) E (finish_with (tried_outcome o) last)
    finally-Ran P E (ok a s l) last h p e = after-Ran P a (last s l) (p s l h) E
    finally-Ran P E (err x s l) last h p e = after-failed-Ran E x (last s l) (e s l h) (λ _. P)
    finally-Ran P E (panic m) last h p e = h

-- A run that returns a value leaves a state and a value in this relation.
abbrev pub Gives : {S A : Type 0} → (A → S → Type 0) → Outcome S A → Type 0
Gives P (ok a s l) = P a s
Gives P (err e s l) = Unit
Gives P (panic m) = Unit

module _ {S A : Type 0} (P : A → S → Type 0) where
  pub Gives-rolled_back :
      (o : Outcome S A) (undo : Err → M S (Unit {0})) → Gives P o → Gives P (rolled_back o undo)
  Gives-rolled_back (ok a s l) undo h = h
  Gives-rolled_back (err e s l) undo h = dropped (undo e s l)
    where
      dropped : (o : Outcome S (Unit {0})) → Gives P (dropping {A = A} o e)
      dropped (ok x s l) = tt
      dropped (err x s l) = tt
      dropped (panic m) = tt
  Gives-rolled_back (panic m) undo h = tt

  pub Gives-renamed : (f : Err → Err) (o : Outcome S A) → Gives P o → Gives P (renamed f o)
  Gives-renamed f (ok a s l) h = h
  Gives-renamed f (err e s l) h = tt
  Gives-renamed f (panic m) h = tt

module _ {S A B : Type 0} where
  pub Gives-bind :
      (P : A → S → Type 0) (Q : B → S → Type 0) (o : Outcome S A) (f : A → M S B)
      → Gives P o
      → ((a : A) (s : S) (l : Log) → P a s → Gives Q (f a s l))
      → Gives Q (continue o f)
  Gives-bind P Q (ok a s l) f h k = k a s l h
  Gives-bind P Q (err e s l) f h k = tt
  Gives-bind P Q (panic m) f h k = tt

  -- nothing is known of what comes first
  pub Gives-after :
      (Q : B → S → Type 0) (o : Outcome S A) (f : A → M S B)
      → ((a : A) (s : S) (l : Log) → Gives Q (f a s l))
      → Gives Q (continue o f)
  Gives-after Q (ok a s l) f k = k a s l
  Gives-after Q (err e s l) f k = tt
  Gives-after Q (panic m) f k = tt
