-- ===== src/Host/Ledger.antt =====
-- What a run takes and gives back, counted in its log: each call with its reply takes `gain` and gives
-- back `spend`.
use embedshim.Prelude.{ℕ, ◌+◌, ◌⊎◌, inl, inr, [], ◌∷◌, ◌≡◌, arith}
use embedshim.GoError.{Err}
use embedshim.Host.{
  M, Outcome, ok, err, panic, Log, Call, Reply, continue, rolled_back, dropping, finally,
  finish_with, tried_outcome, after,
}

module _ (gain spend : Call → Reply → ℕ) where
  abbrev pub gains : Log → ℕ
  gains [] = 0
  gains (e ∷ l) = gain e.call e.reply + gains l

  abbrev pub spends : Log → ℕ
  spends [] = 0
  spends (e ∷ l) = spend e.call e.reply + spends l

  -- From log `l` on, where `before` are held: `after` are held if the run succeeds, and `failing` if
  -- it fails.
  abbrev pub Owes : {S A : Type 0} → Log → ℕ → ℕ → ℕ → Outcome S A → Type 0
  Owes l before after failing (ok _ s m) = gains m + spends l + before ≡ gains l + spends m + after
  Owes l before after failing (err _ s m) =
      gains m + spends l + before ≡ gains l + spends m + failing
  Owes l before after failing (panic e) = ⊥

  module _ {S B : Type 0} where
    Owes-from :
        (l m : Log) (a b c d : ℕ) (o : Outcome S B)
        → gains m + spends l + a ≡ gains l + spends m + b
        → Owes m b c d o
        → Owes l a c d o
    Owes-from l m a b c d (ok y t n) h q = omega arith
    Owes-from l m a b c d (err e t n) h q = omega arith
    Owes-from l m a b c d (panic e) h q = q

  module _ {S A B : Type 0} where
    pub Owes-bind :
        (l : Log) (a b c d : ℕ) (o : Outcome S A) (f : A → M S B)
        → Owes l a b d o
        → ((x : A) (s : S) (m : Log) → Owes m b c d (f x s m))
        → Owes l a c d (continue o f)
    Owes-bind l a b c d (ok x s m) f h k = Owes-from l m a b c d (f x s m) h (k x s m)
    Owes-bind l a b c d (err e s m) f h k = h
    Owes-bind l a b c d (panic e) f h k = h

  module _ {S : Type 0} where
    Owes-dropping :
        (A : Type 0) (l m : Log) (a b c d : ℕ) (e : Err) (o : Outcome S (Unit {0}))
        → gains m + spends l + a ≡ gains l + spends m + c
        → Owes m c d d o
        → Owes {A = A} l a b d (dropping o e)
    Owes-dropping A l m a b c d e (ok y t n) h q = omega arith
    Owes-dropping A l m a b c d e (err x t n) h q = omega arith
    Owes-dropping A l m a b c d e (panic x) h q = q

  module _ {S A : Type 0} where
    pub Owes-rolled_back :
        (l : Log) (a b c d : ℕ) (undo : Err → M S (Unit {0})) (o : Outcome S A)
        → Owes l a b c o
        → ((e : Err) (s : S) (m : Log) → Owes m c d d (undo e s m))
        → Owes l a b d (rolled_back o undo)
    Owes-rolled_back l a b c d undo (ok x s m) h k = h
    Owes-rolled_back l a b c d undo (err e s m) h k =
        Owes-dropping A l m a b c d e (undo e s m) h (k e s m)
    Owes-rolled_back l a b c d undo (panic e) h k = h

    Owes-after :
        (l m : Log) (a b : ℕ) (r : Err ⊎ A) (o : Outcome S (Unit {0}))
        → gains m + spends l + a ≡ gains l + spends m + b
        → Owes m b b b o
        → Owes l a b b (after o r)
    Owes-after l m a b (inr x) (ok y t n) h q = omega arith
    Owes-after l m a b (inr x) (err e t n) h q = omega arith
    Owes-after l m a b (inr x) (panic e) h q = q
    Owes-after l m a b (inl x) (ok y t n) h q = omega arith
    Owes-after l m a b (inl x) (err e t n) h q = omega arith
    Owes-after l m a b (inl x) (panic e) h q = q

    pub Owes-finally :
        (l : Log) (a b : ℕ) (last : M S (Unit {0})) (m : M S A) (s : S)
        → Owes l a b b (m s l)
        → ((t : S) (n : Log) → Owes n b b b (last t n))
        → Owes l a b b (finally last m s l)
    Owes-finally l a b last m s h k = finished (m s l) h
      where
        finished :
            (o : Outcome S A) → Owes l a b b o → Owes l a b b (finish_with (tried_outcome o) last)
        finished (ok x t n) q = Owes-after l n a b (inr x) (last t n) q (k t n)
        finished (err e t n) q = Owes-after l n a b (inl e) (last t n) q (k t n)
        finished (panic e) q = q

    -- what is held besides
    pub Owes-more :
        (l : Log) (a b c k : ℕ) (o : Outcome S A)
        → Owes l a b c o
        → Owes l (k + a) (k + b) (k + c) o
    Owes-more l a b c k (ok x s m) h = omega arith
    Owes-more l a b c k (err e s m) h = omega arith
    Owes-more l a b c k (panic e) h = h
