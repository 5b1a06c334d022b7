-- ===== src/Host/Stuck.antt =====
-- Actions that always fail, with the state as it was: for code that runs without something it needs.
use embedshim.Prelude.{◌≡◌, refl, ◌∙◌, inl}
use embedshim.GoError.{Err}
use embedshim.Host.{
  Env, M, Outcome, ok, err, panic, Log, Call, fails, call, continue, ◌>>=◌, ◌>>◌, after, finally,
  finish_with, tried_outcome, renamed, wrapping,
}
use embedshim.Host.Quiet.{Quiet, Unchanged}

abbrev pub Broken : {S A : Type 0} → S → Outcome S A → Type 0
Broken s (ok a t l) = ⊥
Broken s (err e t l) = t ≡ s
Broken s (panic m) = ⊥

pub record Stuck {S A : Type 0} (m : M S A) : Type 0 where
  pub at : (s : S) (l : Log) → Broken s (m s l)

-- a call that fails whenever it is made
abbrev pub AlwaysFails : Env → Call → Type 0
AlwaysFails env c = (l : Log) → (e : Err) × (env.reply l c ≡ fails e)

module _ {S : Type 0} where
  pub Stuck-call : (env : Env) (c : Call) → AlwaysFails env c → Stuck {S = S} (call env c)
  Stuck-call env c h = record { at = λ s l. rw ((h l).1) refl }

module _ {S : Type 0} where
  Broken-after :
      (A : Type 0) (s t : S) (e : Err) (o : Outcome S (Unit {0}))
      → t ≡ s
      → Unchanged t o
      → Broken {A = A} s (after o (inl e))
  Broken-after A s t e (ok x u l) h q = q ∙ h
  Broken-after A s t e (err x u l) h q = q ∙ h
  Broken-after A s t e (panic m) h q = q

module _ {S A : Type 0} where
  Broken-renamed : (s : S) (f : Err → Err) (o : Outcome S A) → Broken s o → Broken s (renamed f o)
  Broken-renamed s f (ok a t l) h = h
  Broken-renamed s f (err e t l) h = h
  Broken-renamed s f (panic m) h = h

  pub Stuck-wrapping : (f : Err → Err) (m : M S A) → Stuck m → Stuck (wrapping f m)
  Stuck-wrapping f m k = record { at = λ s l. Broken-renamed s f (m s l) (k.at s l) }

  finished :
      (s : S) (last : M S (Unit {0})) (o : Outcome S A)
      → Quiet last
      → Broken s o
      → Broken s (finish_with (tried_outcome o) last)
  finished s last (ok a t l) q h = elim h [ ]
  finished s last (err e t l) q h = Broken-after A s t e (last t l) h (q.at t l)
  finished s last (panic m) q h = elim h [ ]

  pub Stuck-finally :
      (last : M S (Unit {0})) (m : M S A) → Quiet last → Stuck m → Stuck (finally last m)
  Stuck-finally last m q k = record { at = λ s l. finished s last (m s l) q (k.at s l) }

module _ {S B : Type 0} where
  Broken-via : (s t : S) (o : Outcome S B) → t ≡ s → Broken t o → Broken s o
  Broken-via s t (ok b u l) e h = h
  Broken-via s t (err x u l) e h = h ∙ e
  Broken-via s t (panic m) e h = h

module _ {S A B : Type 0} where
  Broken-continue :
      (s : S) (o : Outcome S A) (f : A → M S B)
      → Unchanged s o
      → ((a : A) → Stuck (f a))
      → Broken s (continue o f)
  Broken-continue s (ok a t l) f u k = Broken-via s t (f a t l) u ((k a).at t l)
  Broken-continue s (err e t l) f u k = u
  Broken-continue s (panic m) f u k = u

  pub Stuck-bind : (m : M S A) (f : A → M S B) → Quiet m → ((a : A) → Stuck (f a)) → Stuck (m >>= f)
  Stuck-bind m f q k = record { at = λ s l. Broken-continue s (m s l) f (q.at s l) k }

  pub Stuck-then : (m : M S A) (n : M S B) → Quiet m → Stuck n → Stuck (m >> n)
  Stuck-then m n q k = record { at = λ s l. Broken-continue s (m s l) (λ _. n) (q.at s l) (λ _. k) }

  Broken-left : (s : S) (o : Outcome S A) (f : A → M S B) → Broken s o → Broken s (continue o f)
  Broken-left s (ok a t l) f h = elim h [ ]
  Broken-left s (err e t l) f h = h
  Broken-left s (panic m) f h = h

  pub Stuck-left : (m : M S A) (n : M S B) → Stuck m → Stuck (m >> n)
  Stuck-left m n k = record { at = λ s l. Broken-left s (m s l) (λ _. n) (k.at s l) }

pub ruleset stuck_rules = (Stuck-wrapping, Stuck-finally, Stuck-bind, Stuck-then, Stuck-left)
