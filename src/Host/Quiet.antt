-- ===== src/Host/Quiet.antt =====
-- Actions that leave the state as it was, whether they return or fail, and do not panic. One rule
-- for each way to build an action.
use embedshim.Prelude.{
  ◌≡◌, refl, subst, sym, Bool, true, false, Option, none, some, ◌⊎◌, inl, inr, if◌then◌else◌, arith,
}
use embedshim.GoError.{Err}
use embedshim.Host.{
  Env, M, Outcome, ok, err, panic, Log, Call, continue, ◌>>=◌, ◌>>◌, pure, fail, skip, give, gets,
  call, call_pair, attempt, ignore, tried, finally, tried_outcome, finish_with, after, return_both,
  wrapping,
}

abbrev pub Unchanged : {S A : Type 0} → S → Outcome S A → Type 0
Unchanged s (ok a t l) = t ≡ s
Unchanged s (err e t l) = t ≡ s
Unchanged s (panic m) = ⊥

pub record Quiet {S A : Type 0} (m : M S A) : Type 0 where
  pub at : (s : S) (l : Log) → Unchanged s (m s l)

module _ {S : Type 0} where
  pub Quiet-call_pair : (env : Env) (c : Call) → Quiet {S = S} (call_pair env c)
  Quiet-call_pair env c = record { at = λ s l. ground arith }

  pub Quiet-call : (env : Env) (c : Call) → Quiet {S = S} (call env c)
  Quiet-call env c = record { at = λ s l. ground arith }

  pub Quiet-skip : Quiet {S = S} skip
  Quiet-skip = record { at = λ s l. refl }

  pub Quiet-give : (o : Option Err) → Quiet {S = S} (give o)
  Quiet-give none = record { at = λ s l. refl }
  Quiet-give (some e) = record { at = λ s l. refl }

module _ {S A : Type 0} where
  pub Quiet-pure : (a : A) → Quiet {S = S} (pure a)
  Quiet-pure a = record { at = λ s l. refl }

  pub Quiet-fail : (e : Err) → Quiet {S = S} {A = A} (fail e)
  Quiet-fail e = record { at = λ s l. refl }

  pub Quiet-gets : (f : S → A) → Quiet (gets f)
  Quiet-gets f = record { at = λ s l. refl }

  pub Quiet-return_both : (r : Err ⊎ A) → Quiet {S = S} (return_both r)
  Quiet-return_both (inl e) = record { at = λ s l. refl }
  Quiet-return_both (inr a) = record { at = λ s l. refl }

  pub Quiet-attempt : (m : M S A) → Quiet m → Quiet (attempt m)
  Quiet-attempt m q = record { at = λ s l. ground (arith, q.at s l) }

  pub Quiet-ignore : (m : M S A) → Quiet m → Quiet (ignore m)
  Quiet-ignore m q = record { at = λ s l. ground (arith, q.at s l) }

  pub Quiet-tried : (m : M S A) → Quiet m → Quiet (tried m)
  Quiet-tried m q = record { at = λ s l. ground (arith, q.at s l) }

  pub Quiet-wrapping : (f : Err → Err) (m : M S A) → Quiet m → Quiet (wrapping f m)
  Quiet-wrapping f m q = record { at = λ s l. ground (arith, q.at s l) }

  pub Quiet-if : (b : Bool) (m n : M S A) → Quiet m → Quiet n → Quiet (if b then m else n)
  Quiet-if true m n p q = p
  Quiet-if false m n p q = q

  Unchanged-via : (s t : S) (o : Outcome S A) → t ≡ s → Unchanged t o → Unchanged s o
  Unchanged-via s t o e u = subst (λ r. Unchanged r o) e u

module _ {S A B : Type 0} where
  Unchanged-continue :
      (s : S) (o : Outcome S A) (f : A → M S B)
      → Unchanged s o
      → ((a : A) → Quiet (f a))
      → Unchanged s (continue o f)
  Unchanged-continue s (ok a t l) f u q = Unchanged-via s t (f a t l) u ((q a).at t l)
  Unchanged-continue s (err e t l) f u q = u
  Unchanged-continue s (panic m) f u q = u

  pub Quiet-bind : (m : M S A) (f : A → M S B) → Quiet m → ((a : A) → Quiet (f a)) → Quiet (m >>= f)
  Quiet-bind m f qm qf = record { at = λ s l. Unchanged-continue s (m s l) f (qm.at s l) qf }

  pub Quiet-then : (m : M S A) (n : M S B) → Quiet m → Quiet n → Quiet (m >> n)
  Quiet-then m n qm qn = record {
    at = λ s l. Unchanged-continue s (m s l) (λ _. n) (qm.at s l) (λ _. qn);
  }

module _ {S A : Type 0} where
  Unchanged-after :
      (s : S) (o : Outcome S (Unit {0})) (r : Err ⊎ A) → Unchanged s o → Unchanged s (after o r)
  Unchanged-after s (ok _ t l) (inl e) u = u
  Unchanged-after s (ok _ t l) (inr a) u = u
  Unchanged-after s (err _ t l) (inl e) u = u
  Unchanged-after s (err _ t l) (inr a) u = u
  Unchanged-after s (panic m) r u = u

  Unchanged-finish :
      (s : S) (o : Outcome S (Err ⊎ A)) (last : M S (Unit {0}))
      → Unchanged s o
      → Quiet last
      → Unchanged s (finish_with o last)
  Unchanged-finish s (ok r t l) last u q =
      Unchanged-after s (last t l) r (Unchanged-via s t (last t l) u (q.at t l))
  Unchanged-finish s (err e t l) last u q = u
  Unchanged-finish s (panic m) last u q = u

  pub Quiet-finally :
      (last : M S (Unit {0})) (m : M S A) → Quiet last → Quiet m → Quiet (finally last m)
  Quiet-finally last m ql qm = record {
    at = λ s l. Unchanged-finish s (tried m s l) last ((Quiet-tried m qm).at s l) ql;
  }

module _ {S A B : Type 0} (P : Outcome S B → Type 0) (f : Err ⊎ A → M S B) where
  tried-cases :
      (s : S) (o : Outcome S A)
      → Unchanged s o
      → ((r : Err ⊎ A) (l : Log) → P (f r s l))
      → P (continue (tried_outcome o) f)
  tried-cases s (ok a t l) u h = subst (λ x. P (f (inr a) x l)) (sym u) (h (inr a) l)
  tried-cases s (err e t l) u h = subst (λ x. P (f (inl e) x l)) (sym u) (h (inl e) l)
  tried-cases s (panic m) u h = elim u [ ]

  -- what holds after both results of a quiet call holds after the call
  pub Quiet-tried-cases :
      (m : M S A) (s : S) (l : Log)
      → Quiet m
      → ((r : Err ⊎ A) (l' : Log) → P (f r s l'))
      → P (continue (tried m s l) f)
  Quiet-tried-cases m s l q h = tried-cases s (m s l) (q.at s l) h

pub ruleset quiet_rules = (
  Quiet-call_pair, Quiet-call, Quiet-skip, Quiet-give, Quiet-pure, Quiet-fail, Quiet-gets,
  Quiet-return_both, Quiet-attempt, Quiet-ignore, Quiet-tried, Quiet-wrapping, Quiet-if, Quiet-bind,
  Quiet-then, Quiet-finally,
)
