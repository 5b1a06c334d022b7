-- ===== src/Host/Keeps.antt =====
-- Actions that leave a view of the state as it was, whether they return or fail, and panic only with
-- the messages in `X`. One rule for each way to build an action.
use embedshim.Prelude.{String, ◌≡◌, refl, ◌∙◌, Bool, true, false, ◌⊎◌, inl, inr, if◌then◌else◌}
use embedshim.GoError.{Err}
use embedshim.Host.{
  M, Outcome, ok, err, panic, Log, continue, ◌>>=◌, ◌>>◌, crash, modify, forgotten, ignore, tried,
  tried_outcome, finally, finish_with, after, on_error, rolled_back, dropping, renamed, wrapping,
}
use embedshim.Host.Quiet.{Quiet, Unchanged}

abbrev pub Same : {S V A : Type 0} → (S → V) → (String → Type 0) → S → Outcome S A → Type 0
Same f X s (ok a t l) = f t ≡ f s
Same f X s (err e t l) = f t ≡ f s
Same f X s (panic m) = X m

pub record Keeps {S V A : Type 0} (f : S → V) (X : String → Type 0) (m : M S A) : Type 0 where
  pub at : (s : S) (l : Log) → Same f X s (m s l)

module _ {S V : Type 0} (f : S → V) (X : String → Type 0) where
  Same-dropping :
      (A : Type 0) (s : S) (e : Err) (o : Outcome S (Unit {0}))
      → Same f X s o
      → Same f X s (dropping {A = A} o e)
  Same-dropping A s e (ok a t l) h = h
  Same-dropping A s e (err x t l) h = h
  Same-dropping A s e (panic m) h = h

  module _ {A : Type 0} where
    Same-Unchanged : (s : S) (o : Outcome S A) → Unchanged s o → Same f X s o
    Same-Unchanged s (ok a t l) u = rw u refl
    Same-Unchanged s (err e t l) u = rw u refl
    Same-Unchanged s (panic m) u = elim u [ ]

    pub Keeps-Quiet : (m : M S A) → Quiet m → Keeps f X m
    Keeps-Quiet m q = record { at = λ s l. Same-Unchanged s (m s l) (q.at s l) }

    pub Same-via : (s t : S) (o : Outcome S A) → f t ≡ f s → Same f X t o → Same f X s o
    Same-via s t (ok a u l) e h = h ∙ e
    Same-via s t (err x u l) e h = h ∙ e
    Same-via s t (panic m) e h = h

    pub Keeps-crash : (m : String) → X m → Keeps {A = A} f X (crash m)
    Keeps-crash m x = record { at = λ s l. x }

    pub Keeps-if :
        (b : Bool) (m n : M S A) → Keeps f X m → Keeps f X n → Keeps f X (if b then m else n)
    Keeps-if true m n p q = p
    Keeps-if false m n p q = q

    Same-forgotten : (s : S) (o : Outcome S A) → Same f X s o → Same f X s (forgotten o)
    Same-forgotten s (ok a t l) h = h
    Same-forgotten s (err e t l) h = h
    Same-forgotten s (panic m) h = h

    pub Keeps-ignore : (m : M S A) → Keeps f X m → Keeps f X (ignore m)
    Keeps-ignore m k = record { at = λ s l. Same-forgotten s (m s l) (k.at s l) }

    Same-tried : (s : S) (o : Outcome S A) → Same f X s o → Same f X s (tried_outcome o)
    Same-tried s (ok a t l) h = h
    Same-tried s (err e t l) h = h
    Same-tried s (panic m) h = h

    pub Keeps-tried : (m : M S A) → Keeps f X m → Keeps f X (tried m)
    Keeps-tried m k = record { at = λ s l. Same-tried s (m s l) (k.at s l) }

    Same-renamed :
        (s : S) (g : Err → Err) (o : Outcome S A) → Same f X s o → Same f X s (renamed g o)
    Same-renamed s g (ok a t l) h = h
    Same-renamed s g (err e t l) h = h
    Same-renamed s g (panic m) h = h

    pub Keeps-wrapping : (g : Err → Err) (m : M S A) → Keeps f X m → Keeps f X (wrapping g m)
    Keeps-wrapping g m k = record { at = λ s l. Same-renamed s g (m s l) (k.at s l) }

    Same-rolled_back :
        (s : S) (o : Outcome S A) (undo : Err → M S (Unit {0}))
        → Same f X s o
        → ((e : Err) → Keeps f X (undo e))
        → Same f X s (rolled_back o undo)
    Same-rolled_back s (ok a t l) undo h k = h
    Same-rolled_back s (err e t l) undo h k =
        Same-via s t (dropping (undo e t l) e) h (Same-dropping A t e (undo e t l) ((k e).at t l))
    Same-rolled_back s (panic m) undo h k = h

    pub Keeps-on_error :
        (undo : Err → M S (Unit {0})) (m : M S A)
        → ((e : Err) → Keeps f X (undo e))
        → Keeps f X m
        → Keeps f X (on_error undo m)
    Keeps-on_error undo m k q = record { at = λ s l. Same-rolled_back s (m s l) undo (q.at s l) k }

    Same-after :
        (s : S) (o : Outcome S (Unit {0})) (r : Err ⊎ A) → Same f X s o → Same f X s (after o r)
    Same-after s (ok _ t l) (inl e) h = h
    Same-after s (ok _ t l) (inr a) h = h
    Same-after s (err _ t l) (inl e) h = h
    Same-after s (err _ t l) (inr a) h = h
    Same-after s (panic m) r h = h

    Same-finish :
        (s : S) (o : Outcome S (Err ⊎ A)) (last : M S (Unit {0}))
        → Same f X s o
        → Keeps f X last
        → Same f X s (finish_with o last)
    Same-finish s (ok r t l) last h k =
        Same-via s t (after (last t l) r) h (Same-after t (last t l) r (k.at t l))
    Same-finish s (err e t l) last h k = h
    Same-finish s (panic m) last h k = h

    pub Keeps-finally :
        (last : M S (Unit {0})) (m : M S A)
        → Keeps f X last
        → Keeps f X m
        → Keeps f X (finally last m)
    Keeps-finally last m k q = record {
      at = λ s l. Same-finish s (tried m s l) last ((Keeps-tried m q).at s l) k;
    }

  pub Keeps-modify : (g : S → S) → ((s : S) → f (g s) ≡ f s) → Keeps f X (modify g)
  Keeps-modify g h = record { at = λ s l. h s }

  module _ {A B : Type 0} where
    Same-continue :
        (s : S) (o : Outcome S A) (g : A → M S B)
        → Same f X s o
        → ((a : A) → Keeps f X (g a))
        → Same f X s (continue o g)
    Same-continue s (ok a t l) g h k = Same-via s t (g a t l) h ((k a).at t l)
    Same-continue s (err e t l) g h k = h
    Same-continue s (panic m) g h k = h

    pub Keeps-bind :
        (m : M S A) (g : A → M S B)
        → Keeps f X m
        → ((a : A) → Keeps f X (g a))
        → Keeps f X (m >>= g)
    Keeps-bind m g q k = record { at = λ s l. Same-continue s (m s l) g (q.at s l) k }

    pub Keeps-then : (m : M S A) (n : M S B) → Keeps f X m → Keeps f X n → Keeps f X (m >> n)
    Keeps-then m n q k = record { at = λ s l. Same-continue s (m s l) (λ _. n) (q.at s l) (λ _. k) }

pub ruleset keeps_rules = (
  Keeps-Quiet, Keeps-crash, Keeps-if, Keeps-ignore, Keeps-tried, Keeps-wrapping, Keeps-on_error,
  Keeps-finally, Keeps-bind, Keeps-then,
)
