-- ===== src/Reload/Rounds.antt =====
-- reload.go: every round of the loops of the reload is run.
use embedshim.Prelude.{List, [], ◌∷◌, ◌++◌, ◌≡◌, ◌∙◌, refl, String}
use embedshim.Host.{Env, M, FileInfo, Outcome, ok, err, panic, Log, continue}
use embedshim.Host.Ran.{Whatever, Ran}
use embedshim.Reload.{reload_existing_tasks, load_task, load_each, load_namespaces}
use embedshim.Reload.Survival.{
  Survives, Unread, reload_existing_tasks-Survives, load_task-Survives, namespace_round,
  namespace_round-Survives,
}
use embedshim.World.{World}

module _ (each : List FileInfo → M World (Unit {0})) (one : FileInfo → M World (Unit {0})) where
  -- The rounds for `xs` have ended in `o`. Unless one of them has panicked, which ends all, the loop
  -- goes on with the round for `x` where they ended, and after it, since it gives no error, with `ys`.
  abbrev pub GoesOn :
      List FileInfo → FileInfo → List FileInfo → World → Log → Outcome World (Unit {0}) → Type 0
  GoesOn xs x ys w l (ok _ u k) =
      Survives (one x u k) × (each (xs ++ x ∷ ys) w l ≡ continue (one x u k) (λ _. each ys))
  GoesOn xs x ys w l (err e u k) = ⊥
  GoesOn xs x ys w l (panic m) = each (xs ++ x ∷ ys) w l ≡ panic m

  -- a loop that starts with its first round
  module _
      (first : (x : FileInfo) (xs : List FileInfo) (w : World) (l : Log)
        → each (x ∷ xs) w l ≡ continue (one x w l) (λ _. each xs))
      (done : (w : World) (l : Log) → each [] w l ≡ ok tt w l)
      (survives : (x : FileInfo) (w : World) (l : Log) → Survives (one x w l)) where
    later :
        (xs : List FileInfo) (z x : FileInfo) (ys : List FileInfo) (w u : World) (l k : Log)
        (o : Outcome World (Unit {0}))
        → each (z ∷ (xs ++ x ∷ ys)) w l ≡ each (xs ++ x ∷ ys) u k
        → GoesOn xs x ys u k o
        → GoesOn (z ∷ xs) x ys w l o
    later xs z x ys w u l k (ok _ v m) e h = (h.0, e ∙ h.1)
    later xs z x ys w u l k (err d v m) e h = h
    later xs z x ys w u l k (panic m) e h = e ∙ h

    goes_on :
        (xs : List FileInfo) (x : FileInfo) (ys : List FileInfo) (w : World) (l : Log)
        → GoesOn xs x ys w l (each xs w l)
    goes_on [] x ys w l = rw (done w l) (survives x w l, first x ys w l)
    goes_on (z ∷ xs) x ys w l =
        rw (first z xs w l) (round (λ u k. goes_on xs x ys u k) (one z w l) refl (survives z w l))
      where
        round :
            ((u : World) (k : Log) → GoesOn xs x ys u k (each xs u k))
            → (o : Outcome World (Unit {0})) → one z w l ≡ o
            → Survives o
            → GoesOn (z ∷ xs) x ys w l (continue o (λ _. each xs))
        round rest (ok _ u k) e h =
            later xs z x ys w u l k (each xs u k) (first z (xs ++ x ∷ ys) w l ∙ rw e refl)
              (rest u k)
        round rest (err d u k) e h = elim h [ ]
        round rest (panic m) e h = first z (xs ++ x ∷ ys) w l ∙ rw e refl

module _ (env : Env) where
  load_each-GoesOn :
      (state : List String) (ns : String) (xs : List FileInfo) (x : FileInfo) (ys : List FileInfo)
      (w : World) (l : Log)
      → GoesOn
          (load_each env state ns)
          (load_task env state ns)
          xs
          x
          ys
          w
          l
          (load_each env state ns xs w l)
  unfolding load_each
  load_each-GoesOn state ns =
      goes_on (load_each env state ns) (load_task env state ns) (λ x xs w l. refl) (λ w l. refl)
        (load_task-Survives env state ns)

  -- The loop of the reload over the tasks of a namespace, and the one over the namespaces, go on after
  -- every round that does not panic: the rounds for the entries `xs` end without an error, whatever
  -- failed in them, then the round for the next entry `x` is run in the world that they left, and then
  -- the rounds for the others `ys`. A panic in a round ends the reload. The reload as a whole fails only
  -- if the folder of the state cannot be read, before any task is touched.
  pub reload_existing_tasks-GoesOn :
      (state : List String) (ns : String) (xs : List FileInfo) (x : FileInfo) (ys : List FileInfo)
      (w : World) (l : Log)
      → GoesOn
          (load_each env state ns)
          (load_task env state ns)
          xs
          x
          ys
          w
          l
          (load_each env state ns xs w l)
        × GoesOn
            (load_namespaces env state)
            (namespace_round env state)
            xs
            x
            ys
            w
            l
            (load_namespaces env state xs w l)
        × Ran Whatever (λ _ _. Unit) (Unread state l) (reload_existing_tasks env state w l)
  unfolding load_namespaces
  reload_existing_tasks-GoesOn state ns xs x ys w l = (
    load_each-GoesOn state ns xs x ys w l,
    goes_on (load_namespaces env state) (namespace_round env state) (λ x xs w l. refl) (λ w l. refl)
        (namespace_round-Survives env state) xs x ys w l,
    reload_existing_tasks-Survives env state w l,
  )
