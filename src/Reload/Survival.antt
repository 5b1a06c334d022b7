-- ===== src/Reload/Survival.antt =====
-- reload.go: no task makes the reload fail.
use embedshim.Prelude.{
  ℕ, String, not, ◌||◌, Option, none, some, List, [], ◌∷◌, ◌≡◌, refl, ◌⊎◌, inl, inr, codes,
  has_prefix, Bool-cases, if◌then◌else◌,
}
use embedshim.GoError.{Err}
use embedshim.Bundle
use embedshim.Bundle.{Bundle, load_bundle, check_valid}
use embedshim.Host.{
  skip, ignore, gives, Env, M, FileInfo, Outcome, ok, err, panic, Log, Reply-cases, fails,
  forgotten, caught, tried_outcome, call, read_dir, tasks_add, get_container, continue,
}
use embedshim.Host.Ran.{Whatever, Never, Ran, Ran-bind}
use embedshim.Shim.Task
use embedshim.World.{World}
use embedshim.Reload.{
  load_shim, adopt, adopt_loaded, load_valid, load_task, load_each, read_entries, load_tasks,
  load_namespaces, reload_existing_tasks,
}

-- a run that returns no error
abbrev pub Survives : {A : Type 0} → Outcome World A → Type 0
Survives o = Ran Whatever (λ _ _. Unit) Never o

module _ {A : Type 0} where
  forgotten-Survives : (o : Outcome World A) → Survives (forgotten o)
  forgotten-Survives (ok a s l) = tt
  forgotten-Survives (err e s l) = tt
  forgotten-Survives (panic m) = tt

  caught-Survives : (o : Outcome World A) → Survives (caught o)
  caught-Survives (ok a s l) = tt
  caught-Survives (err e s l) = tt
  caught-Survives (panic m) = tt

  tried-Survives : (o : Outcome World A) → Survives (tried_outcome o)
  tried-Survives (ok a s l) = tt
  tried-Survives (err e s l) = tt
  tried-Survives (panic m) = tt

module _ {A B : Type 0} where
  bind-Survives :
      (o : Outcome World A) (f : A → M World B)
      → Survives o
      → ((a : A) (w : World) (l : Log) → Survives (f a w l))
      → Survives (continue o f)
  bind-Survives o f h k =
      Ran-bind Whatever (λ _ _. Unit) (λ _ _. Unit) Never Never o f h (λ a w l _. k a w l)
        (λ _ x. x)

abbrev pub Unread : List String → Log → Log → Type 0
Unread dir l m = (e : Err) × (m ≡ record { call = read_dir dir; reply = fails e } ∷ l)

module _ (env : Env) where
  adopt_loaded-Survives :
      (b : Bundle) (r : Err ⊎ ℕ) (w : World) (l : Log) → Survives (adopt_loaded env b r w l)
  unfolding adopt_loaded adopt
  adopt_loaded-Survives b (inl e) w l = forgotten-Survives (Bundle.delete env b w l)
  adopt_loaded-Survives b (inr a) w l =
      bind-Survives _ (adopt env b a) (caught-Survives (call env (get_container b.id) w l))
        (λ known w l. adopted known w l)
    where
      adopted : (r : Option Err) (w : World) (l : Log) → Survives (adopt env b a r w l)
      adopted none w l = forgotten-Survives (call env (tasks_add b.id a) w l)
      adopted (some e) w l = forgotten-Survives (Task.delete env a b w l)

  load_valid-Survives :
      (b : Bundle) (r : Option Err) (w : World) (l : Log) → Survives (load_valid env b r w l)
  unfolding load_valid
  load_valid-Survives b (some e) w l = forgotten-Survives (Bundle.delete env b w l)
  load_valid-Survives b none w l =
      bind-Survives _ (adopt_loaded env b) (tried-Survives (load_shim env b w l))
        (adopt_loaded-Survives b)

  pub load_task-Survives :
      (state : List String) (ns : String) (info : FileInfo) (w : World) (l : Log)
      → Survives (load_task env state ns info w l)
  unfolding load_task
  load_task-Survives state ns info w l =
      elim (Bool-cases (not info.is_dir || has_prefix (codes info.name) (codes "."))) [
        | inl skipped ↦ rw skipped tt
        | inr kept ↦ rw kept (
            bind-Survives _ (load_valid env (load_bundle state ns info.name))
              (caught-Survives (check_valid env (load_bundle state ns info.name) w l))
              (load_valid-Survives (load_bundle state ns info.name)))
      ]

  load_each-Survives :
      (state : List String) (ns : String) (infos : List FileInfo) (w : World) (l : Log)
      → Survives (load_each env state ns infos w l)
  unfolding load_each
  load_each-Survives state ns [] w l = tt
  load_each-Survives state ns (info ∷ infos) w l =
      bind-Survives _ _ (load_task-Survives state ns info w l)
        (λ _ w l. load_each-Survives state ns infos w l)

  -- one round of the loop over the namespaces
  abbrev pub namespace_round : List String → FileInfo → M World (Unit {0})
  namespace_round state info =
      if not info.is_dir || has_prefix (codes info.name) (codes ".")
      then skip
      else ignore (load_tasks env state info.name)

  pub namespace_round-Survives :
      (state : List String) (info : FileInfo) (w : World) (l : Log)
      → Survives (namespace_round state info w l)
  namespace_round-Survives state info w l =
      elim (Bool-cases (not info.is_dir || has_prefix (codes info.name) (codes "."))) [
        | inl skipped ↦ rw skipped tt
        | inr kept ↦ rw kept (forgotten-Survives (load_tasks env state info.name w l))
      ]

  load_namespaces-Survives :
      (state : List String) (infos : List FileInfo) (w : World) (l : Log)
      → Survives (load_namespaces env state infos w l)
  unfolding load_namespaces
  load_namespaces-Survives state [] w l = tt
  load_namespaces-Survives state (info ∷ infos) w l =
      bind-Survives _ _ (namespace_round-Survives state info w l)
        (λ _ w l. load_namespaces-Survives state infos w l)

  -- The reload at the start of the plugin fails only if the folder of the state cannot be read, before
  -- any task is touched; a panic is not excluded.
  pub reload_existing_tasks-Survives :
      (state : List String) (w : World) (l : Log)
      → Ran Whatever (λ _ _. Unit) (Unread state l) (reload_existing_tasks env state w l)
  unfolding reload_existing_tasks read_entries
  reload_existing_tasks-Survives state w l = elim (Reply-cases (env.reply l (read_dir state))) [
    | inl (e, r) ↦ rw r (e, refl)
    | inr (n, m, r) ↦ rw r (
        survived
          (load_namespaces env state (env.dir_entries l state) w
            (record { call = read_dir state; reply = gives n m } ∷ l))
          (load_namespaces-Survives state (env.dir_entries l state) w
            (record { call = read_dir state; reply = gives n m } ∷ l)))
  ]
    where
      survived :
          (o : Outcome World (Unit {0}))
          → Survives o
          → Ran Whatever (λ _ _. Unit) (Unread state l) o
      survived (ok x w l) h = tt
      survived (err e w l) h = elim h [ ]
      survived (panic m) h = tt
