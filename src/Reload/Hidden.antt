-- ===== src/Reload/Hidden.antt =====
-- pkg/bundle/bundle.go with reload.go: a deletion of a bundle that is cut off leaves nothing that the
-- next start would load.
use Prim.Native.String.append.{cons}
use embedshim.Prelude.{
  ℕ, String, Bool, true, false, List, [], ◌∷◌, ◌≡◌, refl, cat, codes, has_prefix, Option, none,
  some, ◌⊎◌, inl, inr, Bool-cases,
}
use embedshim.GoError.{Err, wrap, is, os_not_exist}
use embedshim.Bundle
use embedshim.Bundle.{
  work_failed, Bundle, hidden, atomic_delete, renamed_away, delete_work, missing_is_fine,
  link_target,
}
use embedshim.Host.{
  tried_outcome, renamed, caught, Env, M, Outcome, ok, err, panic, Log, Call, remove_all, rename,
  unmount_all, remove_path, read_link, call, continue,
}
use embedshim.Host.Ran.{Ran, Ran-bind, call-Ran, Never}
use embedshim.Reload.{load_task}
use embedshim.World.{World}

-- the reload passes an entry of this name over
abbrev Skips : Env → String → Type 0
Skips env name =
    (state : List String) (ns : String) (is_dir : Bool) (w : World) (l : Log)
    → load_task env state ns (record { name = name; is_dir = is_dir }) w l ≡ ok tt w l

-- only what the reload passes over is removed with all that is in it
abbrev Leaves : Env → Call → Type 0
Leaves env (remove_all (name ∷ dir)) = Skips env name
Leaves env _ = Unit

abbrev pub Spared : Env → Log → Type 0
Spared env [] = Unit
Spared env (e ∷ l) = Leaves env e.call × Spared env l

after_dot : (name : String) → cat "." name ≡ String.◌∷◌ "." (cat "" name)
after_dot name = λ i. cons "." "" name i

-- the name begins with a dot
dotted : (name : String) → has_prefix (codes (cat "." name)) (codes ".") ≡ true
dotted name = rw (after_dot name) refl

hidden-Skips : (env : Env) (name : String) → Skips env (cat "." name)
unfolding load_task
hidden-Skips env name state ns false w l = refl
hidden-Skips env name state ns true w l = rw (dotted name) refl

module _ (env : Env) {S : Type 0} where
  -- a run after which still nothing else has been removed
  abbrev Spares : {A : Type 0} → Outcome S A → Type 0
  Spares o = Ran Never (λ _. Spared env) (Spared env) o

  removed-Spares :
      (path : List String) (s : S) (l : Log)
      → Spared env l
      → Spares (call env (remove_all (hidden path)) s l)
  removed-Spares [] s l h =
      call-Ran Never env (remove_all (hidden [])) _ _ s l (λ n m. (hidden_root, h))
        (λ e. (hidden_root, h))
    where
      hidden_root : Skips env "."
      hidden_root = hidden-Skips env ""
  removed-Spares (base ∷ dir) s l h =
      call-Ran Never env (remove_all (hidden (base ∷ dir))) _ _ s l
        (λ n m. (hidden-Skips env base, h)) (λ e. (hidden-Skips env base, h))

  renamed-Spares :
      (path : List String) (r : Option Err) (s : S) (l : Log)
      → Spared env l
      → Spares (renamed_away env path r s l)
  unfolding renamed_away
  renamed-Spares path none s l h =
      Ran-bind Never (λ _. Spared env) (λ _. Spared env) (Spared env) (Spared env) _ _
        (removed-Spares path s l h) (λ _ t m k. k) (λ _ p. p)
  renamed-Spares path (some e) s l h = elim (Bool-cases (is e os_not_exist)) [
    | inl gone ↦ rw gone h
    | inr there ↦ rw there h
  ]

  caught-Spares : {A : Type 0} (o : Outcome S A) → Spares o → Spares (caught o)
  caught-Spares (ok a s l) h = h
  caught-Spares (err e s l) h = h
  caught-Spares (panic m) h = h

  quiet-Spares :
      (c : Call) (s : S) (l : Log) → Leaves env c → Spared env l → Spares (call env c s l)
  quiet-Spares c s l q h = call-Ran Never env c _ _ s l (λ n m. (q, h)) (λ e. (q, h))

  bind-Spares :
      {A B : Type 0} (o : Outcome S A) (f : A → M S B)
      → Spares o
      → ((a : A) (s : S) (l : Log) → Spared env l → Spares (f a s l))
      → Spares (continue o f)
  bind-Spares o f h k =
      Ran-bind Never (λ _. Spared env) (λ _. Spared env) (Spared env) (Spared env) o f h k
        (λ _ p. p)

  atomic_delete-Spares :
      (path : List String) (s : S) (l : Log) → Spared env l → Spares (atomic_delete env path s l)
  unfolding atomic_delete
  atomic_delete-Spares path s l h =
      bind-Spares _ _ (caught-Spares _ (quiet-Spares (rename path (hidden path)) s l tt h))
        (λ r t m k. renamed-Spares path r t m k)

  tried-Spares : {A : Type 0} (o : Outcome S A) → Spares o → Spares (tried_outcome o)
  tried-Spares (ok a s l) h = h
  tried-Spares (err e s l) h = h
  tried-Spares (panic m) h = h

  renamed_error-Spares :
      {A : Type 0} (f : Err → Err) (o : Outcome S A) → Spares o → Spares (renamed f o)
  renamed_error-Spares f (ok a s l) h = h
  renamed_error-Spares f (err e s l) h = h
  renamed_error-Spares f (panic m) h = h

  work_failed-Spares :
      (e : Err) (r : Option Err) (s : S) (l : Log) → Spared env l → Spares (work_failed env e r s l)
  unfolding work_failed
  work_failed-Spares e none s l h = h
  work_failed-Spares e (some x) s l h = h

  delete_work-Spares :
      (work : List String) (link : Err ⊎ ℕ) (r : Option Err) (s : S) (l : Log)
      → Spared env l
      → Spares (delete_work env work link r s l)
  unfolding delete_work
  delete_work-Spares work (inr n) none s l h = atomic_delete-Spares work s l h
  delete_work-Spares work (inl e) none s l h = h
  delete_work-Spares work (inl x) (some e) s l h = h
  delete_work-Spares work (inr n) (some e) s l h =
      bind-Spares _ _ (caught-Spares (atomic_delete env work s l) (atomic_delete-Spares work s l h))
        (λ r s l h. work_failed-Spares e r s l h)

  missing-Spares :
      (r : Option Err) (s : S) (l : Log) → Spared env l → Spares (missing_is_fine env r s l)
  unfolding missing_is_fine
  missing-Spares none s l h = h
  missing-Spares (some e) s l h = elim (Bool-cases (is e os_not_exist)) [
    | inl gone ↦ rw gone h
    | inr there ↦ rw there h
  ]

  -- At every moment of a deletion, whatever fails in it, the folders that have been removed with all
  -- that is in them bear names that the reload passes over, if this was so before: a bundle that is
  -- found by its own name after a crash has not been removed in part, but for its empty rootfs.
  pub delete-Spares :
      (b : Bundle) (s : S) (l : Log)
      → Spared env l
      → Ran Never (λ _. Spared env) (Spared env) (Bundle.delete env b s l)
  unfolding Bundle.delete link_target
  delete-Spares b s l h =
      bind-Spares _ _
        (renamed_error-Spares (wrap "unmount rootfs") _
          (quiet-Spares (unmount_all (Bundle.rootfs b)) s l tt h))
        (λ _ s l h.
          bind-Spares _ _ (caught-Spares _ (quiet-Spares (remove_path (Bundle.rootfs b)) s l tt h))
            (λ r s l h. bind-Spares _ _ (missing-Spares r s l h) (λ _ s l h.
              bind-Spares _ _ (tried-Spares _ (quiet-Spares (read_link ("work" ∷ b.path)) s l tt h))
                (λ work s l h.
                  bind-Spares _ _ (caught-Spares _ (atomic_delete-Spares b.path s l h))
                    (λ e s l h. delete_work-Spares _ work e s l h)))))
