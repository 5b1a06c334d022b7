-- ===== src/ExitSnoop/CleanUp.antt =====
-- pkg/exitsnoop/load.go: the clean-up of what an unfinished EnsureRunning has left takes the program
-- away first.
use embedshim.Prelude.{
  String, Option, List, ◌∷◌, ◌≡◌, refl, false, str_eq, same_path_refl, Bool-cases, inl, inr,
}
use embedshim.GoError.{Err, is, os_not_exist}
use embedshim.Host.{
  Env, M, Log, fails, gives, remove_path, call, attempt, ◌>>◌, Outcome, Reply-cases, continue,
}
use embedshim.Host.Ran.{Never, Ran, Ran-bind}
use embedshim.ExitSnoop.Load.{
  prog_name, tracing_tasks, exited_events, gone_is_fine, remove_objs, cleanup_leaky_objs,
}
use embedshim.ExitSnoop.Pins.{Sound, Without, removed-program, removed-map}

module _ (root : List String) (env : Env) where
  -- what holds if the error of a removal is judged next
  abbrev Judged : Type 0 → Option Err → Log → Type 0
  Judged S r l = (s : S) → Ran Never (λ _. Without root) (Sound root) (gone_is_fine env r s l)

  module _ {S : Type 0} where
    removed-Judged :
        (s : S) (l : Log)
        → Sound root l
        → Ran Never
            (Judged S)
            (Sound root)
            (attempt (call env (remove_path (prog_name ∷ root))) s l)
    unfolding gone_is_fine
    removed-Judged s l h = elim (Reply-cases (env.reply l (remove_path (prog_name ∷ root)))) [
      | inr (n, m, r) ↦
          rw r (λ t. (removed-program root (gives n m) l h, rw (same_path_refl root) refl))
      | inl (e, r) ↦ elim (Bool-cases (is e os_not_exist)) [
        | inl gone ↦ rw r (λ t.
            rw gone (removed-program root (fails e) l h, rw (same_path_refl root) (rw gone refl)))
        | inr there ↦ rw r (λ t. rw there (removed-program root (fails e) l h))
      ]
    ]

    map_removed-Judged :
        (name : String) (s : S) (l : Log)
        → str_eq prog_name name ≡ false
        → Without root l
        → Ran Never (Judged S) (Sound root) (attempt (call env (remove_path (name ∷ root))) s l)
    unfolding gone_is_fine
    map_removed-Judged name s l q h = elim (Reply-cases (env.reply l (remove_path (name ∷ root)))) [
      | inr (n, m, r) ↦ rw r (λ t. removed-map root name (gives n m) l q h)
      | inl (e, r) ↦ elim (Bool-cases (is e os_not_exist)) [
        | inl gone ↦ rw r (λ t. rw gone (removed-map root name (fails e) l q h))
        | inr there ↦ rw r (λ t. rw there (removed-map root name (fails e) l q h).0)
      ]
    ]

    -- the rest of a clean-up, after the removal of one name
    Judged-continue :
        (o : Outcome S (Option Err)) (next : M S (Unit {0}))
        → Ran Never (Judged S) (Sound root) o
        → ((s : S) (l : Log)
            → Without root l
            → Ran Never (λ _. Without root) (Sound root) (next s l))
        → Ran Never (λ _. Without root) (Sound root) (continue o (λ r. gone_is_fine env r >> next))
    Judged-continue o next h k =
        Ran-bind Never (Judged S) (λ _. Without root) (Sound root) (Sound root) o _ h
          (λ r s l j.
            Ran-bind Never (λ _. Without root) (λ _. Without root) (Sound root) (Sound root)
              (gone_is_fine env r s l) _ (j s) (λ _ t m w. k t m w) (λ _ p. p))
          (λ _ p. p)

    pub cleanup_leaky_objs-Without :
        (s : S) (l : Log)
        → Sound root l
        → Ran Never (λ _. Without root) (Sound root) (cleanup_leaky_objs env root s l)
    unfolding cleanup_leaky_objs remove_objs
    cleanup_leaky_objs-Without s l h = Judged-continue _ _ (removed-Judged s l h) (λ t m w.
        Judged-continue _ _ (map_removed-Judged tracing_tasks t m refl w)
          (λ u o x. Judged-continue _ _ (map_removed-Judged exited_events u o refl x) (λ _ _ y. y)))
