-- ===== src/ExitSnoop/Recovery.antt =====
-- pkg/exitsnoop/load.go: EnsureRunning pins the program last and removes it first, so a plugin that
-- is killed in the middle of it can be started again.
use embedshim.Prelude.{
  ℕ, String, Option, List, [], ◌∷◌, refl, same_path_refl, Bool-cases, inl, inr, ◌==◌, none, some,
}
use embedshim.GoError.{Err, is, os_not_exist}
use embedshim.Host.{
  Env, M, Log, Call, fails, gives, pin, mkdir_all, load_spec, new_collection, close_collection_maps,
  close_programs, attach_tracepoint, call, attempt, ignore, ◌>>◌, ◌>>=◌, Reply-cases, statfs,
  mount_bpffs, stat_path,
}
use embedshim.Host.Ran.{Never, Ran, Ran-bind, call-Ran, ignore-Ran, finally-Ran}
use embedshim.ExitSnoop.Load.{
  prog_name, tracing_tasks, exited_events, pin_all, load_and_pin, ensure_bpffs_mount, stat_result,
  ensure_running, pinned_dir, bpffs_magic,
}
use embedshim.ExitSnoop.Pins.{
  Sound, Without, With, Quiet, extend, pinned-map, pinned-program, kept-Sound, kept-Without,
}
use embedshim.ExitSnoop.CleanUp.{cleanup_leaky_objs-Without}

module _ (root : List String) (env : Env) where
  module _ {S : Type 0} where
    pin_all-Sound :
        (s : S) (l : Log)
        → Without root l
        → Ran Never
            (λ _. Sound root)
            (Sound root)
            (pin_all env root (tracing_tasks ∷ exited_events ∷ prog_name ∷ []) s l)
    unfolding pin_all
    pin_all-Sound s l h =
        Ran-bind Never (λ _ m. Without root m × With root tracing_tasks m) (λ _. Sound root)
          (Sound root) (Sound root) _ _
          (call-Ran Never env (pin (tracing_tasks ∷ root)) _ _ s l
            (λ n m.
              (pinned-map root tracing_tasks (gives n m) l refl h, rw (same_path_refl root) refl))
            (λ e. (pinned-map root tracing_tasks (fails e) l refl h).0))
          (λ _ t m k.
            Ran-bind Never
              (λ _ m. Without root m × With root tracing_tasks m × With root exited_events m)
              (λ _. Sound root) (Sound root) (Sound root) _ _
              (call-Ran Never env (pin (exited_events ∷ root)) _ _ t m
                (λ n x. (
                  pinned-map root exited_events (gives n x) m refl k.0,
                  k.1,
                  rw (same_path_refl root) refl,
                ))
                (λ e. (pinned-map root exited_events (fails e) m refl k.0).0))
              (λ _ u o q.
                Ran-bind Never (λ _. Sound root) (λ _. Sound root) (Sound root) (Sound root) _ _
                  (call-Ran Never env (pin (prog_name ∷ root)) _ _ u o
                    (λ n x. pinned-program root o q.0 q.1 q.2 n x)
                    (λ e. (extend root (pin (prog_name ∷ root)) (fails e) o q.0 q.0.1).0))
                  (λ _ v r p. p) (λ _ p. p))
              (λ _ p. p))
          (λ _ p. p)

    -- a quiet call and what follows it
    then-Sound :
        {B : Type 0} (c : Call) (k : ℕ → M S B) (s : S) (l : Log)
        → Quiet c
        → Without root l
        → ((n : ℕ) (s : S) (l : Log)
            → Without root l
            → Ran Never (λ _. Sound root) (Sound root) (k n s l))
        → Ran Never (λ _. Sound root) (Sound root) ((call env c >>= k) s l)
    then-Sound c k s l q h next =
        Ran-bind Never (λ _. Without root) (λ _. Sound root) (Sound root) (Sound root) _ k
          (call-Ran Never env c _ _ s l (λ n m. kept-Without root c (gives n m) l q h)
            (λ e. kept-Sound root c (fails e) l q h.0))
          next (λ _ p. p)

    closed-Sound :
        (s : S) (l : Log)
        → Sound root l
        → Ran Never
            (λ _. Sound root)
            (Sound root)
            ((ignore (call env close_collection_maps) >> ignore (call env close_programs)) s l)
    closed-Sound s l h =
        Ran-bind Never (λ _. Sound root) (λ _. Sound root) (Sound root) (Sound root) _ _
          (ignore-Ran Never env close_collection_maps (Sound root) (Sound root) s l
            (λ r. kept-Sound root close_collection_maps r l (λ _ _ _. refl) h))
          (λ _ t m k.
            ignore-Ran Never env close_programs (Sound root) (Sound root) t m
              (λ r. kept-Sound root close_programs r m (λ _ _ _. refl) k))
          (λ _ p. p)

    load_and_pin-Sound :
        (s : S) (l : Log)
        → Sound root l
        → Ran Never (λ _. Sound root) (Sound root) (load_and_pin env root s l)
    unfolding load_and_pin
    load_and_pin-Sound s l h =
        Ran-bind Never (λ _. Without root) (λ _. Sound root) (Sound root) (Sound root) _ _
          (cleanup_leaky_objs-Without root env s l h)
          (λ _ t m w.
            then-Sound (mkdir_all root) _ t m (λ _ _ _. refl) w
              (λ _ t m w.
                then-Sound load_spec _ t m (λ _ _ _. refl) w
                  (λ _ t m w.
                    then-Sound new_collection _ t m (λ _ _ _. refl) w
                      (λ _ t m w.
                        finally-Ran Never (Sound root) (Sound root) _ _
                          (then-Sound attach_tracepoint _ t m (λ _ _ _. refl) w
                            (λ _ t m w. pin_all-Sound t m w))
                          closed-Sound closed-Sound))))
          (λ _ p. p)

    stat_result-Sound :
        (r : Option Err) (s : S) (l : Log)
        → Sound root l
        → Ran Never (λ _. Sound root) (Sound root) (stat_result env root r s l)
    unfolding stat_result
    stat_result-Sound none s l h = h
    stat_result-Sound (some e) s l h = elim (Bool-cases (is e os_not_exist)) [
      | inl gone ↦ rw gone (load_and_pin-Sound s l h)
      | inr there ↦ rw there h
    ]

    -- the same where the program may be pinned
    called-Sound :
        {B : Type 0} (c : Call) (k : ℕ → M S B) (s : S) (l : Log)
        → Quiet c
        → Sound root l
        → ((n : ℕ) (s : S) (l : Log)
            → Sound root l
            → Ran Never (λ _. Sound root) (Sound root) (k n s l))
        → Ran Never (λ _. Sound root) (Sound root) ((call env c >>= k) s l)
    called-Sound c k s l q h next =
        Ran-bind Never (λ _. Sound root) (λ _. Sound root) (Sound root) (Sound root) _ k
          (call-Ran Never env c (λ _. Sound root) (Sound root) s l
            (λ n m. kept-Sound root c (gives n m) l q h) (λ e. kept-Sound root c (fails e) l q h))
          next (λ _ p. p)

    ensure_bpffs_mount-Sound :
        (s : S) (l : Log)
        → Sound root l
        → Ran Never (λ _. Sound root) (Sound root) (ensure_bpffs_mount env root s l)
    unfolding ensure_bpffs_mount
    ensure_bpffs_mount-Sound s l h =
        called-Sound (mkdir_all root) _ s l (λ _ _ _. refl) h
          (λ _ t m k.
            called-Sound (statfs root) _ t m (λ _ _ _. refl) k
              (λ magic u o q. elim (Bool-cases (magic == bpffs_magic)) [
                | inl same ↦ rw same q
                | inr other ↦
                    rw other
                      (called-Sound (mount_bpffs root) _ u o (λ _ _ _. refl) q (λ _ _ _ p. p))
              ]))

    stat-Sound :
        (path : List String) (s : S) (l : Log)
        → Sound root l
        → Ran Never (λ _. Sound root) (Sound root) (attempt (call env (stat_path path)) s l)
    stat-Sound path s l h = elim (Reply-cases (env.reply l (stat_path path))) [
      | inl (e, r) ↦ rw r (kept-Sound root (stat_path path) (fails e) l (λ _ _ _. refl) h)
      | inr (n, m, r) ↦ rw r (kept-Sound root (stat_path path) (gives n m) l (λ _ _ _. refl) h)
    ]

-- If at every earlier moment a pinned program stood for both pinned maps, then this is so at every
-- moment of EnsureRunning too, whatever fails in it, and it does not panic. So the program that
-- EnsureRunning finds after a crash comes with its maps.
pub ensure_running-Sound :
    (env : Env) (root : List String) {S : Type 0} (s : S) (l : Log)
    → Sound (pinned_dir root) l
    → Ran Never
        (λ _. Sound (pinned_dir root))
        (Sound (pinned_dir root))
        (ensure_running env root s l)
unfolding ensure_running
ensure_running-Sound env root s l h =
    Ran-bind Never (λ _. Sound (pinned_dir root)) (λ _. Sound (pinned_dir root))
      (Sound (pinned_dir root)) (Sound (pinned_dir root)) _ _
      (ensure_bpffs_mount-Sound (pinned_dir root) env s l h)
      (λ _ t m k.
        Ran-bind Never (λ _. Sound (pinned_dir root)) (λ _. Sound (pinned_dir root))
          (Sound (pinned_dir root)) (Sound (pinned_dir root)) _ _
          (stat-Sound (pinned_dir root) env (prog_name ∷ pinned_dir root) t m k)
          (λ r u o q. stat_result-Sound (pinned_dir root) env r u o q) (λ _ p. p))
      (λ _ p. p)
