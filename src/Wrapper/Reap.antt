-- ===== src/Wrapper/Reap.antt =====
-- cmd/embedshim-runcext/exec.go: the loop over wait4 in syncParentExecStatus ends.
use embedshim.Prelude.{
  ℕ, zero, suc, Bool, true, not, some, ◌∷◌, ◌≡◌, refl, ◌<◌, ◌⊎◌, inl, inr, arith, Bool-cases,
}
use embedshim.GoError.{Err, is, eintr}
use embedshim.Host.{Env, Log, Reply, fails, gives, Reply-cases, reap, ok}
use embedshim.Wrapper.{reap_loop}

-- the reply to wait4 is not that a signal has interrupted it
abbrev pub settled : Reply → Bool
settled (fails e) = not (is e eintr)
settled (gives n m) = true

-- the same of what the loop returns
abbrev pub is_final : Err ⊎ ℕ → Bool
is_final (inl e) = not (is e eintr)
is_final (inr n) = true

none_below : (k : ℕ) → k < 0 → ⊥
none_below k h = omega arith

unsettled : (e : Err) → settled (fails e) ≡ true → is e eintr ≡ true → ⊥
unsettled e h again = ground (arith, h, again)

module _ (env : Env) (pid : ℕ) where
  -- the calls made so far, after this many more calls of wait4
  abbrev pub after_waits : ℕ → Log → Log
  after_waits zero l = l
  after_waits (suc k) l =
      after_waits k (record { call = reap pid; reply = env.reply l (reap pid) } ∷ l)

  module _ {S : Type 0} where
    -- the loop ends with a result, and that is no interruption
    abbrev pub Ends : ℕ → S → Log → Type 0
    Ends rounds s l =
        (r : Err ⊎ ℕ) × (m : Log) × (is_final r ≡ true)
        × (reap_loop env rounds pid s l ≡ ok (some r) s m)

    -- If some call of wait4 within the number of rounds is not interrupted, then the loop ends with
    -- a result, and that result is no interruption.
    pub reap_loop-after_waits :
        (rounds k : ℕ) (s : S) (l : Log)
        → k < rounds
        → settled (env.reply (after_waits k l) (reap pid)) ≡ true
        → (r : Err ⊎ ℕ) × (m : Log) × (is_final r ≡ true)
          × (reap_loop env rounds pid s l ≡ ok (some r) s m)
    unfolding reap_loop
    reap_loop-after_waits zero k s l below h = elim (none_below k below) [ ]
    reap_loop-after_waits (suc rounds) k s l below h = elim (Reply-cases (env.reply l (reap pid))) [
      | inr (status, n, r) ↦ rw r (inr status, _, refl, refl)
      | inl (e, r) ↦ elim (Bool-cases (is e eintr)) [
        | inl again ↦ rw r (
            rw again (
              tried_again rounds k s l e r again below h (λ j. reap_loop-after_waits rounds j s _)))
        | inr over ↦ rw r (rw over (inl e, _, (rw over refl), refl))
      ]
    ]
      where
        tried_again :
            (rounds k : ℕ) (s : S) (l : Log) (e : Err)
            → env.reply l (reap pid) ≡ fails e
            → is e eintr ≡ true
            → k < suc rounds
            → settled (env.reply (after_waits k l) (reap pid)) ≡ true
            → ((j : ℕ)
                → j < rounds
                → settled (
                    env.reply
                      (after_waits j (record { call = reap pid; reply = fails e } ∷ l))
                      (reap pid))
                  ≡ true
                → Ends rounds s (record { call = reap pid; reply = fails e } ∷ l))
            → Ends rounds s (record { call = reap pid; reply = fails e } ∷ l)
        tried_again rounds zero s l e r again below h go = elim (unsettled e (rw r at h) again) [ ]
        tried_again rounds (suc k) s l e r again below h go = go k (omega arith) (rw r at h)
