-- ===== src/ExecProcess/Starts.antt =====
-- Start of a created exec process.
use embedshim.Prelude.{
  ℕ, String, Bool, true, false, Option, ◌≡◌, refl, ap, ◌∙◌, if◌then◌else◌, inl, inr,
}
use embedshim.Host.{
  Env, M, Outcome, ok, err, panic, continue, Log, finish_with, ◌>>=◌, ◌>>◌, tried_outcome, after,
  finally,
}
use embedshim.Host.Quiet.{Quiet, Unchanged, quiet_rules}
use embedshim.Host.Keeps.{keeps_rules, Same}
use embedshim.Io.{ProcessIo}
use embedshim.Io.Creation.{create_io-Keeps}
use embedshim.InitProcess
use embedshim.ExecProcess.Seen.{seen, NoPlatform, KeepsExec, on_exec-Keeps}
use embedshim.ExecProcess.Methods
use embedshim.ExecProcess.Start
use embedshim.ExecProcess.Start.Frame.{invoke_runc_exec-Keeps}
use embedshim.World.{World, eq_self}

-- A start leaves the state and the exit time; if it fails, it has not woken the waiters.
abbrev pub Started : ℕ → World → Outcome World (Unit {0}) → Type 0
Started a w (ok _ v l) =
    ((v.execs a).exec_state ≡ (w.execs a).exec_state) × ((v.execs a).exited ≡ (w.execs a).exited)
Started a w (err _ v l) = seen a v ≡ seen a w
Started a w (panic m) = NoPlatform m

record Starts (a : ℕ) (m : M World (Unit {0})) : Type 0 where
  at : (w : World) (l : Log) → (w.execs a).wait_closed ≡ false → Started a w (m w l)

module _ (a : ℕ) where
  Started-via :
      (w v : World) (o : Outcome World (Unit {0}))
      → seen a v ≡ seen a w
      → Started a v o
      → Started a w o
  Started-via w v (ok _ u l) e h = (h.0 ∙ ap (λ t. t.0) e, h.1 ∙ ap (λ t. t.2) e)
  Started-via w v (err _ u l) e h = h ∙ e
  Started-via w v (panic m) e h = h

  continue-Started :
      {A : Type 0} (w : World) (o : Outcome World A) (f : A → M World (Unit {0}))
      → (w.execs a).wait_closed ≡ false
      → Same (seen a) NoPlatform w o
      → ((x : A) → Starts a (f x))
      → Started a w (continue o f)
  continue-Started w (ok x v l) f b h k =
      Started-via w v (f x v l) h ((k x).at v l (ap (λ t. t.1) h ∙ b))
  continue-Started w (err e v l) f b h k = h
  continue-Started w (panic m) f b h k = h

  Starts-bind :
      {A : Type 0} (m : M World A) (f : A → M World (Unit {0}))
      → KeepsExec a m
      → ((x : A) → Starts a (f x))
      → Starts a (m >>= f)
  Starts-bind m f k s = record { at = λ w l b. continue-Started w (m w l) f b (k.at w l) s }

  Starts-then :
      {A : Type 0} (m : M World A) (n : M World (Unit {0}))
      → KeepsExec a m
      → Starts a n
      → Starts a (m >> n)
  Starts-then m n k s = record {
    at = λ w l b. continue-Started w (m w l) (λ _. n) b (k.at w l) (λ _. s);
  }

  Starts-if :
      (c : Bool) (m n : M World (Unit {0}))
      → Starts a m
      → Starts a n
      → Starts a (if c then m else n)
  Starts-if true m n p q = p
  Starts-if false m n p q = q

  after-Started :
      (w : World) (o : Outcome World (Unit {0})) (last : M World (Unit {0}))
      → Quiet last
      → Started a w o
      → Started a w (finish_with (tried_outcome o) last)
  after-Started w (ok x v l) last q h = ended (last v l) (q.at v l)
    where
      ended :
          (r : Outcome World (Unit {0}))
          → Unchanged v r
          → Started a w (after {A = Unit {0}} r (inr x))
      ended (ok _ u l) e = rw e h
      ended (err _ u l) e = rw e h
      ended (panic m) e = elim e [ ]
  after-Started w (err x v l) last q h = ended (last v l) (q.at v l)
    where
      ended :
          (r : Outcome World (Unit {0}))
          → Unchanged v r
          → Started a w (after {A = Unit {0}} r (inl x))
      ended (ok _ u l) e = rw e h
      ended (err _ u l) e = rw e h
      ended (panic m) e = elim e [ ]
  after-Started w (panic m) last q h = h

  Starts-finally :
      (last m : M World (Unit {0})) → Quiet last → Starts a m → Starts a (finally last m)
  Starts-finally last m q s = record { at = λ w l b. after-Started w (m w l) last q (s.at w l b) }

module _ (env : Env) (a : ℕ) where
  invoked-Started :
      (w : World) (o : Outcome World (Unit {0}))
      → (w.execs a).wait_closed ≡ false
      → Same (seen a) NoPlatform w o
      → Started a w (continue (tried_outcome o) (Start.after_invoke env a))
  unfolding Start.after_invoke Methods.close_wait_block InitProcess.report
  invoked-Started w (ok _ v l) b h = (ap (λ t. t.0) h, ap (λ t. t.2) h)
  invoked-Started w (err e v l) b h =
      rw (ap (λ t. t.1) h ∙ b) (rw (eq_self a) (ap (λ t. t.0) h, ap (λ t. t.2) h))
  invoked-Started w (panic m) b h = h

  invoke_with-Starts :
      (socket : Option String) (pio : Option ProcessIo)
      → Starts a (Start.invoke_with env a socket pio)
  unfolding Start.invoke_with
  invoke_with-Starts socket pio = record {
    at = λ w l b.
        invoked-Started w (Start.invoke_runc_exec env a socket pio w l) b
          ((invoke_runc_exec-Keeps env a socket pio).at w l);
  }

  path-Keeps : KeepsExec a (λ w l. ok (env.socket_path l) w l)
  path-Keeps = record { at = λ w l. refl }

  start-Starts : Starts a (Start.start env a)
  unfolding Start.start
  start-Starts =
      search
        (
          Starts-bind,
          Starts-then,
          Starts-if,
          Starts-finally,
          invoke_with-Starts,
          path-Keeps,
          keeps_rules,
          quiet_rules,
          create_io-Keeps,
          on_exec-Keeps a,
        )
        depth 9

  pub start-Started :
      (w : World) (l : Log) → (w.execs a).wait_closed ≡ false → Started a w (Start.start env a w l)
  start-Started = start-Starts.at
