-- ===== src/Bundle/Rollback.antt =====
-- NewBundle: the bundle's folder after a failure.
use embedshim.Prelude.{
  same_path, same_path_refl, ℕ, String, true, false, List, [], ◌∷◌, ◌≡◌, refl, if◌then◌else◌, arith,
}
use embedshim.Host.Ledger.{Owes, Owes-bind, Owes-rolled_back}
use embedshim.Host.{
  Env, M, Outcome, Log, Call, Reply, gives, call, mkdir, mkdir_all, remove_all, symlink,
}
use embedshim.Bundle.{
  Bundle, undoing, apply_opts, make_work, remake, fill, new_bundle, remove_paths, load_bundle,
}

abbrev makes : List String → Call → Reply → ℕ
makes p (mkdir q) (gives x y) = if same_path q p then 1 else 0
makes p _ _ = 0

abbrev removes : List String → Call → Reply → ℕ
removes p (remove_all q) r = if same_path q p then 1 else 0
removes p _ r = 0

-- how often Mkdir has made the folder more than RemoveAll has been called on it
abbrev pub Balances : {S A : Type 0} → List String → Log → ℕ → ℕ → ℕ → Outcome S A → Type 0
Balances p = Owes (makes p) (removes p)

module _ (env : Env) (p : List String) {S : Type 0} where
  mkdir_all-Balances :
      (n : ℕ) (q : List String) (s : S) (l : Log) → Balances p l n n n (call env (mkdir_all q) s l)
  mkdir_all-Balances n q s l = ground arith

  symlink-Balances :
      (n : ℕ) (q r : List String) (s : S) (l : Log)
      → Balances p l n n n (call env (symlink q r) s l)
  symlink-Balances n q r s l = ground arith

  make_work-Balances :
      (n : ℕ) (q : List String) (s : S) (l : Log)
      → same_path q p ≡ false
      → Balances p l n n n (make_work env q s l)
  unfolding make_work remake
  make_work-Balances n q s l h = ground arith

  mkdir-Balances :
      (q : List String) (s : S) (l : Log)
      → same_path q p ≡ true
      → Balances p l 0 1 0 (call env (mkdir q) s l)
  mkdir-Balances q s l h = ground arith

  clean-Balances :
      (q : List String) (s : S) (l : Log)
      → same_path q p ≡ true
      → Balances p l 1 0 0 (remove_paths env (q ∷ []) s l)
  unfolding remove_paths
  clean-Balances q s l h = ground arith

  clean_both-Balances :
      (q r : List String) (s : S) (l : Log)
      → same_path q p ≡ true
      → same_path r p ≡ false
      → Balances p l 1 0 0 (remove_paths env (q ∷ r ∷ []) s l)
  unfolding remove_paths
  clean_both-Balances q r s l h k = ground arith

module _ {S : Type 0} where
  -- what the options of NewBundle are asked: to leave the folder of the bundle in place
  abbrev pub Neutral : List String → Bundle → List (Bundle → M S (Unit {0})) → Type 0
  Neutral p b [] = Unit
  Neutral p b (opt ∷ opts) = ((s : S) (l : Log) → Balances p l 1 1 1 (opt b s l)) × Neutral p b opts

module _ (env : Env) {S : Type 0} where
  apply_opts-Balances :
      (p : List String) (b : Bundle) (opts : List (Bundle → M S (Unit {0}))) (s : S) (l : Log)
      → Neutral p b opts
      → Balances p l 1 1 1 (apply_opts env b opts s l)
  unfolding apply_opts
  apply_opts-Balances p b [] s l h = refl
  apply_opts-Balances p b (opt ∷ opts) s l h =
      Owes-bind (makes p) (removes p) l 1 1 1 1 (opt b s l) (λ _. apply_opts env b opts) (h.0 s l)
        (λ x t m. apply_opts-Balances p b opts t m h.1)

  fill-Balances :
      (p : List String) (b : Bundle) (work : List String) (opts : List (Bundle → M S (Unit {0})))
      (s : S) (l : Log)
      → Neutral p b opts
      → same_path work p ≡ false
      → Balances p l 1 1 1 (fill env b work opts s l)
  unfolding fill
  fill-Balances p b work opts s l h apart =
      Owes-bind (makes p) (removes p) l 1 1 1 1 _ _ (mkdir_all-Balances env p 1 _ s l) λ _ s l.
        Owes-bind (makes p) (removes p) l 1 1 1 1 _ _ (apply_opts-Balances p b opts s l h) λ _ s l.
          Owes-bind (makes p) (removes p) l 1 1 1 1 _ _ (mkdir_all-Balances env p 1 _ s l)
            λ _ s l. make_work-Balances env p 1 work s l apart

  -- A run of NewBundle whose state and work folders differ, with options that leave the folder of
  -- the bundle in place: if it succeeds, it has made that folder once more than removed it; if it
  -- fails, it has removed it as often as it made it, so a folder that was there is not removed and one
  -- that it made does not stay. It never panics.
  pub new_bundle-Balances :
      (root state : List String) (ns id : String) (opts : List (Bundle → M S (Unit {0}))) (s : S)
      (l : Log)
      → same_path (id ∷ ns ∷ root) (id ∷ ns ∷ state) ≡ false
      → Neutral (id ∷ ns ∷ state) (load_bundle state ns id) opts
      → Balances (id ∷ ns ∷ state) l 0 1 0 (new_bundle env root state ns id opts s l)
  unfolding new_bundle load_bundle undoing
  new_bundle-Balances root state ns id opts s l apart neutral =
      Owes-bind (makes p) (removes p) l 0 0 1 0 _ _ (mkdir_all-Balances env p 0 _ s l) λ _ s l.
        Owes-bind (makes p) (removes p) l 0 1 1 0 _ _
          (mkdir-Balances env p p s l (same_path_refl p))
          λ _ s l.
            Owes-bind (makes p) (removes p) l 1 1 1 0 _ _
              (Owes-rolled_back (makes p) (removes p) l 1 1 1 0 _ _
                (fill-Balances p (load_bundle state ns id) (id ∷ ns ∷ root) opts s l neutral apart)
                λ _ s l. clean-Balances env p p s l (same_path_refl p))
              λ _ s l.
                Owes-bind (makes p) (removes p) l 1 1 1 0 _ _
                  (Owes-rolled_back (makes p) (removes p) l 1 1 1 0 _ _
                    (symlink-Balances env p 1 _ _ s l)
                    λ _ s l.
                      clean_both-Balances env p p (id ∷ ns ∷ root) s l (same_path_refl p) apart)
                  λ _ s l. refl
    where
      p : List String
      p = id ∷ ns ∷ state
