-- ===== src/Bundle.antt =====
-- pkg/bundle/bundle.go: the folders of a task. A path is the list of its components, the last one
-- first, so filepath.Join puts a component in front and filepath.Dir drops it.
pub mod Rollback
use mathlib.Core.List.{tail}
use embedshim.Prelude.{
  String, Option, none, some, List, [], ◌∷◌, ◌⊎◌, inl, inr, ℕ, cat, if◌then◌else◌,
}
use embedshim.GoError.{Err, wrap, wrap_nil, is, os_exist, os_not_exist}
use embedshim.Host.{
  Env, M, ok, call, pure, fail, skip, attempt, ignore, tried, on_error, wrapping, ◌>>=◌, ◌>>◌,
  mkdir, mkdir_all, remove_all, remove_path, read_link, stat_path, unmount_all, rename, symlink,
}

pub record Bundle : Type 0 where
  pub id : String
  pub path : List String
  pub ns : String

-- LoadBundle
unfoldable pub load_bundle : List String → String → String → Bundle
load_bundle state ns id = record { id = id; path = id ∷ ns ∷ state; ns = ns }

unfoldable pub rootfs : Bundle → List String
rootfs b = "rootfs" ∷ b.path

-- the hidden name of atomicDelete, beside the path
abbrev pub hidden : List String → List String
hidden [] = "." ∷ []
hidden (base ∷ dir) = cat "." base ∷ dir

module _ (env : Env) {S : Type 0} where
  remove_paths : List (List String) → M S (Unit {0})
  remove_paths [] = skip
  remove_paths (d ∷ ds) = do ignore (call env (remove_all d)); remove_paths ds

module _ (env : Env) {S A : Type 0} where
  -- the deferred clean-up, at a point where `made` stands in the variable `paths`
  unfoldable pub undoing : List (List String) → M S A → M S A
  unfolding remove_paths
  undoing made m = on_error (λ _. remove_paths env made) m

module _ (env : Env) {S : Type 0} where
  -- ApplyOpts, in order
  apply_opts : Bundle → List (Bundle → M S (Unit {0})) → M S (Unit {0})
  apply_opts b [] = skip
  apply_opts b (opt ∷ opts) = do opt b; apply_opts b opts

  -- a working directory that exists is made anew
  remake : List String → Err → M S (Unit {0})
  remake work e =
      if is e os_exist
      then (do ignore (call env (remove_all work)); call env (mkdir work); skip)
      else fail e

  make_work : List String → M S (Unit {0})
  unfolding remake
  make_work work = do
    made ← attempt (call env (mkdir work))
    elim made [ none ↦ skip | some e ↦ remake work e ]

  -- from the bundle's own folder on
  fill : Bundle → List String → List (Bundle → M S (Unit {0})) → M S (Unit {0})
  unfolding apply_opts make_work
  fill b work opts = do
    call env (mkdir_all ("rootfs" ∷ b.path))
    apply_opts b opts
    call env (mkdir_all (tail work))
    make_work work

  unfoldable pub new_bundle :
      List String → List String → String → String → List (Bundle → M S (Unit {0})) → M S Bundle
  unfolding undoing fill load_bundle
  new_bundle root state ns id opts = do
    let b = load_bundle state ns id
    let work = id ∷ ns ∷ root
    call env (mkdir_all (tail b.path))
    call env (mkdir b.path)
    undoing env (b.path ∷ []) (fill b work opts)
    undoing env (b.path ∷ work ∷ []) (call env (symlink work ("work" ∷ b.path)))
    pure b

  -- IsValid: the link that is made last is there
  unfoldable pub check_valid : Bundle → M S (Unit {0})
  check_valid b = do call env (stat_path ("work" ∷ b.path)); skip

  unfoldable pub renamed_away : List String → Option Err → M S (Unit {0})
  renamed_away path none = do call env (remove_all (hidden path)); skip
  renamed_away path (some e) = if is e os_not_exist then skip else fail e

  unfoldable pub atomic_delete : List String → M S (Unit {0})
  unfolding renamed_away
  atomic_delete path = do
    moved ← attempt (call env (rename path (hidden path)))
    renamed_away path moved

  -- the bundle could not be removed; what became of the working directory
  unfoldable pub work_failed : Err → Option Err → M S (Unit {0})
  work_failed e none = fail e
  work_failed e (some x) = fail (wrap "failed to remove both bundle and workdir locations" x)

  -- The last line of Delete wraps `err2`, which is nil where the link could not be read.
  -- `work` is the target of the link, if that could be read
  unfoldable pub delete_work : List String → Err ⊎ ℕ → Option Err → M S (Unit {0})
  unfolding atomic_delete work_failed
  delete_work work (inr _) none = atomic_delete work
  delete_work work (inl _) none = skip
  delete_work work (inl _) (some e) =
      fail (wrap_nil "failed to remove both bundle and workdir locations")
  delete_work work (inr _) (some e) = do e' ← attempt (atomic_delete work); work_failed e e'

  unfoldable pub missing_is_fine : Option Err → M S (Unit {0})
  missing_is_fine none = skip
  missing_is_fine (some e) =
      if is e os_not_exist then skip else fail (wrap "failed to remove bundle rootfs" e)

  -- what the link that is read next points to
  unfoldable pub link_target : List String → M S (List String)
  link_target path s l = ok (env.link_target l path) s l

  unfoldable pub delete : Bundle → M S (Unit {0})
  unfolding missing_is_fine delete_work link_target
  delete b = do
    wrapping (wrap "unmount rootfs") (call env (unmount_all (rootfs b)))
    removed ← attempt (call env (remove_path (rootfs b)))
    missing_is_fine removed
    target ← link_target ("work" ∷ b.path)
    work ← tried (call env (read_link ("work" ∷ b.path)))
    e ← attempt (atomic_delete b.path)
    delete_work target work e
