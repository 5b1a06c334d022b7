-- ===== src/DeletedState.antt =====
-- delete_state.go: the state after the deletion, which the init process and the exec processes share.
use embedshim.Prelude.{ℕ, String, Bool, Option}
use embedshim.GoError.{msg, wrap, sentinel, not_found}
use embedshim.Host.{M, Stdio, fail, skip}

-- fmt.Errorf without a wrapped error
abbrev pub refuse : {S A : Type 0} → String → M S A
refuse reason = fail (msg reason)

-- fmt.Errorf with errdefs.ErrNotFound
abbrev gone : {S A : Type 0} → String → M S A
gone reason = fail (wrap reason (sentinel not_found))

module _ {S : Type 0} where
  abbrev pub pause : M S (Unit {0})
  pause = refuse "cannot pause a deleted process"

  abbrev pub resume : M S (Unit {0})
  resume = refuse "cannot resume a deleted process"

  abbrev pub update : String → M S (Unit {0})
  update resources = refuse "cannot update a deleted process"

  abbrev pub checkpoint : M S (Unit {0})
  checkpoint = refuse "cannot checkpoint a deleted process"

  abbrev pub resize : M S (Unit {0})
  resize = refuse "cannot resize a deleted process"

  abbrev pub start : M S (Unit {0})
  start = refuse "cannot start a deleted process"

  abbrev pub delete : M S (Unit {0})
  delete = gone "cannot delete a deleted process"

  abbrev pub kill : ℕ → Bool → M S (Unit {0})
  kill signal all = gone "cannot kill a deleted process"

  abbrev pub set_exited : ℕ → M S (Unit {0})
  set_exited status = skip

  abbrev pub exec : {A : Type 0} → Option ℕ → String → String → Stdio → M S A
  exec ctx id spec io = refuse "cannot exec in a deleted state"

-- a deleted process is reported as stopped
abbrev pub status : String
status = "stopped"
