-- ===== src/World.antt =====
-- The shared state of the plugin: the processes behind their pointers, and the callbacks of the
-- epoller. Go's pointers to processes are always valid, so the two stores are total.
use embedshim.Prelude.{ℕ, Map, ◌==◌, ◌≡◌, true, arith, if◌then◌else◌}
use embedshim.Host.{M, zoom}
use embedshim.InitProcess.{InitProcess}
use embedshim.Shim.Types.{Shim}
use embedshim.ExecProcess.Types.{ExecProcess}

-- the closures that the monitor and the exec processes hand to the epoller
pub data Callback : Type 0 where
  init_exit exec_exit : ℕ → Callback

pub record World : Type 0 where
  -- `fdOnCloses` of the monitor's epoller
  pub poller : Map Callback
  pub inits : ℕ → InitProcess
  pub execs : ℕ → ExecProcess
  -- the pointer that the next exec process gets
  pub next_exec : ℕ
  -- the pointer that the next init process gets
  pub next_init : ℕ
  -- the shim of each init process, behind the same pointer
  pub shims : ℕ → Shim

abbrev pub update {ℓ} : {A : Type ℓ} → (ℕ → A) → ℕ → A → ℕ → A
update f a v b = if a == b then v else f b

abbrev pub set_poller : World → Map Callback → World
set_poller w m = record w { poller = m }

abbrev pub set_init : ℕ → World → InitProcess → World
set_init a w p = record w { inits = update w.inits a p }

abbrev pub set_exec : ℕ → World → ExecProcess → World
set_exec a w e = record w { execs = update w.execs a e }

abbrev pub set_shim : ℕ → World → Shim → World
set_shim a w s = record w { shims = update w.shims a s }

module _ {A : Type 0} where
  abbrev pub on_init : ℕ → M InitProcess A → M World A
  on_init a m = zoom (λ w. w.inits a) (set_init a) m

  abbrev pub on_exec : ℕ → M ExecProcess A → M World A
  on_exec a m = zoom (λ w. w.execs a) (set_exec a) m

  abbrev pub on_shim : ℕ → M Shim A → M World A
  on_shim a m = zoom (λ w. w.shims a) (set_shim a) m

-- a pointer that has been updated is read back
pub eq_self : (a : ℕ) → (a == a) ≡ true
eq_self a = ground arith
