-- ===== src/Platform.antt =====
-- platform.go: the console of a process. The copies run in goroutines; one that writes to the
-- container's stdout is counted in the process's wait group.
pub mod Frame
use embedshim.Prelude.{ℕ, String, Bool, not, if◌then◌else◌, Option, none, some}
use embedshim.GoError.{msg}
use embedshim.Io.{is_set}
use embedshim.Host.{
  Env, M, call, ignore, pure, fail, skip, modify, ◌>>=◌, ◌>>◌, console_epoll_add, open_fifo,
  copy_loop, console_shutdown, platform_close,
}

-- linuxPlatform; its epoller is set from NewPlatform on
pub record Platform : Type 0 where
  pub has_epoller : Bool

module _ (env : Env) {S : Type 0} where
  copy_input : ℕ → String → M S (Unit {0})
  copy_input handle stdin =
      if is_set stdin
      then (do f ← call env (open_fifo stdin); ignore (call env (copy_loop f)))
      else skip

  -- `add` is `wg.Add(1)` on the wait group of the caller
  pub copy_console : (S → S) → Platform → ℕ → String → String → M S ℕ
  unfolding copy_input
  copy_console add p console stdin stdout =
      if not p.has_epoller then fail (msg "uninitialized epoller") else (do
        handle ← call env (console_epoll_add console)
        copy_input handle stdin
        out ← call env (open_fifo stdout)
        modify add
        ignore (call env (copy_loop out))
        pure handle)

  -- ShutdownConsole; a process with no terminal has no console
  unfoldable pub shutdown_console : Platform → Option ℕ → M S (Unit {0})
  shutdown_console p console =
      if not p.has_epoller then fail (msg "uninitialized epoller") else elim console [
        | none ↦ fail (msg "expected EpollConsole")
        | some handle ↦ (do call env (console_shutdown handle); skip)
      ]

  unfoldable pub close : Platform → M S (Unit {0})
  close p = do call env platform_close; skip
