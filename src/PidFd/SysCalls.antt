-- ===== src/PidFd/SysCalls.antt =====
-- pkg/pidfd/syscall.go: the system calls on pidfds. The arguments that their callers leave at zero or
-- nil (the flags, the resource usage) are left out, and so are waitid's options, which are always
-- WNOHANG|WNOWAIT|WEXITED; GetFd is not called.
use embedshim.Prelude.{ℕ}
use embedshim.Host.{Env, M, call, pidfd_open, pidfd_send_signal, waitid}

module _ {S : Type 0} (env : Env) where
  -- Open; the raw descriptor is the FD
  abbrev pub open_fd : ℕ → M S ℕ
  open_fd pid = call env (pidfd_open pid)

  abbrev pub send_signal : ℕ → ℕ → M S ℕ
  send_signal fd signal = call env (pidfd_send_signal fd signal)

  -- Waitid; the result is the Pid of the siginfo, which is 0 if the process has not exited
  abbrev pub wait_id : ℕ → M S ℕ
  wait_id fd = call env (waitid fd)
