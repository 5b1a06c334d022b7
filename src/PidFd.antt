-- ===== src/PidFd.antt =====
-- pkg/pidfd/epoll.go: the epoller. `C` is the type of the callbacks; the map `fdOnCloses` is a part
-- of the state, reached by `get` and `set`. Add and one round of Run hold `e.mu` for their map steps.
pub mod Once
pub mod SysCalls
use embedshim.Prelude.{ℕ, List, [], ◌∷◌, Option, none, some, Map, lookup, insert, erase}
use embedshim.GoError.{Err, msg, wrap, sentinel, eintr}
use embedshim.Host.{
  Env, M, call, fail, crash, skip, gets, modify, ignore, wrapping, ◌>>=◌, ◌>>◌, epoll_add,
  epoll_del, close_fd, epoll_create,
}

-- what one epoll_wait returns: an error, or the descriptors that are readable
pub data Wait : Type 0 where
  failed : Err → Wait
  ready : List ℕ → Wait

-- NewEpoller: the descriptor of the epoll instance
unfoldable pub new_epoller : {S : Type 0} → Env → M S ℕ
new_epoller env = call env epoll_create

-- Close, under closeOnce
unfoldable pub close : {S : Type 0} → Env → ℕ → M S (Unit {0})
close env efd = ignore (call env (close_fd efd))

module _ (env : Env) {S C : Type 0} (get : S → Map C) (set : S → Map C → S) where
  unfoldable pub register : ℕ → C → Option C → M S (Unit {0})
  register fd on_close (some old) = fail (msg "the pidfd is exist")
  register fd on_close none = do
    wrapping (wrap "failed to monitor pidfd") (call env (epoll_add fd))
    modify (λ s. set s (insert (get s) fd on_close))

  unfoldable pub add : ℕ → C → M S (Unit {0})
  unfolding register
  add fd on_close = do old ← gets (λ s. lookup (get s) fd); register fd on_close old

  module _ (invoke : C → M S (Unit {0})) where
    -- a missing entry is a nil function
    unfoldable pub call_back : Option C → M S (Unit {0})
    call_back none = crash "nil pointer dereference"
    call_back (some on_close) = ignore (invoke on_close)

    -- the body of the loop over the events
    unfoldable pub handle_event : ℕ → M S (Unit {0})
    unfolding call_back
    handle_event fd = do
      wrapping (wrap "failed to remove pidfd from interest list") (call env (epoll_del fd))
      on_close ← gets (λ s. lookup (get s) fd)
      modify (λ s. set s (erase (get s) fd))
      ignore (call env (close_fd fd))
      call_back on_close

    unfoldable pub handle_events : List ℕ → M S (Unit {0})
    unfolding handle_event
    handle_events [] = skip
    handle_events (fd ∷ fds) = do handle_event fd; handle_events fds

    -- Run, up to the wait that has not returned yet; EINTR is retried
    unfoldable pub run : List Wait → M S (Unit {0})
    unfolding handle_events
    run [] = skip
    run (failed (sentinel eintr) ∷ waits) = run waits
    run (failed e ∷ waits) = fail (wrap "failed to wait pidfd events" e)
    run (ready fds ∷ waits) = do handle_events fds; run waits
