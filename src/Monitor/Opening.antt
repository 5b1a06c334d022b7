-- ===== src/Monitor/Opening.antt =====
-- monitor.go, pkg/exitsnoop/map.go: what newMonitor leaves open when it fails.
use embedshim.Prelude.{ℕ, ◌+◌, String, List, [], ◌∷◌, arith, str_eq, if◌then◌else◌}
use embedshim.ExitSnoop
use embedshim.ExitSnoop.Load.{exited_events, new_store, new_store_from_attach}
use embedshim.ExitSnoop.Types.{init_store}
use embedshim.Host.{
  Env, Log, Call, Reply, gives, fails, bolt_open, bolt_close, epoll_create, load_pinned_map,
  close_fd, close_maps,
}
use embedshim.Host.Ledger.{Owes, Owes-bind, Owes-rolled_back}
use embedshim.Monitor.{new_monitor}
use embedshim.PidFd
use embedshim.World.{World}

-- the epoll instance, the pinned maps and the database of the trace IDs
abbrev pub opened : Call → Reply → ℕ
opened epoll_create (gives n m) = 1
opened (load_pinned_map path) (gives n m) = 1
opened (bolt_open path) (gives n m) = 1
opened _ _ = 0

abbrev is_events : List String → ℕ
is_events [] = 0
is_events (name ∷ path) = if str_eq name exited_events then 1 else 0

-- a store has two maps
abbrev pub released : Call → ℕ
released (close_fd fd) = 1
released (close_maps store) = 2
released bolt_close = 1
released _ = 0

-- the second map of a store cannot be loaded
abbrev pub missed : Call → Reply → ℕ
missed (load_pinned_map path) (fails e) = is_events path
missed _ _ = 0

abbrev pub settled : Call → Reply → ℕ
settled c r = released c + missed c r

module _ (env : Env) where
  new_store-Owes :
      (root : List String) (w : World) (l : Log)
      → Owes opened settled l 1 3 1 (new_store env root w l)
  unfolding new_store
  new_store-Owes root w l = ground arith

  attach-Owes : (w : World) (l : Log) → Owes opened settled l 3 3 3 (new_store_from_attach env w l)
  unfolding new_store_from_attach
  attach-Owes w l = ground arith

  close_store-Owes :
      (w : World) (l : Log) → Owes opened settled l 3 1 1 (ExitSnoop.close env init_store w l)
  unfolding ExitSnoop.close
  close_store-Owes w l = ground arith

  close_epoller-Owes :
      (efd : ℕ) (w : World) (l : Log) → Owes opened settled l 1 0 0 (PidFd.close env efd w l)
  unfolding PidFd.close
  close_epoller-Owes efd w l = ground arith

  create-Owes : (w : World) (l : Log) → Owes opened settled l 0 1 0 (PidFd.new_epoller env w l)
  unfolding PidFd.new_epoller
  create-Owes w l = ground arith

  -- newMonitor never panics. If it succeeds it holds three things more, the epoll instance and the two
  -- pinned maps; if it fails it has closed as many as it opened, but for one map for each failed load
  -- of the map of exit events: the map of traced tasks, loaded before it, stays open.
  pub new_monitor-Owes :
      (root : List String) (w : World) (l : Log)
      → Owes opened settled l 0 3 0 (new_monitor env root w l)
  unfolding new_monitor
  new_monitor-Owes root w l =
      Owes-bind opened settled l 0 1 3 0 (PidFd.new_epoller env w l) _ (create-Owes w l) (λ efd s m.
        Owes-bind opened settled m 1 3 3 0 _ _
          (Owes-rolled_back opened settled m 1 3 1 0 _ _
            (Owes-bind opened settled m 1 3 3 1 _ _ (new_store-Owes root s m) (λ _ t n.
              Owes-rolled_back opened settled n 3 3 3 1 _ _ (attach-Owes t n)
                (λ _. close_store-Owes)))
            (λ _. close_epoller-Owes efd))
          (λ _ t n. omega arith))
