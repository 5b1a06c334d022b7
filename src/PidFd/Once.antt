-- ===== src/PidFd/Once.antt =====
-- pkg/pidfd/epoll.go: no callback is lost, and none is called twice.
use embedshim.Prelude.{
  ℕ, ◌+◌, Option, none, some, List, [], ◌∷◌, ◌≡◌, ◌==◌, if◌then◌else◌, Map, lookup,
}
use embedshim.GoError.{Err}
use embedshim.Host.{pure, pure, M, Outcome, ok, err, panic}

-- The epoller with callbacks that only note that they ran. A callback is known by the descriptor that
-- it was registered for.
pub record Loop : Type 0 where
  pub poller : Map ℕ
  pub ran : List ℕ

abbrev pub set_map : Loop → Map ℕ → Loop
set_map s m = record s { poller = m }

-- what a callback returns does not matter
abbrev pub note : (ℕ → Option Err) → ℕ → M Loop (Unit {0})
note result fd s l = elim (result fd) [
  | none ↦ ok tt (record s { ran = fd ∷ s.ran }) l
  | some e ↦ err e (record s { ran = fd ∷ s.ran }) l
]

abbrev pub times : ℕ → List ℕ → ℕ
times k [] = 0
times k (j ∷ js) = (if j == k then 1 else 0) + times k js

-- whether a callback still waits for its descriptor
abbrev pub due : Option ℕ → ℕ
due none = 0
due (some c) = 1

abbrev pub IsNamed : Map ℕ → Type 0
IsNamed m = (k c : ℕ) → lookup m k ≡ some c → c ≡ k

abbrev Kept : Loop → Loop → Type 0
Kept s t =
    IsNamed t.poller
    × ((k : ℕ) → times k t.ran + due (lookup t.poller k) ≡ times k s.ran + due (lookup s.poller k))

-- what a round leaves, also one that fails
abbrev pub Conserves : Loop → Outcome Loop (Unit {0}) → Type 0
Conserves s (ok _ t l) = Kept s t
Conserves s (err e t l) = Kept s t
Conserves s (panic m) = m ≡ "nil pointer dereference"
