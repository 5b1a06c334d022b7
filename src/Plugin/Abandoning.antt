-- ===== src/Plugin/Abandoning.antt =====
-- plugin.go: what New leaves open when it fails.
use embedshim.Prelude.{ℕ, ◌+◌, String, List, ◌≡◌, ◌⊎◌}
use embedshim.Host.{Log, Outcome, ok, err, panic}
use embedshim.Host.Ledger.{gains, spends}
use embedshim.Host.Ran.{Ran}
use embedshim.Monitor.Opening.{opened, settled}
use embedshim.Reload.Survival.{Unread}
use embedshim.World.{World}

-- from log `l` to log `m`, `n` things more are open
abbrev pub Balanced : ℕ → Log → Log → Type 0
Balanced n l m =
    gains opened settled m + spends opened settled l
    ≡ gains opened settled l + spends opened settled m + n

-- What New leaves when it fails: nothing, up to the map of `init`; or all four things, with the failed
-- read of the folder of the state as its last call.
abbrev pub Abandons : {A : Type 0} → List String → Log → Outcome World A → Type 0
Abandons state l (ok a w m) = Unit
Abandons state l (err e w m) = Balanced 0 l m ⊎ ((k : Log) × Unread state k m × Balanced 4 l k)
Abandons state l (panic e) = Unit
