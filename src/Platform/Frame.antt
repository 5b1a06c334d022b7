-- ===== src/Platform/Frame.antt =====
-- The copies of a console count themselves in the wait group that they are given, and change nothing
-- else.
use embedshim.Prelude.{ℕ, String, ◌≡◌}
use embedshim.Host.{Env}
use embedshim.Host.Quiet.{Quiet, quiet_rules}
use embedshim.Host.Keeps.{Keeps, keeps_rules, Keeps-modify}
use embedshim.Platform.{Platform, copy_console, copy_input}

module _ (env : Env) {S : Type 0} where
  copy_input-Quiet : (handle : ℕ) (stdin : String) → Quiet {S = S} (copy_input env handle stdin)
  unfolding copy_input
  copy_input-Quiet handle stdin = search quiet_rules

  pub copy_console-Keeps :
      {V : Type 0} (f : S → V) (X : String → Type 0) (add : S → S) (p : Platform) (console : ℕ)
      (stdin stdout : String)
      → ((s : S) → f (add s) ≡ f s)
      → Keeps f X (copy_console env add p console stdin stdout)
  unfolding copy_console
  copy_console-Keeps f X add p console stdin stdout h =
      search (keeps_rules, quiet_rules, copy_input-Quiet, Keeps-modify) depth 12
