-- ===== src/Agent/Server/Shutdown.antt =====
-- llauncher/agent/server.py, `lifespan`: the reaping of the servers when the agent shuts down. What
-- the registry of the stops in flight is before and after each wait for one is an argument.
pub mod Reaped
use llauncher.Base.{ℕ, suc, Bool, true, false, List, [], ◌∷◌, String, if◌then◌else◌}
use llauncher.Records.{Lockfile}
use llauncher.Host.{Exec, Exn, is_os_error, pure, raise, attempt, ◌>>=◌}
use llauncher.Core.Lockfile.{list_lockfiles}
use llauncher.Operations.Stop.{StopResult, stop}
use llauncher.Operations.Stop.Background.{Registry, join_inflight_stop}

-- What became of an entry: it was joined, a stop returned, or it raised an `OSError`.
pub data Reaping : Type 0 where
  coalesced failed : Reaping
  stopped : StopResult → Reaping

abbrev shutdown_caller : String
shutdown_caller = "agent-shutdown"

abbrev pub pass_os_error : {A : Type 0} → A → Exn → Exec A
pass_os_error a x = if is_os_error x then pure a else raise x

unfoldable pub stop_entry : ℕ → Exec Reaping
stop_entry port =
    attempt (stop port shutdown_caller) (λ r. pure (Reaping.stopped r))
      (pass_os_error Reaping.failed)

module _ (before after : ℕ → Registry) where
  unfoldable pub reap_entry : ℕ → ℕ → Exec Reaping
  unfolding stop_entry
  reap_entry i port =
      if join_inflight_stop port (before i) (after i)
      then pure Reaping.coalesced
      else stop_entry port

  -- The loop, with what became of each port.
  unfoldable pub reap : ℕ → List Lockfile → Exec (List (ℕ × Reaping))
  unfolding reap_entry
  reap i [] = pure []
  reap i (entry ∷ entries) = do
    one ← reap_entry i entry.port
    rest ← reap (suc i) entries
    pure ((entry.port, one) ∷ rest)

  unfoldable pub shutdown : Exec (List (ℕ × Reaping))
  unfolding reap
  shutdown = attempt list_lockfiles (reap 0) (pass_os_error [])
