-- ===== src/State/Eviction/Coherent.antt =====
-- What the result of an eviction says of the view after it.
use llauncher.Base.{ℕ, ◌≡◌, Bool, true, false, Option, none, some, nat_eq, ◌⊎◌}
use llauncher.Base.Text.{Text, text_eq}
use llauncher.Base.Dict.{lookup}
use llauncher.State.Running.{RunningServer, LauncherState, refresh_running_servers}
use llauncher.State.Eviction.{
  PortState, unchanged, restored, serving, unavailable, EvictionResult, EvictionCall, Outcome,
  server_of,
}

abbrev is_serving : PortState → Bool
is_serving serving = true
is_serving _ = false

abbrev is_restored : PortState → Bool
is_restored restored = true
is_restored _ = false

-- A stop that worked has freed the port, and one that did not has left the servers alone.
abbrev StopSays : ℕ → LauncherState → Option Bool × LauncherState → Type 0
StopSays port before (some true, t) = lookup port t.running ≡ none
StopSays port before (some false, t) = t.running ≡ before.running
StopSays port before (none, t) = t.running ≡ before.running

module _ (call : EvictionCall) (before : LauncherState) where
  -- The new server is listed on the port.
  abbrev Lists : LauncherState → Type 0
  Lists s =
      (pid : ℕ) × (lookup call.port s.running ≡ some (server_of pid call.port call.model_name))

  -- What each state of the port says of the view.
  abbrev Says : EvictionResult → LauncherState → PortState → Type 0
  Says r t unchanged = t.running ≡ before.running
  Says r t unavailable = lookup call.port t.running ≡ none
  Says r t restored =
      (server : RunningServer) × (lookup call.port t.running ≡ some server)
      × (server.config_name ≡ r.restored_model)
  Says r t serving =
      (s : LauncherState) × Lists s × (refresh_running_servers call.to_int call.procs s ≡ (true, t))

  abbrev pub IsCoherent : Outcome → Type 0
  IsCoherent (none, t) = Lists t ⊎ (t.running ≡ before.running)
  IsCoherent (some r, t) =
      (r.success ≡ is_serving r.port_state)
      × (r.rolled_back ≡ is_restored r.port_state)
      × Says r t r.port_state
