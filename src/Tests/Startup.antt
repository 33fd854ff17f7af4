-- ===== src/Tests/Startup.antt =====
-- The start and the end of the agent on concrete inputs.
use llauncher.Base.{ℕ, true, none, some, Option, [], ◌∷◌, ◌≡◌, refl, nat_eq, string_eq}
use llauncher.Base.Text.{Text, codes, text_eq}
use llauncher.Host.Hoare.{Post}
use llauncher.Host.{meet}
use llauncher.Core.AgentToken.Stripped.{UrlSafe}
use llauncher.Core.Delegation.{Environment}
use llauncher.Core.Lockfile.{listing}
use llauncher.Operations.Stop.Background.Inflight.{no_stops}
use llauncher.Agent.Server.{AgentConfig, Serving, Startup, Given, Ran, build_app, run_agent}
use llauncher.Agent.Server.Guarded.{IsGuarded, run_agent-IsGuarded}
use llauncher.Agent.Server.Again.{Agreed, run_agent-again}
use llauncher.Agent.Server.Shutdown.{shutdown}
use llauncher.Agent.Server.Shutdown.Reaped.{Shut, Stopped, shutdown-frees}
use llauncher.Tests.Machine.{calm, calm-Settled, served_world}

abbrev local_config : AgentConfig
local_config = record { host = codes "127.0.0.1"; port = 8765 }

abbrev nothing_set : Environment
nothing_set = record { agent_process = none; delegate_override = none }

-- A first start: no token in the environment, one generated.
abbrev first : Given
first = record {
  legacy_token = none;
  agent_token = none;
  environment = nothing_set;
  stdin = [];
  generated = codes "Zx-9";
}

first-UrlSafe : UrlSafe first.generated
first-UrlSafe = (refl, refl)

abbrev served_first : Serving
served_first = record {
  app = build_app (some (codes "Zx-9"));
  host = codes "127.0.0.1";
  port = 8765;
  environment = record { agent_process = some (codes "1"); delegate_override = none };
}

abbrev left_env : Option Text
left_env = some (codes "LLAUNCHER_AGENT_TOKEN=Zx-9\n")

run_agent-IsGuarded_example : IsGuarded local_config first none (run_agent local_config first none)
run_agent-IsGuarded_example = run_agent-IsGuarded local_config first none first-UrlSafe

run_first-run : run_agent local_config first none ≡ (Startup.serves served_first, left_env)
unfolding run_agent llauncher.Base.Dict.lookup llauncher.Base.Lines.is_space
run_first-run = refl

run_agent-again_example :
    Agreed local_config first (codes "other") (some local_config) Ran.returned served_first left_env
run_agent-again_example =
    run_agent-again local_config first (codes "other") (some local_config) Ran.returned none
      left_env served_first first-UrlSafe run_first-run

shutdown-frees_example :
    Post
      (Shut (listing calm (meet calm served_world)) (meet calm served_world))
      Stopped
      (shutdown (λ i. no_stops) (λ i. no_stops) calm served_world)
shutdown-frees_example =
    shutdown-frees (λ i. no_stops) (λ i. no_stops) calm calm-Settled served_world
