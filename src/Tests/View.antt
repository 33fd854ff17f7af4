-- ===== src/Tests/View.antt =====
-- The view of the running servers on a concrete input.
use llauncher.Base.{ℕ, ◌≡◌, refl, Bool, true, Option, none, some, List, [], ◌∷◌, String, nat_eq}
use llauncher.Base.Text.{Text, codes}
use llauncher.Base.Dict.{lookup}
use llauncher.Host.{argv}
use llauncher.State.{ChangeRules}
use llauncher.State.Running.{RunningServer, LauncherState, Scanned, Surroundings}
use llauncher.State.Running.Keyed.{Step, refreshes, starts, stops, after, after-Keyed}
use llauncher.State.Eviction.{EvictionCall}
use llauncher.Tests.Machine.{model_a, model_b}

abbrev no_rules : ChangeRules
no_rules = record { whitelisted_models = []; blacklisted_ports = []; blacklisted_callers = [] }

abbrev new_view : LauncherState
new_view = record { models = (codes "a", model_a) ∷ []; running = []; rules = no_rules; audit = [] }

abbrev works : Surroundings
works = record {
  sockets = some [];
  can_bind = λ port. true;
  path_exists = λ path. true;
  launch = λ config port. some 42;
  stop_process = λ port. some true;
}

abbrev eighty_one : Text → Option ℕ
eighty_one s = some 8081

-- A server of another owner is found, one is started, and the first is stopped.
abbrev steps : List Step
steps =
    refreshes eighty_one (
      record {
        pid = 41;
        cmdline = argv (codes "llama-server" ∷ codes "--port" ∷ codes "8081" ∷ []);
      }
      ∷ [])
    ∷ starts works (codes "a") 8080 "cli"
    ∷ stops works 8081 "cli"
    ∷ []

abbrev started : RunningServer
started = record { pid = 42; port = 8080; config_name = codes "a" }

steps-run : lookup 8080 (after steps new_view).running ≡ some started
unfolding lookup llauncher.State.Running.stop_server llauncher.State.Running.start_server
    llauncher.State.Running.refresh_running_servers llauncher.Base.Dict.put
    llauncher.Core.Process.Ports.is_port_in_use llauncher.Core.Process.Ports.listening_ports
    llauncher.Base.Dict.remove
steps-run = refl

after-Keyed_example : ◌≡◌ {A = ℕ} started.port 8080
after-Keyed_example = after-Keyed steps new_view 8080 started refl steps-run

-- Model `b` is to take the port of `a`, and its readiness poll raises.
abbrev taken_view : LauncherState
taken_view = record new_view {
  models = (codes "a", model_a) ∷ (codes "b", model_b) ∷ [];
  running = (8080, started) ∷ [];
}

abbrev eviction : EvictionCall
eviction = record {
  model_name = codes "b";
  port = 8080;
  caller = "cli";
  strict_rollback = true;
  around = works;
  ready = none;
  ends = λ again. true;
  procs = [];
  to_int = eighty_one;
}
