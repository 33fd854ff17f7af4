-- ===== src/Tests/Peers.antt =====
-- The other nodes on concrete inputs.
use llauncher.Base.{◌≡◌, refl, false, none, some, [], ◌∷◌, Option}
use llauncher.Base.Text.{Text, codes, text_eq}
use llauncher.Base.Dict.{lookup}
use llauncher.Remote.Node.{
  RemoteNode, offline, Here, Verb, Request, Reply, no_reply, reply, Detail, no_result, accepts,
}
use llauncher.Remote.Registry.{Nodes, Files, missing, load, save}
use llauncher.Remote.Registry.Saved.{AllSettled, map_option, reloaded, load-save}
use llauncher.Remote.Aggregator.{Network, RemoteAggregator, ServerData, on_node}

abbrev gpu_node : RemoteNode
gpu_node = record {
  name = codes "gpu";
  host = codes "10.0.0.2";
  port = 8765;
  timeout = 5000;
  api_key = some (codes "key");
  status = offline;
  last_seen = none;
}

abbrev here : Here
here = record { is_agent = false; host_name = none; agent_port = 8765 }

abbrev no_detail : Text → Detail Text
no_detail j = no_result

abbrev accepted : Request → Reply Text
accepted r = reply 202 (some (codes "stopping"))

abbrev silent : Request → Reply Text
silent r = no_reply

abbrev nothing : Verb → Option Text
nothing verb = some []

abbrev nodes_of_two : Nodes
nodes_of_two =
    (codes "gpu", gpu_node)
    ∷ (codes "cpu", record gpu_node { name = codes "cpu"; host = codes "10.0.0.3"; api_key = none })
    ∷ []

abbrev no_files : Files
no_files = record { nodes_file = missing; tokens_file = none }

nodes_of_two-AllSettled : AllSettled nodes_of_two
unfolding accepts
nodes_of_two-AllSettled = (
  record { accepted = refl; no_local_name = refl },
  (record { accepted = refl; no_local_name = refl }, tt),
)

load-save_example :
    (lookup (codes "gpu") (load (some (codes "own")) (save nodes_of_two no_files)).0
      ≡ map_option reloaded (lookup (codes "gpu") nodes_of_two))
    × ((load (some (codes "own")) (save nodes_of_two no_files)).1 ≡ save nodes_of_two no_files)
unfolding lookup
load-save_example =
    load-save (codes "gpu") (some (codes "own")) nodes_of_two no_files (refl, (refl, tt))
      nodes_of_two-AllSettled refl

abbrev net : Network Text
net = record {
  here = here;
  now = 50;
  send = silent;
  own = nothing;
  detail_of = no_detail;
  servers_of = λ j. some [];
  models_of = λ j. [];
}

abbrev known : ServerData
known = record {
  pid = 41;
  port = 8080;
  config_name = codes "a";
  start_time = codes "2026";
  uptime_seconds = 9;
  logs_path = none;
}

abbrev aggregator : RemoteAggregator Text
aggregator = record {
  registry = nodes_of_two;
  server_cache = (codes "gpu", on_node (codes "gpu") known ∷ []) ∷ [];
  model_cache = [];
}
