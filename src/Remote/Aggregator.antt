-- ===== src/Remote/Aggregator.antt =====
-- llauncher/remote/state.py, `RemoteAggregator`, with `refresh_all` of remote/registry.py: what runs on
-- all nodes, with the last known state of a node that does not answer. How a body is read is an
-- argument, and a body is not null.
pub mod Listed
use llauncher.Base.{
  ℕ, ◌+◌, ◌-◌, Bool, true, false, Option, none, some, List, [], ◌∷◌, ◌++◌, map, length,
  if◌then◌else◌,
}
use llauncher.Base.Text.{Text, codes, text_eq}
use llauncher.Base.Dict.{Dict, lookup, put}
use llauncher.Remote.Node.{
  RemoteNode, NodeStatus, Here, Verb, ping, get_status, get_models, get_model_validation,
  start_server, swap_server, delete_model, stop_server, get_logs, Request, Reply, Detail, Answer,
  body, raised, call,
}
use llauncher.Remote.Registry.{Nodes, get_online_nodes}

pub record ServerData : Type 0 where
  pub pid : ℕ
  pub port : ℕ
  pub config_name : Text
  pub start_time : Text
  pub uptime_seconds : ℕ
  pub logs_path : Option Text

pub record RemoteServerInfo : Type 0 where
  pub node_name : Text
  pub server : ServerData

-- A model of an answer: its name, whether it is flagged as cached, and its other fields.
pub record ModelData (J : Type 0) : Type 0 where
  pub name : Text
  pub offline : Bool
  pub fields : J

abbrev pub ServerCache : Type 0
ServerCache = Dict Text (List RemoteServerInfo)

pub record RemoteAggregator (J : Type 0) : Type 0 where
  pub registry : Nodes
  pub server_cache : ServerCache
  pub model_cache : Dict Text (List (ModelData J))

abbrev pub on_node : Text → ServerData → RemoteServerInfo
on_node name server = record { node_name = name; server = server }

abbrev pub offline_server : RemoteServerInfo → RemoteServerInfo
offline_server info = record info {
  server = record info.server { config_name = info.server.config_name ++ codes " [OFFLINE]" };
}

-- The network of one round: what the nodes answer, and how their bodies are read. `servers_of` is
-- `none` where a server of the answer lacks a field.
pub record Network (J : Type 0) : Type 0 where
  pub here : Here
  pub now : ℕ
  pub send : Request → Reply J
  pub own : Verb → Option J
  pub detail_of : J → Detail J
  pub servers_of : J → Option (List ServerData)
  pub models_of : J → List (ModelData J)

module _ {J : Type 0} (net : Network J) where
  -- A call: its answer, and the node after.
  unfoldable pub ask : Verb → RemoteNode → Answer J × RemoteNode
  unfolding call
  ask verb node = (call net.detail_of net.now net.here net.send net.own verb node).1

  cached_servers : Option (List RemoteServerInfo) → List RemoteServerInfo
  cached_servers none = []
  cached_servers (some servers) = map offline_server servers

  keep_servers :
      Text → Option (List ServerData) → ServerCache → Option (List RemoteServerInfo) × ServerCache
  keep_servers name none cache = (none, cache)
  keep_servers name (some servers) cache =
      (some (map (on_node name) servers), put name (map (on_node name) servers) cache)

  -- What one node adds to the list, and the cache after. `none` is an exception.
  unfoldable pub node_servers :
      Text → Answer J → ServerCache → Option (List RemoteServerInfo) × ServerCache
  unfolding keep_servers cached_servers
  node_servers name (body j) cache = keep_servers name (net.servers_of j) cache
  node_servers name raised cache = (none, cache)
  node_servers name _ cache = (some (cached_servers (lookup name cache)), cache)

  abbrev pub appended :
      Option (List RemoteServerInfo)
      → Option (List RemoteServerInfo)
      → Option (List RemoteServerInfo)
  appended none later = none
  appended (some servers) none = none
  appended (some servers) (some more) = some (servers ++ more)

  -- After an exception the nodes behind are not asked.
  onto_servers :
      Text
      → RemoteNode
      → Nodes
      → Option (List RemoteServerInfo) × ServerCache
      → Option (List RemoteServerInfo) × (Nodes × ServerCache)
      → Option (List RemoteServerInfo) × (Nodes × ServerCache)
  onto_servers key node nodes (none, cache) later = (none, ((key, node) ∷ nodes, cache))
  onto_servers key node nodes (some servers, cache) (more, (asked, last)) =
      (appended (some servers) more, ((key, node) ∷ asked, last))

  unfoldable pub poll_servers :
      Nodes → ServerCache → Option (List RemoteServerInfo) × (Nodes × ServerCache)
  unfolding ask node_servers onto_servers
  poll_servers [] cache = (some [], ([], cache))
  poll_servers ((key, node) ∷ nodes) cache =
      let answered = ask get_status node in
      let one = node_servers node.name answered.0 cache in
      onto_servers key answered.1 nodes one (poll_servers nodes one.1)

  unfoldable pub get_all_servers :
      RemoteAggregator J → Option (List RemoteServerInfo) × RemoteAggregator J
  unfolding poll_servers
  get_all_servers a =
      let polled = poll_servers a.registry a.server_cache in
      (polled.0, record a { registry = polled.1.0; server_cache = polled.1.1 })

  abbrev Listing : Type 0
  Listing = Dict Text (List (ModelData J))

  abbrev flagged : ModelData J → ModelData J
  flagged model = record model { offline = true }

  -- The models of a node that does not answer.
  list_cached : Text → Option (List (ModelData J)) → Listing → Listing
  list_cached name none listing = listing
  list_cached name (some models) listing = put name (map flagged models) listing

  -- What a node adds to the listing, and the cache after.
  node_models : Text → Answer J → Listing → Listing → Option (Listing × Listing)
  unfolding list_cached
  node_models name (body j) listing cache =
      some (put name (net.models_of j) listing, put name (net.models_of j) cache)
  node_models name raised listing cache = none
  node_models name _ listing cache = some (list_cached name (lookup name cache) listing, cache)

  onto_models :
      Text → RemoteNode → Option Listing × (Nodes × Listing) → Option Listing × (Nodes × Listing)
  onto_models key node (listing, (asked, cache)) = (listing, ((key, node) ∷ asked, cache))

  unfoldable pub poll_models : Nodes → Listing → Listing → Option Listing × (Nodes × Listing)
  unfolding ask node_models onto_models
  poll_models [] listing cache = (some listing, ([], cache))
  poll_models ((key, node) ∷ nodes) listing cache =
      let answered = ask get_models node in
      onto_models key answered.1 (elim (node_models node.name answered.0 listing cache) [
        | none ↦ (none, (nodes, cache))
        | some (more, kept) ↦ poll_models nodes more kept
      ])

  unfoldable pub get_all_models : RemoteAggregator J → Option Listing × RemoteAggregator J
  unfolding poll_models
  get_all_models a =
      let polled = poll_models a.registry [] a.model_cache in
      (polled.0, record a { registry = polled.1.0; model_cache = polled.1.1 })

  -- A call of the node of a name. `none` is a node that is not there.
  on_registry : Text → Verb → Option RemoteNode → Nodes → Option (Answer J) × Nodes
  unfolding ask
  on_registry name verb none registry = (none, registry)
  on_registry name verb (some node) registry =
      let answered = ask verb node in (some answered.0, put name answered.1 registry)

  unfoldable pub call_on_node :
      Text → Verb → RemoteAggregator J → Option (Answer J) × RemoteAggregator J
  unfolding on_registry
  call_on_node name verb a =
      let called = on_registry name verb (lookup name a.registry) a.registry in
      (called.0, record a { registry = called.1 })

  abbrev pub get_validation :
      Text → Bool → RemoteAggregator J → Option (Answer J) × RemoteAggregator J
  get_validation name vram = call_on_node name (get_model_validation vram)

  abbrev pub start_on_node :
      Text → Text → ℕ → RemoteAggregator J → Option (Answer J) × RemoteAggregator J
  start_on_node name model port = call_on_node name (start_server model port)

  abbrev pub swap_on_node :
      Text → Text → ℕ → RemoteAggregator J → Option (Answer J) × RemoteAggregator J
  swap_on_node name model port = call_on_node name (swap_server model port)

  abbrev pub delete_model_on_node :
      Text → Text → RemoteAggregator J → Option (Answer J) × RemoteAggregator J
  delete_model_on_node name model = call_on_node name (delete_model model)

  abbrev pub stop_on_node : Text → ℕ → RemoteAggregator J → Option (Answer J) × RemoteAggregator J
  stop_on_node name port = call_on_node name (stop_server port)

  abbrev pub get_logs_on_node :
      Text → ℕ → ℕ → RemoteAggregator J → Option (Answer J) × RemoteAggregator J
  get_logs_on_node name port lines = call_on_node name (get_logs port lines)

  -- `NodeRegistry.refresh_all`
  unfoldable pub refresh_all : Nodes → Nodes
  unfolding ask
  refresh_all [] = []
  refresh_all ((key, node) ∷ nodes) = (key, (ask ping node).1) ∷ refresh_all nodes

  abbrev pub refresh_all_nodes : RemoteAggregator J → Dict Text NodeStatus × RemoteAggregator J
  unfolding refresh_all
  refresh_all_nodes a =
      let nodes = refresh_all a.registry in
      (map (λ n. (n.0, n.1.status)) nodes, record a { registry = nodes })
