-- ===== src/Remote/Aggregator/Listed.antt =====
-- What `get_all_servers` lists.
use llauncher.Base.{◌≡◌, Bool, true, Option, none, some, List, [], ◌∷◌, ◌==◌, all, not, map, ◌++◌}
use llauncher.Base.Text.{Text, text_eq, codes}
use llauncher.Base.Dict.{lookup}
use llauncher.Remote.Node.{RemoteNode, Answer, get_status, body, raised}
use llauncher.Remote.Registry.{Nodes}
use llauncher.Remote.Aggregator.{
  RemoteServerInfo, ServerCache, Network, ask, appended, ServerData, on_node,
}

abbrev no_node : Text → Nodes → Bool
no_node name = all (λ n. not (name == n.1.name))

-- Every node has a name of its own.
abbrev pub OwnNames : Nodes → Type 0
OwnNames [] = Unit
OwnNames ((key, node) ∷ nodes) = (no_node node.name nodes ≡ true) × OwnNames nodes

abbrev flagged_offline : RemoteServerInfo → RemoteServerInfo
flagged_offline info =
    on_node info.node_name
      (record info.server { config_name = info.server.config_name ++ codes " [OFFLINE]" })

abbrev all_on : Text → Option (List ServerData) → Option (List RemoteServerInfo)
all_on name none = none
all_on name (some servers) = some (map (on_node name) servers)

-- The servers that were cached, flagged.
abbrev last_known : Option (List RemoteServerInfo) → List RemoteServerInfo
last_known none = []
last_known (some servers) = map flagged_offline servers

module _ {J : Type 0} (net : Network J) where
  -- What a node shows by itself, given what was cached for it: its servers if it answers with a
  -- body, an exception if that cannot be read, and else the servers that were cached, flagged.
  abbrev pub shown_for :
      Text → Option (List RemoteServerInfo) → Answer J → Option (List RemoteServerInfo)
  shown_for name cached (body j) = all_on name (net.servers_of j)
  shown_for name cached raised = none
  shown_for name cached _ = some (last_known cached)

  unfoldable pub shown : ServerCache → RemoteNode → Option (List RemoteServerInfo)
  shown cache node = shown_for node.name (lookup node.name cache) (ask net get_status node).0

  -- What the nodes show, each by itself.
  unfoldable pub shown_all : ServerCache → Nodes → Option (List RemoteServerInfo)
  unfolding shown
  shown_all cache [] = some []
  shown_all cache ((key, node) ∷ nodes) = appended net (shown cache node) (shown_all cache nodes)
