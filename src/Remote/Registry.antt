-- ===== src/Remote/Registry.antt =====
-- llauncher/remote/registry.py: the registry of the nodes, in nodes.json, with the tokens of the
-- remote nodes beside it in node_tokens.json. A field of an entry has its type or is missing, digits
-- are ASCII, and file permissions are left out. The token of the local agent is given.
pub mod Tokens
pub mod Saved
use llauncher.Base.{
  ℕ, ◌+◌, ◌*◌, ◌-◌, Bool, true, false, not, ◌&&◌, ◌||◌, Option, none, some, List, [], ◌∷◌, ◌++◌,
  all, leb, ◌==◌, nat_eq, if◌then◌else◌,
}
use llauncher.Base.Text.{Text, codes, before, text_eq}
use llauncher.Base.Dict.{Dict, lookup, put, remove, has_key}
use llauncher.Core.AgentToken.{after}
use llauncher.Remote.Node.{RemoteNode, NodeStatus, online, new_node, count_code}

-- An entry of nodes.json. `api_key` is of the old format.
pub record NodeData : Type 0 where
  pub name : Option Text
  pub host : Option Text
  pub port : Option ℕ
  pub timeout : Option ℕ
  pub api_key : Option Text

pub data NodesFile : Type 0 where
  missing corrupt : NodesFile
  nodes : Dict Text NodeData → NodesFile

-- The two files. A tokens file that is missing or corrupt is `none`.
pub record Files : Type 0 where
  pub nodes_file : NodesFile
  pub tokens_file : Option (Dict Text Text)

abbrev pub Nodes : Type 0
Nodes = Dict Text RemoteNode

abbrev is_number : Text → Bool
is_number [] = false
is_number (c ∷ s) = all (λ d. leb b'0' d && leb d b'9') (c ∷ s)

-- `int(s)` on digits
abbrev number_from : ℕ → Text → ℕ
number_from n [] = n
number_from n (c ∷ s) = number_from (n * 10 + (c - b'0')) s

abbrev or_default : ℕ → Option ℕ → ℕ
or_default n none = n
or_default n (some m) = m

-- The host and the port of an entry, with a port that was put into the host, and whether this or the
-- name of the local host was mended.
unfoldable pub mend_host : Text → ℕ → Text × ℕ × Bool
mend_host host port =
    if count_code b':' host == 1
    then (
      before b':' host,
      (if is_number (after b':' host) then number_from 0 (after b':' host) else port),
      true,
    )
    else (host, port, false)

unfoldable pub mend_local : Text → Text → Text × Bool
mend_local key host =
    if key == codes "local" && host == codes "localhost"
    then (codes "127.0.0.1", true)
    else (host, false)

-- The loaded nodes, and whether an entry was migrated.
abbrev pub Loading : Type 0
Loading = Nodes × Bool

keep_node : Text → Option RemoteNode → Nodes → Nodes
keep_node key none loaded = loaded
keep_node key (some node) loaded = put key node loaded

-- One entry with its name and host. An entry that is not accepted is left out, and counts as migrated
-- if it was mended first.
unfoldable pub load_named : Text → NodeData → Text → Text → Loading → Loading
unfolding mend_host mend_local keep_node
load_named key entry name host loading =
    let mended = mend_host host (or_default 8765 entry.port) in
    let local = mend_local key mended.0 in
    (
      keep_node key (new_node name local.0 mended.1 (or_default 5000 entry.timeout) entry.api_key)
          loading.0,
      loading.1 || mended.2 || local.1,
    )

-- The name is read when the node is made, after the mending.
unfoldable pub load_entry : Text → NodeData → Option Text → Option Text → Loading → Loading
unfolding load_named
load_entry key entry name none loading = loading
load_entry key entry none (some host) loading =
    let mended = mend_host host (or_default 8765 entry.port) in
    (loading.0, loading.1 || mended.2 || (mend_local key mended.0).1)
load_entry key entry (some name) (some host) loading = load_named key entry name host loading

unfoldable pub load_entries : Dict Text NodeData → Loading → Loading
unfolding load_entry
load_entries [] loading = loading
load_entries ((key, entry) ∷ entries) loading =
    load_entries entries (load_entry key entry entry.name entry.host loading)

abbrev with_key : Text → RemoteNode → RemoteNode
with_key token node = record node { api_key = some token }

-- `_populate_local_token`. `local_token` is what `_resolve_local_token` gives, and is not empty.
-- A token for a node without a key.
stamp_key : Text → Text → RemoteNode → Option Text → Nodes → Nodes
stamp_key name token node none loaded = put name (with_key token node) loaded
stamp_key name token node (some key) loaded = loaded

stamp_local : Option Text → Option RemoteNode → Nodes → Nodes
unfolding stamp_key
stamp_local local_token none loaded = loaded
stamp_local none (some node) loaded = loaded
stamp_local (some token) (some node) loaded =
    stamp_key (codes "local") token node node.api_key loaded

unfoldable pub populate_local_token : Option Text → Nodes → Nodes
unfolding stamp_local
populate_local_token local_token loaded =
    stamp_local local_token (lookup (codes "local") loaded) loaded

stamp_remote : Text → Text → Option RemoteNode → Nodes → Nodes
unfolding stamp_key
stamp_remote name token none loaded = loaded
stamp_remote name token (some node) loaded = stamp_key name token node node.api_key loaded

-- One round of `_populate_remote_tokens`.
unfoldable pub populate_token : Text → Text → Nodes → Nodes
unfolding stamp_remote
populate_token name token loaded =
    if name == codes "local" then loaded else stamp_remote name token (lookup name loaded) loaded

unfoldable pub populate_tokens : Dict Text Text → Nodes → Nodes
unfolding populate_token
populate_tokens [] loaded = loaded
populate_tokens ((name, token) ∷ tokens) loaded =
    populate_tokens tokens (populate_token name token loaded)

abbrev tokens_of : Option (Dict Text Text) → Dict Text Text
tokens_of none = []
tokens_of (some tokens) = tokens

-- `_save`: the entry of a node, without its key.
abbrev pub saved_entry : RemoteNode → NodeData
saved_entry node = record {
  name = some node.name;
  host = some node.host;
  port = some node.port;
  timeout = some node.timeout;
  api_key = none;
}

unfoldable pub saved_nodes : Nodes → Dict Text NodeData
saved_nodes [] = []
saved_nodes ((key, node) ∷ loaded) = (key, saved_entry node) ∷ saved_nodes loaded

unless_local : Text → Option Text → Dict Text Text → Dict Text Text
unless_local key none tokens = tokens
unless_local key (some []) tokens = tokens
unless_local key (some (c ∷ token)) tokens =
    if key == codes "local" then tokens else (key, c ∷ token) ∷ tokens

unfoldable pub saved_tokens : Nodes → Dict Text Text
unfolding unless_local
saved_tokens [] = []
saved_tokens ((key, node) ∷ loaded) = unless_local key node.api_key (saved_tokens loaded)

-- `_save_node_tokens`: no file is made for no tokens.
abbrev written_tokens : Dict Text Text → Option (Dict Text Text) → Option (Dict Text Text)
written_tokens [] none = none
written_tokens [] (some old) = some []
written_tokens (t ∷ tokens) old = some (t ∷ tokens)

unfoldable pub save : Nodes → Files → Files
unfolding saved_nodes saved_tokens
save loaded files = record {
  nodes_file = nodes (saved_nodes loaded);
  tokens_file = written_tokens (saved_tokens loaded) files.tokens_file;
}

abbrev finish_load : Option Text → Loading → Files → Nodes × Files
finish_load local_token loading files =
    let loaded =
      populate_tokens (tokens_of files.tokens_file) (populate_local_token local_token loading.0) in
    (loaded, if loading.1 then save loaded files else files)

load_file : Option Text → NodesFile → Files → Nodes × Files
unfolding load_entries populate_local_token populate_tokens save
load_file local_token missing files = ([], files)
load_file local_token corrupt files = finish_load local_token ([], false) files
load_file local_token (nodes entries) files =
    finish_load local_token (load_entries entries ([], false)) files

-- `_load`: the registry, and the files, which it writes again if it migrated an entry.
unfoldable pub load : Option Text → Files → Nodes × Files
unfolding load_file
load local_token files = load_file local_token files.nodes_file files

added : Text → Option RemoteNode → Nodes → Files → Bool × Nodes × Files
unfolding save
added name none registry files = (false, registry, files)
added name (some node) registry files =
    (true, put name node registry, save (put name node registry) files)

unfoldable pub add_node :
    Text → Text → ℕ → ℕ → Option Text → Bool → Nodes → Files → Bool × Nodes × Files
unfolding added
add_node name host port timeout api_key overwrite registry files =
    if has_key name registry && not overwrite
    then (false, registry, files)
    else added name (new_node name host port timeout api_key) registry files

unfoldable pub remove_node : Text → Nodes → Files → Bool × Nodes × Files
unfolding save
remove_node name registry files =
    if has_key name registry
    then (true, remove name registry, save (remove name registry) files)
    else (false, registry, files)

abbrev is_online : NodeStatus → Bool
is_online online = true
is_online _ = false

unfoldable pub get_online_nodes : Nodes → List RemoteNode
get_online_nodes [] = []
get_online_nodes ((key, node) ∷ registry) =
    let rest = get_online_nodes registry in if is_online node.status then node ∷ rest else rest
