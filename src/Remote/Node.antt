-- ===== src/Remote/Node.antt =====
-- llauncher/remote/node.py: one node, and the calls of its agent. httpx is given as the reply to a
-- request, and what this process would do itself as the result of the verb. A time-out is in
-- milliseconds, and texts that only people read are left out.
pub mod Honest
use llauncher.Base.{
  ℕ, ◌+◌, Bool, true, false, not, ◌&&◌, ◌||◌, Option, none, some, List, [], ◌∷◌, contains, leb, ltb,
  ◌==◌, nat_eq, if◌then◌else◌,
}
use llauncher.Base.Text.{Text, codes, text_eq}

pub data NodeStatus : Type 0 where
  online offline error : NodeStatus

pub record RemoteNode : Type 0 where
  pub name : Text
  pub host : Text
  pub port : ℕ
  pub timeout : ℕ
  pub api_key : Option Text
  pub status : NodeStatus
  pub last_seen : Option ℕ

abbrev is_empty : Text → Bool
is_empty [] = true
is_empty (c ∷ s) = false

-- `s.count(c)`
abbrev pub count_code : ℕ → Text → ℕ
count_code c [] = 0
count_code c (d ∷ s) = (if d == c then 1 else 0) + count_code c s

-- What `NodeConfig` accepts.
unfoldable pub accepts : Text → Text → ℕ → ℕ → Bool
accepts name host port timeout =
    not (is_empty name)
    && not (is_empty host)
    && leb 1024 port
    && leb port 65535
    && ltb 0 timeout
    && not (count_code b':' host == 1)

abbrev pub non_empty : Option Text → Option Text
non_empty none = none
non_empty (some []) = none
non_empty (some (c ∷ s)) = some (c ∷ s)

-- `RemoteNode(...)`, `none` where it raises `ValueError`.
unfoldable pub new_node : Text → Text → ℕ → ℕ → Option Text → Option RemoteNode
unfolding accepts
new_node name host port timeout api_key =
    if accepts name host port timeout
    then some (record {
      name = name;
      host = host;
      port = port;
      timeout = timeout;
      api_key = non_empty api_key;
      status = NodeStatus.offline;
      last_seen = none;
    })
    else none

-- This process: whether it is the agent, the names of its machine, and its agent's port.
pub record Here : Type 0 where
  pub is_agent : Bool
  pub host_name : Option Text
  pub agent_port : ℕ

abbrev local_host_names : Here → List Text
local_host_names here =
    let literal = codes "localhost" ∷ codes "127.0.0.1" ∷ codes "::1" ∷ codes "0.0.0.0" ∷ [] in
    elim here.host_name [ none ↦ literal | some name ↦ name ∷ literal ]

unfoldable pub targets_local_node : Here → RemoteNode → Bool
targets_local_node here node =
    node.name == codes "local"
    || (contains node.host (local_host_names here) && node.port == here.agent_port)

unfoldable pub is_self_loop : Here → RemoteNode → Bool
unfolding targets_local_node
is_self_loop here node = here.is_agent && targets_local_node here node

-- The calls, with what they send.
pub data Verb : Type 0 where
  ping get_node_info get_status get_models : Verb
  get_model_validation : Bool → Verb
  start_server swap_server : Text → ℕ → Verb
  delete_model : Text → Verb
  stop_server : ℕ → Verb
  get_logs : ℕ → ℕ → Verb
  read_audit : ℕ → Option Text → Option Text → Verb

-- A request: where to, what, the `X-Api-Key` header, and the time-outs to connect and to read.
pub record Request : Type 0 where
  pub host : Text
  pub port : ℕ
  pub verb : Verb
  pub x_api_key : Option Text
  pub connect_timeout : ℕ
  pub read_timeout : ℕ

abbrev is_slow : Verb → Bool
is_slow (start_server model port) = true
is_slow (swap_server model port) = true
is_slow _ = false

-- `READINESS_CLIENT_TIMEOUT_S`
abbrev readiness_client_timeout : ℕ
readiness_client_timeout = 120000 + 30000

unfoldable pub request_of : RemoteNode → Verb → Request
request_of node verb = record {
  host = node.host;
  port = node.port;
  verb = verb;
  x_api_key = non_empty node.api_key;
  connect_timeout = node.timeout;
  read_timeout = if is_slow verb then readiness_client_timeout else node.timeout;
}

-- A reply has a status, and a body if that is JSON. `httpx.RequestError` is no reply.
pub data Reply (J : Type 0) : Type 0 where
  no_reply : Reply J
  reply : ℕ → Option J → Reply J

-- What the agent wraps in an error: a result, or something else.
pub data Detail (J : Type 0) : Type 0 where
  result : J → Detail J
  no_result : Detail J

pub data Answer (J : Type 0) : Type 0 where
  reachable : Bool → Answer J
  body : J → Answer J
  unavailable : Answer J
  refused : J → Answer J
  failed : ℕ → Answer J
  unreachable no_server raised : Answer J

module _ {J : Type 0} (detail_of : J → Detail J) (now : ℕ) where
  abbrev pub seen : RemoteNode → RemoteNode
  seen node = record node { status = NodeStatus.online; last_seen = some now }

  abbrev pub marked : NodeStatus → RemoteNode → RemoteNode
  marked status node = record node { status = status }

  -- `return response.json()`, which raises for a body that is not JSON
  of_json : Option J → Answer J
  of_json none = raised
  of_json (some j) = body j

  after_ping : Reply J → RemoteNode → Answer J × RemoteNode
  after_ping no_reply node = (reachable false, marked NodeStatus.offline node)
  after_ping (reply status json) node =
      if status == 200
      then (reachable true, seen node)
      else (reachable false, marked NodeStatus.error node)

  after_get : Reply J → RemoteNode → Answer J × RemoteNode
  unfolding of_json
  after_get no_reply node = (unavailable, marked NodeStatus.offline node)
  after_get (reply status json) node =
      if status == 200 then (of_json json, seen node) else (unavailable, node)

  of_detail : ℕ → Detail J → Answer J
  of_detail status (result j) = refused j
  of_detail status no_result = failed status

  of_error : ℕ → Option J → Answer J
  unfolding of_detail
  of_error status none = failed status
  of_error status (some j) = of_detail status (detail_of j)

  after_verb : Reply J → RemoteNode → Answer J × RemoteNode
  unfolding of_json of_error
  after_verb no_reply node = (unreachable, marked NodeStatus.offline node)
  after_verb (reply status json) node =
      if status == 200 then (of_json json, seen node) else (of_error status json, node)

  after_stop : Reply J → RemoteNode → Answer J × RemoteNode
  unfolding of_json
  after_stop no_reply node = (unreachable, marked NodeStatus.offline node)
  after_stop (reply status json) node =
      if status == 200 || status == 202
      then (of_json json, seen node)
      else (if status == 404 then no_server else failed status, node)

  unfoldable pub after_reply : Verb → Reply J → RemoteNode → Answer J × RemoteNode
  unfolding after_ping after_get after_verb after_stop
  after_reply ping = after_ping
  after_reply (start_server model port) = after_verb
  after_reply (swap_server model port) = after_verb
  after_reply (delete_model model) = after_verb
  after_reply (stop_server port) = after_stop
  after_reply _ = after_get

  -- The calls that have a path inside the process.
  abbrev pub has_shortcut : Verb → Bool
  has_shortcut get_status = false
  has_shortcut get_models = false
  has_shortcut (get_logs port lines) = false
  has_shortcut _ = true

  -- A verb that raises inside the process does so after the node is marked.
  in_process : Verb → Option J → Answer J
  in_process ping j = reachable true
  in_process _ none = raised
  in_process _ (some j) = body j

  -- A call of a node: the request that it sends, if any, its answer, and the node after.
  unfoldable pub call :
      Here
      → (Request → Reply J)
      → (Verb → Option J)
      → Verb
      → RemoteNode
      → Option Request × (Answer J × RemoteNode)
  unfolding is_self_loop request_of after_reply in_process
  call here send own verb node =
      if has_shortcut verb && is_self_loop here node
      then (none, (in_process verb (own verb), seen node))
      else (some (request_of node verb), after_reply verb (send (request_of node verb)) node)
