-- ===== src/Remote/Node/Honest.antt =====
-- What a call says of the node, and what it leaves of it.
use llauncher.Base.{
  Bool, ℕ, true, false, ◌&&◌, ◌||◌, Option, none, some, ◌==◌, nat_eq, ◌≡◌, if◌then◌else◌,
}
use llauncher.Remote.Node.{
  RemoteNode, NodeStatus, offline, error, Verb, ping, stop_server, Reply, no_reply, reply, Detail,
  Answer, reachable, body, seen, marked,
}

-- What comes back, given whether the call stays in the process: `none` if it does.
abbrev pub came : {J : Type 0} → Bool → Reply J → Option (Reply J)
came inside r = if inside then none else some r

abbrev pub is_ping : Verb → Bool
is_ping ping = true
is_ping _ = false

abbrev pub is_stop : Verb → Bool
is_stop (stop_server port) = true
is_stop _ = false

-- The statuses of a success: 200, and 202 for a stop.
abbrev pub is_success : Verb → ℕ → Bool
is_success verb status = status == 200 || (is_stop verb && status == 202)

abbrev pub is_there : {J : Type 0} → Option J → Bool
is_there none = false
is_there (some j) = true

-- The caller gets a yes, or the body of a success.
abbrev pub is_given : {J : Type 0} → Answer J → Bool
is_given (reachable b) = b
is_given (body j) = true
is_given _ = false

-- The node after a call and its answer, given the verb and what came back. `own` is what the verb
-- gives inside the process.
module _ {J : Type 0} (detail_of : J → Detail J) (now : ℕ) (before : RemoteNode) where
  abbrev pub was_seen : RemoteNode
  was_seen = seen detail_of now before

  abbrev pub as_marked : NodeStatus → RemoteNode
  as_marked status = marked detail_of now status before

  abbrev pub IsHonest : Option J → Verb → Option (Reply J) → Answer J × RemoteNode → Type 0
  IsHonest own verb none (answer, after) =
      (after ≡ was_seen) × (is_given answer ≡ (is_ping verb || is_there own))
  IsHonest own verb (some no_reply) (answer, after) =
      (after ≡ as_marked offline) × (is_given answer ≡ false)
  IsHonest own verb (some (reply status json)) (answer, after) =
      (after ≡ (
        if is_success verb status
        then was_seen
        else if is_ping verb
        then as_marked error
        else before))
      × (is_given answer ≡ (is_success verb status && (is_ping verb || is_there json)))
