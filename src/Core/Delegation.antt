-- ===== src/Core/Delegation.antt =====
-- llauncher/core/delegation.py: whether a front-end sends a verb to the local agent. The environment
-- and the reply of the agent are arguments.
use llauncher.Base.{
  ℕ, Bool, true, false, Option, none, some, List, [], ◌∷◌, contains, nat_eq, ◌==◌, if◌then◌else◌,
}
use llauncher.Base.Text.{Text, codes, text_eq, lower}
use llauncher.Base.Lines.{strip}

abbrev truthy : List Text
truthy = codes "1" ∷ codes "true" ∷ codes "yes" ∷ codes "on" ∷ []

abbrev falsy : List Text
falsy = codes "0" ∷ codes "false" ∷ codes "no" ∷ codes "off" ∷ []

unfoldable pub env_flag : Option Text → Option Bool
unfolding strip lower
env_flag none = none
env_flag (some value) =
    let normalized = lower (strip value) in
    if contains normalized truthy
    then some true
    else if contains normalized falsy
    then some false
    else none

abbrev is_true : Option Bool → Bool
is_true (some true) = true
is_true _ = false

-- `LLAUNCHER_IS_AGENT_PROCESS` and `LLAUNCHER_DELEGATE_TO_LOCAL_AGENT`
pub record Environment : Type 0 where
  pub agent_process : Option Text
  pub delegate_override : Option Text

unfoldable pub is_agent_process : Environment → Bool
unfolding env_flag
is_agent_process env = is_true (env_flag env.agent_process)

-- `none` is a request that failed.
unfoldable pub local_agent_healthy : Option ℕ → Bool
local_agent_healthy none = false
local_agent_healthy (some status) = status == 200

unfoldable pub should_delegate : Environment → Option ℕ → Bool
unfolding is_agent_process env_flag local_agent_healthy
should_delegate env reply =
    if is_agent_process env then false else elim (env_flag env.delegate_override) [
      | none ↦ local_agent_healthy reply
      | some choice ↦ choice
    ]
