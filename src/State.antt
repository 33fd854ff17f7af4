-- ===== src/State.antt =====
-- llauncher/state.py, `can_start` and `can_stop`, and `ChangeRules` of llauncher/models/config.py. A
-- message is the reason that it gives.
pub mod Startable
pub mod Running
pub mod Eviction
use llauncher.Base.{
  ℕ, Bool, true, false, not, ◌&&◌, ◌||◌, Option, none, some, List, [], ◌∷◌, String, contains,
  nat_eq, string_eq, if◌then◌else◌,
}
use llauncher.Base.Dict.{Dict, has_key}
use llauncher.Records.{ModelConfig}
use llauncher.Core.Process.Ports.{Socket, is_port_in_use}

pub record ChangeRules : Type 0 where
  pub whitelisted_models : List String
  pub blacklisted_ports : List ℕ
  pub blacklisted_callers : List String

pub data Verdict : Type 0 where
  valid port_blacklisted caller_blacklisted not_whitelisted : Verdict
  port_running port_in_use no_model_file no_server : Verdict

abbrev pub is_valid : Verdict → Bool
is_valid valid = true
is_valid _ = false

-- `self.whitelisted_models and config.name not in self.whitelisted_models`
abbrev is_excluded : String → List String → Bool
is_excluded name [] = false
is_excluded name (model ∷ models) = not (contains name (model ∷ models))

unfoldable pub validate_start : ChangeRules → ModelConfig → String → ℕ → Verdict
validate_start rules config caller port =
    if contains port rules.blacklisted_ports
    then port_blacklisted
    else if contains caller rules.blacklisted_callers
    then caller_blacklisted
    else if is_excluded config.name rules.whitelisted_models
    then not_whitelisted
    else valid

unfoldable pub validate_stop : ChangeRules → ℕ → String → Verdict
validate_stop rules port caller =
    if contains caller rules.blacklisted_callers then caller_blacklisted else valid

-- `running` has an entry for each port that a refresh has found a server on.
module _ {Server : Type 0} (running : Dict ℕ Server) (rules : ChangeRules) where
  abbrev rules_first : Verdict → Verdict → Verdict
  rules_first valid next = next
  rules_first refused next = refused

  unfoldable pub can_start :
      Option (List Socket) → (ℕ → Bool) → (String → Bool) → ModelConfig → String → ℕ → Verdict
  unfolding validate_start
  can_start sockets can_bind exists config caller port =
      if has_key port running
      then port_running
      else if is_port_in_use sockets can_bind port
      then port_in_use
      else rules_first (validate_start rules config caller port)
          (if not (exists config.model_path) then no_model_file else valid)

  unfoldable pub can_stop : ℕ → String → Verdict
  unfolding validate_stop
  can_stop port caller =
      if not (has_key port running) then no_server else validate_stop rules port caller
