-- ===== src/Operations/Swap/Types.antt =====
-- llauncher/operations/swap.py: the arguments and the result of the verb `swap`.
use llauncher.Base.{ℕ, Bool, false, Option, none, List, [], String}
use llauncher.Base.Text.{Text}
use llauncher.Operations.Preflight.{PreflightCheck}

pub data SwapAction : Type 0 where
  swapped already_running rolled_back failed rejected_preflight rejected_stop_failed : SwapAction
  rejected_in_progress rejected_empty cancelled : SwapAction

pub data PortState : Type 0 where
  serving restored unchanged unavailable : PortState

pub record SwapResult : Type 0 where
  pub success : Bool
  pub action : SwapAction
  pub port_state : PortState
  pub port : ℕ
  pub model : Option String
  pub previous_model : Option String
  pub pid : Option ℕ
  pub startup_logs : List Text
  pub cancel_ignored_post_commit : Bool
  pub ctx_size : Option ℕ
  pub parallel : Option ℕ

-- A result with every optional field but the two models at its default.
abbrev pub outcome : Bool → SwapAction → PortState → ℕ → Option String → Option String → SwapResult
outcome success action port_state port model previous_model = record {
  success = success;
  action = action;
  port_state = port_state;
  port = port;
  model = model;
  previous_model = previous_model;
  pid = none;
  startup_logs = [];
  cancel_ignored_post_commit = false;
  ctx_size = none;
  parallel = none;
}

-- The arguments of `swap`. Both checks are given, as in the source.
pub record SwapCall : Type 0 where
  pub model_name : String
  pub port : ℕ
  pub caller : String
  pub readiness_timeout : ℕ
  pub model_health_check : Option PreflightCheck
  pub vram_check : Option PreflightCheck
