-- ===== src/State/Eviction.antt =====
-- llauncher/state.py, `_start_with_eviction_impl`: the start of a model on a port that may be taken,
-- with the stop of the old server and the way back. What stands in an error text is left out.
pub mod Coherent
use llauncher.Base.{
  ℕ, Bool, true, false, not, ◌&&◌, ◌||◌, Option, none, some, List, [], ◌∷◌, String, nat_eq, ◌==◌,
  ltb, if◌then◌else◌,
}
use llauncher.Base.Text.{Text, text_eq}
use llauncher.Base.Dict.{Dict, lookup, put, remove, has_key}
use llauncher.Records.{ModelConfig}
use llauncher.State.Running.{
  RunningServer, LauncherState, Action, start, evict, rollback, success, error, Surroundings,
  Scanned, refresh_running_servers, record_action, stop_server,
}

pub data PortState : Type 0 where
  unchanged restored serving unavailable : PortState

pub record EvictionResult : Type 0 where
  pub success : Bool
  pub port_state : PortState
  pub rolled_back : Bool
  pub restored_model : Text
  pub previous_model : Text
  pub new_model_attempted : Text

-- The call, with what it meets: `ready` is the readiness poll, `none` if it raises; `ends` is whether
-- `stop_server_by_pid` of the new process returns, in the `try` block and again in its handler, or
-- raises `AccessDenied`; and `procs` is the scan of the last refresh.
pub record EvictionCall : Type 0 where
  pub model_name : Text
  pub port : ℕ
  pub caller : String
  pub strict_rollback : Bool
  pub around : Surroundings
  pub ready : Option Bool
  pub ends : Bool → Bool
  pub procs : List Scanned
  pub to_int : Text → Option ℕ

abbrev pub Outcome : Type 0
Outcome = Option EvictionResult × LauncherState

abbrev failed : PortState → Text → Text → EvictionResult
failed port_state previous attempted = record {
  success = false;
  port_state = port_state;
  rolled_back = false;
  restored_model = [];
  previous_model = previous;
  new_model_attempted = attempted;
}

abbrev pub server_of : ℕ → ℕ → Text → RunningServer
server_of pid port name = record { pid = pid; port = port; config_name = name }

abbrev pub with_running : Dict ℕ RunningServer → LauncherState → LauncherState
with_running running s = record s { running = running }

module _ (call : EvictionCall) where
  abbrev noted : Action → Bool → LauncherState → LauncherState
  unfolding record_action
  noted action good s =
      record_action action call.model_name call.caller (if good then success else error) s

  restored_to : Text → Text → Option ℕ → LauncherState → Outcome
  unfolding record_action
  restored_to previous attempted none s =
      (some (failed unavailable previous attempted), with_running (remove call.port s.running) s)
  restored_to previous attempted (some pid) s = (
    some (record (failed restored previous []) { rolled_back = true; restored_model = previous }),
    record_action rollback previous call.caller success
        (with_running (put call.port (server_of pid call.port previous) s.running) s),
  )

  relaunch : Text → Text → Option ModelConfig → LauncherState → Outcome
  unfolding restored_to
  relaunch previous attempted none s = (some (failed unavailable previous call.model_name), s)
  relaunch previous attempted (some old) s =
      restored_to previous attempted (call.around.launch old call.port) s

  -- The way back, which only a strict call with a known old model takes.
  unfoldable pub roll_back : Text → Text → LauncherState → Outcome
  unfolding relaunch
  roll_back [] attempted s = (some (failed unavailable [] call.model_name), s)
  roll_back (c ∷ previous) attempted s =
      if call.strict_rollback
      then relaunch (c ∷ previous) attempted (lookup (c ∷ previous) s.models) s
      else (some (failed unavailable (c ∷ previous) call.model_name), s)

  served : Text → Bool × LauncherState → Outcome
  served previous (false, s) = (none, s)
  served previous (true, s) =
      (some (record (failed serving previous call.model_name) { success = true }), s)

  torn_down : Text → LauncherState → Outcome
  unfolding roll_back
  torn_down previous s =
      roll_back previous call.model_name (with_running (remove call.port s.running) s)

  -- `except Exception`, of the poll and of the stop in its block.
  poll_failed : Text → LauncherState → Outcome
  unfolding torn_down
  poll_failed previous s = if call.ends true then torn_down previous s else (none, s)

  after_poll : Text → Option Bool → LauncherState → Outcome
  unfolding torn_down poll_failed served refresh_running_servers
  after_poll previous (some true) s =
      served previous (refresh_running_servers call.to_int call.procs s)
  after_poll previous (some false) s =
      if call.ends false then torn_down previous s else poll_failed previous s
  after_poll previous none s = poll_failed previous s

  after_launch : Text → Option ℕ → LauncherState → Outcome
  unfolding roll_back after_poll noted
  after_launch previous none s = roll_back previous [] (noted start false s)
  after_launch previous (some pid) s = after_poll previous call.ready (
      noted start true
        (with_running (put call.port (server_of pid call.port call.model_name) s.running) s))

  after_stop : Text → ModelConfig → Option Bool × LauncherState → Outcome
  unfolding after_launch noted
  after_stop previous config (none, s) = (none, s)
  after_stop previous config (some false, s) =
      (some (failed unchanged previous []), noted evict false s)
  after_stop previous config (some true, s) =
      after_launch previous (call.around.launch config call.port) (noted evict true s)

  stop_old : ModelConfig → Option RunningServer → LauncherState → Outcome
  unfolding after_stop after_launch stop_server
  stop_old config none s = after_launch [] (call.around.launch config call.port) s
  stop_old config (some server) s =
      after_stop server.config_name config (stop_server call.around call.port call.caller s)

  abbrev name_on : Option RunningServer → Text
  name_on none = []
  name_on (some server) = server.config_name

  abbrev lost : Option ModelConfig → Bool
  lost none = true
  lost (some old) = not (call.around.path_exists old.model_path)

  -- Whether a strict call could not go back.
  abbrev no_way_back : Text → LauncherState → Bool
  no_way_back [] s = false
  no_way_back (c ∷ previous) s = call.strict_rollback && lost (lookup (c ∷ previous) s.models)

  abbrev elsewhere : Dict ℕ RunningServer → Bool
  elsewhere [] = false
  elsewhere ((port, server) ∷ running) =
      (server.config_name == call.model_name && not (port == call.port)) || elsewhere running

  evict_for : Option ModelConfig → LauncherState → Outcome
  unfolding stop_old noted
  evict_for none s = (some (failed unchanged [] []), noted start false s)
  evict_for (some config) s =
      let old = lookup call.port s.running in
      if elsewhere s.running
      then (some (failed unchanged [] []), s)
      else if no_way_back (name_on old) s
      then (some (failed unchanged (name_on old) []), noted evict false s)
      else if ltb call.port 1024 || ltb 65535 call.port
      then (some (failed unchanged [] []), noted start false s)
      else stop_old config old s

  unfoldable pub start_with_eviction_impl : LauncherState → Outcome
  unfolding evict_for
  start_with_eviction_impl s = evict_for (lookup call.model_name s.models) s
