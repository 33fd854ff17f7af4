-- ===== src/State/Running.antt =====
-- llauncher/state.py: the running servers of the view, their refresh from the process table, and the
-- start and the stop of one. `int` of an argument, the start and the stop of a process are given.
pub mod Keyed
use llauncher.Base.{
  ℕ, zero, suc, Bool, true, false, Option, none, some, List, [], ◌∷◌, ◌++◌, String, nat_eq, ◌==◌,
  if◌then◌else◌,
}
use llauncher.Base.Text.{Text, codes, text_eq}
use llauncher.Base.Dict.{Dict, lookup, put, remove}
use llauncher.Records.{ModelConfig}
use llauncher.Host.{Argv, argv_gone, argv_denied, argv}
use llauncher.Core.Process.Ports.{Socket}
use llauncher.State.{ChangeRules, Verdict, is_valid, can_start, can_stop}

pub record RunningServer : Type 0 where
  pub pid : ℕ
  pub port : ℕ
  pub config_name : Text

pub data Action : Type 0 where
  start stop evict rollback : Action

pub data Outcome : Type 0 where
  success error validation_error : Outcome

pub record Recorded : Type 0 where
  pub action : Action
  pub model : Text
  pub caller : String
  pub result : Outcome

pub record LauncherState : Type 0 where
  pub models : Dict Text ModelConfig
  pub running : Dict ℕ RunningServer
  pub rules : ChangeRules
  pub audit : List Recorded

-- What is read from a command line. The last flag wins.
pub record Flags : Type 0 where
  pub port : Option ℕ
  pub model_path : Option Text
  pub alias : Option Text

with_port : Option ℕ → Flags → Option Flags
with_port none f = none
with_port (some port) f = some (record f { port = some port })

-- `none` is the ValueError of a port that is no number.
with_flag : (Text → Option ℕ) → Text → Text → Option Flags → Option Flags
unfolding with_port
with_flag to_int arg value none = none
with_flag to_int arg value (some f) =
    if arg == codes "--port"
    then with_port (to_int value) f
    else if arg == codes "-m"
    then some (record f { model_path = some value })
    else if arg == codes "--alias"
    then some (record f { alias = some value })
    else some f

unfoldable pub read_flags : (Text → Option ℕ) → List Text → Option Flags → Option Flags
unfolding with_flag
read_flags to_int [] f = f
read_flags to_int (arg ∷ []) f = f
read_flags to_int (arg ∷ value ∷ rest) f =
    read_flags to_int (value ∷ rest) (with_flag to_int arg value f)

find_in : Text → Dict Text ModelConfig → Option Text
find_in path [] = none
find_in path ((name, config) ∷ models) =
    let rest = find_in path models in if codes config.model_path == path then some name else rest

unfoldable pub find_model_by_path : Option Text → Dict Text ModelConfig → Option Text
unfolding find_in
find_model_by_path none models = none
find_model_by_path (some []) models = none
find_model_by_path (some (c ∷ path)) models = find_in (c ∷ path) models

-- `config_name or "unknown"`
or_unknown : Option Text → Text
or_unknown none = codes "unknown"
or_unknown (some []) = codes "unknown"
or_unknown (some (c ∷ name)) = c ∷ name

name_of : Flags → Option Text → Dict Text ModelConfig → Text
unfolding or_unknown find_model_by_path
name_of f none models = or_unknown (find_model_by_path f.model_path models)
name_of f (some []) models = or_unknown (find_model_by_path f.model_path models)
name_of f (some (c ∷ alias)) models = c ∷ alias

-- A process of the scan.
pub record Scanned : Type 0 where
  pub pid : ℕ
  pub cmdline : Argv

-- A port that is missing or 0 gives no entry.
with_server :
    Dict Text ModelConfig → ℕ → Flags → Option ℕ → Dict ℕ RunningServer → Dict ℕ RunningServer
unfolding name_of
with_server models pid f none running = running
with_server models pid f (some zero) running = running
with_server models pid f (some (suc n)) running =
    put (suc n) (record { pid = pid; port = suc n; config_name = name_of f f.alias models }) running

add_flags :
    Dict Text ModelConfig → ℕ → Option Flags → Dict ℕ RunningServer → Option (Dict ℕ RunningServer)
unfolding with_server
add_flags models pid none running = none
add_flags models pid (some f) running = some (with_server models pid f f.port running)

abbrev no_flags : Flags
no_flags = record { port = none; model_path = none; alias = none }

add_process :
    (Text → Option ℕ)
    → Dict Text ModelConfig
    → ℕ
    → Argv
    → Dict ℕ RunningServer
    → Option (Dict ℕ RunningServer)
unfolding read_flags add_flags
add_process to_int models pid argv_gone running = some running
add_process to_int models pid argv_denied running = some running
add_process to_int models pid (argv cmdline) running =
    add_flags models pid (read_flags to_int cmdline (some no_flags)) running

scan_from :
    (Text → Option ℕ)
    → Dict Text ModelConfig
    → List Scanned
    → Option (Dict ℕ RunningServer)
    → Option (Dict ℕ RunningServer)
unfolding add_process
scan_from to_int models procs none = none
scan_from to_int models [] (some running) = some running
scan_from to_int models (proc ∷ procs) (some running) =
    scan_from to_int models procs (add_process to_int models proc.pid proc.cmdline running)

refreshed : LauncherState → Option (Dict ℕ RunningServer) → Bool × LauncherState
refreshed s none = (false, s)
refreshed s (some running) = (true, record s { running = running })

-- Whether it returned, and the state after: an exception leaves `running` as it was.
unfoldable pub refresh_running_servers :
    (Text → Option ℕ) → List Scanned → LauncherState → Bool × LauncherState
unfolding scan_from refreshed
refresh_running_servers to_int procs s = refreshed s (scan_from to_int s.models procs (some []))

unfoldable pub record_action : Action → Text → String → Outcome → LauncherState → LauncherState
record_action action model caller result s = record s {
  audit =
      s.audit ++ record { action = action; model = model; caller = caller; result = result } ∷ [];
}

-- What a check and an operation meet: the sockets, and the processes.
pub record Surroundings : Type 0 where
  pub sockets : Option (List Socket)
  pub can_bind : ℕ → Bool
  pub path_exists : String → Bool
  pub launch : ModelConfig → ℕ → Option ℕ
  -- `none` is `AccessDenied`.
  pub stop_process : ℕ → Option Bool

launched : Text → ℕ → String → Option ℕ → LauncherState → Bool × LauncherState
unfolding record_action
launched name port caller none s = (false, record_action start name caller error s)
launched name port caller (some pid) s = (
  true,
  record_action start name caller success (record s {
    running = put port (record { pid = pid; port = port; config_name = name }) s.running;
  }),
)

start_model :
    Surroundings → Text → ℕ → String → Option ModelConfig → LauncherState → Bool × LauncherState
unfolding launched record_action can_start
start_model e name port caller none s = (false, record_action start name caller error s)
start_model e name port caller (some config) s =
    if is_valid (can_start s.running s.rules e.sockets e.can_bind e.path_exists config caller port)
    then launched name port caller (e.launch config port) s
    else (false, record_action start name caller validation_error s)

unfoldable pub start_server :
    Surroundings → Text → ℕ → String → LauncherState → Bool × LauncherState
unfolding start_model
start_server e name port caller s = start_model e name port caller (lookup name s.models) s

known_name : Option RunningServer → Text
known_name none = codes "unknown"
known_name (some server) = server.config_name

unfoldable pub stopped_with :
    Text → ℕ → String → Option Bool → LauncherState → Option Bool × LauncherState
unfolding record_action
stopped_with name port caller none s = (none, s)
stopped_with name port caller (some false) s =
    (some false, record_action stop (codes "unknown") caller error s)
stopped_with name port caller (some true) s = (
  some true,
  record_action stop name caller success (record s { running = remove port s.running }),
)

unfoldable pub stop_server : Surroundings → ℕ → String → LauncherState → Option Bool × LauncherState
unfolding record_action can_stop known_name stopped_with
stop_server e port caller s =
    let name = known_name (lookup port s.running) in
    if is_valid (can_stop s.running s.rules port caller)
    then stopped_with name port caller (e.stop_process port) s
    else (some false, record_action stop name caller validation_error s)
