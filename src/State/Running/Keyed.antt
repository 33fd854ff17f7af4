-- ===== src/State/Running/Keyed.antt =====
-- What every state of the view keeps.
use mathlib.Core.Path.{subst}
use llauncher.Base.{
  Bool, ℕ, zero, suc, ◌≡◌, refl, sym, ap, ◌∙◌, Option, none, some, List, [], ◌∷◌, String, nat_eq,
  inl, inr, Bool-cases, arith, true, false,
}
use llauncher.Base.Text.{Text, text_eq}
use llauncher.Base.Dict.{Dict, lookup, put, remove, put-cases, remove-some}
use llauncher.Records.{ModelConfig}
use llauncher.Host.{Argv, argv_gone, argv_denied, argv}
use llauncher.State.{can_start, can_stop, is_valid}
use llauncher.State.Running.{
  RunningServer, LauncherState, Flags, Scanned, Surroundings, with_server, add_flags, add_process,
  scan_from, refreshed, refresh_running_servers, record_action, launched, start_model, start_server,
  stop_server, stopped_with, read_flags, name_of, no_flags,
}

-- Every server stands under its own port.
abbrev pub IsKeyed : Dict ℕ RunningServer → Type 0
IsKeyed running =
    (port : ℕ) (server : RunningServer) → lookup port running ≡ some server → server.port ≡ port

put-IsKeyed :
    (port : ℕ) (server : RunningServer) (running : Dict ℕ RunningServer)
    → server.port ≡ port
    → IsKeyed running
    → IsKeyed (put port server running)
put-IsKeyed port server running same h = λ p other found.
    elim (put-cases port p server other running found) [
      | inl (here, new) ↦ ap (λ s. s.port) (sym new) ∙ same ∙ here
      | inr (apart, old) ↦ h p other old
    ]

remove-IsKeyed :
    (port : ℕ) (running : Dict ℕ RunningServer) → IsKeyed running → IsKeyed (remove port running)
remove-IsKeyed port running h =
    λ p server found. h p server (remove-some port p server running found).1

empty-IsKeyed : IsKeyed []
unfolding lookup
empty-IsKeyed = λ p server found. ground (arith, found)

abbrev IsKeyedIf : Option (Dict ℕ RunningServer) → Type 0
IsKeyedIf none = Unit
IsKeyedIf (some running) = IsKeyed running

with_server-IsKeyed :
    (models : Dict Text ModelConfig) (pid : ℕ) (f : Flags) (o : Option ℕ)
    (running : Dict ℕ RunningServer)
    → IsKeyed running
    → IsKeyed (with_server models pid f o running)
unfolding with_server
with_server-IsKeyed models pid f none running h = h
with_server-IsKeyed models pid f (some zero) running h = h
with_server-IsKeyed models pid f (some (suc n)) running h =
    put-IsKeyed (suc n) (record { pid = pid; port = suc n; config_name = name_of f f.alias models })
      running refl h

add_flags-IsKeyed :
    (models : Dict Text ModelConfig) (pid : ℕ) (o : Option Flags) (running : Dict ℕ RunningServer)
    → IsKeyed running
    → IsKeyedIf (add_flags models pid o running)
unfolding add_flags
add_flags-IsKeyed models pid none running h = tt
add_flags-IsKeyed models pid (some f) running h = with_server-IsKeyed models pid f f.port running h

add_process-IsKeyed :
    (to_int : Text → Option ℕ) (models : Dict Text ModelConfig) (pid : ℕ) (cmdline : Argv)
    (running : Dict ℕ RunningServer)
    → IsKeyed running
    → IsKeyedIf (add_process to_int models pid cmdline running)
unfolding add_process
add_process-IsKeyed to_int models pid argv_gone running h = h
add_process-IsKeyed to_int models pid argv_denied running h = h
add_process-IsKeyed to_int models pid (argv cmdline) running h =
    add_flags-IsKeyed models pid (read_flags to_int cmdline (some no_flags)) running h

scan_from-IsKeyed :
    (to_int : Text → Option ℕ) (models : Dict Text ModelConfig) (procs : List Scanned)
    (o : Option (Dict ℕ RunningServer))
    → IsKeyedIf o
    → IsKeyedIf (scan_from to_int models procs o)
unfolding scan_from
scan_from-IsKeyed to_int models procs none h = tt
scan_from-IsKeyed to_int models [] (some running) h = h
scan_from-IsKeyed to_int models (proc ∷ procs) (some running) h =
    scan_from-IsKeyed to_int models procs (add_process to_int models proc.pid proc.cmdline running)
      (add_process-IsKeyed to_int models proc.pid proc.cmdline running h)

refreshed-IsKeyed :
    (s : LauncherState) (o : Option (Dict ℕ RunningServer))
    → IsKeyedIf o
    → IsKeyed s.running
    → IsKeyed (refreshed s o).1.running
unfolding refreshed
refreshed-IsKeyed s none h k = k
refreshed-IsKeyed s (some running) h k = h

launched-IsKeyed :
    (name : Text) (port : ℕ) (caller : String) (o : Option ℕ) (s : LauncherState)
    → IsKeyed s.running
    → IsKeyed (launched name port caller o s).1.running
unfolding launched record_action
launched-IsKeyed name port caller none s h = h
launched-IsKeyed name port caller (some pid) s h =
    put-IsKeyed port (record { pid = pid; port = port; config_name = name }) s.running refl h

start_model-IsKeyed :
    (e : Surroundings) (name : Text) (port : ℕ) (caller : String) (o : Option ModelConfig)
    (s : LauncherState)
    → IsKeyed s.running
    → IsKeyed (start_model e name port caller o s).1.running
unfolding start_model record_action
start_model-IsKeyed e name port caller none s h = h
start_model-IsKeyed e name port caller (some config) s h =
    elim (Bool-cases (
      is_valid
        (can_start s.running s.rules e.sockets e.can_bind e.path_exists config caller port))) [
          | inl b ↦ rw b (launched-IsKeyed name port caller (e.launch config port) s h)
          | inr b ↦ rw b h
        ]

stopped_with-IsKeyed :
    (name : Text) (port : ℕ) (caller : String) (o : Option Bool) (s : LauncherState)
    → IsKeyed s.running
    → IsKeyed (stopped_with name port caller o s).1.running
unfolding stopped_with record_action
stopped_with-IsKeyed name port caller none s h = h
stopped_with-IsKeyed name port caller (some false) s h = h
stopped_with-IsKeyed name port caller (some true) s h = remove-IsKeyed port s.running h

stop_server-IsKeyed :
    (e : Surroundings) (port : ℕ) (caller : String) (s : LauncherState)
    → IsKeyed s.running
    → IsKeyed (stop_server e port caller s).1.running
unfolding stop_server record_action
stop_server-IsKeyed e port caller s h =
    elim (Bool-cases (is_valid (can_stop s.running s.rules port caller))) [
      | inl b ↦ rw b (stopped_with-IsKeyed _ port caller (e.stop_process port) s h)
      | inr b ↦ rw b h
    ]

-- What is done to a view.
pub data Step : Type 0 where
  refreshes : (Text → Option ℕ) → List Scanned → Step
  starts : Surroundings → Text → ℕ → String → Step
  stops : Surroundings → ℕ → String → Step

abbrev pub take : Step → LauncherState → LauncherState
take (refreshes to_int procs) s = (refresh_running_servers to_int procs s).1
take (starts e name port caller) s = (start_server e name port caller s).1
take (stops e port caller) s = (stop_server e port caller s).1

abbrev pub after : List Step → LauncherState → LauncherState
after [] s = s
after (step ∷ steps) s = after steps (take step s)

take-IsKeyed : (step : Step) (s : LauncherState) → IsKeyed s.running → IsKeyed (take step s).running
unfolding refresh_running_servers start_server
take-IsKeyed (refreshes to_int procs) s h =
    refreshed-IsKeyed s (scan_from to_int s.models procs (some []))
      (scan_from-IsKeyed to_int s.models procs (some []) empty-IsKeyed) h
take-IsKeyed (starts e name port caller) s h =
    start_model-IsKeyed e name port caller (lookup name s.models) s h
take-IsKeyed (stops e port caller) s h = stop_server-IsKeyed e port caller s h

after-IsKeyed :
    (steps : List Step) (s : LauncherState) → IsKeyed s.running → IsKeyed (after steps s).running
after-IsKeyed [] s h = h
after-IsKeyed (step ∷ steps) s h = after-IsKeyed steps (take step s) (take-IsKeyed step s h)

-- Whatever a view goes through from an empty list of servers on, refreshes of any scan, starts and
-- stops, also those that fail, every server that it lists stands under its own port.
pub after-Keyed :
    (steps : List Step) (s : LauncherState) (port : ℕ) (server : RunningServer)
    → s.running ≡ []
    → lookup port (after steps s).running ≡ some server
    → server.port ≡ port
after-Keyed steps s port server fresh found =
    after-IsKeyed steps s (subst IsKeyed (sym fresh) empty-IsKeyed) port server found

-- A refresh that raises leaves the view as it was.
abbrev pub RefreshSays : LauncherState → Bool × LauncherState → Type 0
RefreshSays s (true, t) = Unit
RefreshSays s (false, t) = t ≡ s

refreshed-says :
    (s : LauncherState) (o : Option (Dict ℕ RunningServer)) → RefreshSays s (refreshed s o)
unfolding refreshed
refreshed-says s none = refl
refreshed-says s (some running) = tt

pub refresh_running_servers-says :
    (to_int : Text → Option ℕ) (procs : List Scanned) (s : LauncherState)
    → RefreshSays s (refresh_running_servers to_int procs s)
unfolding refresh_running_servers
refresh_running_servers-says to_int procs s =
    refreshed-says s (scan_from to_int s.models procs (some []))
