-- ===== src/Tests/Pieces.antt =====
-- The cache, the log rotation, the background stop, the agent's token, the migration of the config,
-- the choice of a port and the orphans on concrete inputs.
use llauncher.Base.{
  contains, ◌⊎◌, ◌==◌, ◌-◌, leb, if◌then◌else◌, ◌≢◌, ◌↔◌, ℕ, Bool, true, false, Option, none, some,
  List, [], ◌∷◌, ◌++◌, String, string_eq, nat_eq, ◌≡◌, refl, arith,
}
use llauncher.Base.Dict.{Dict, has_key, lookup, put, remove}
use llauncher.Base.Text.{Text, codes, before, text_eq}
use llauncher.Host.{World, meet, apply_acts, attempt, ◌>>=◌}
use llauncher.Core.Config.Migration.{Fields, Raw, Migration, migrated, migrate_config_dict}
use llauncher.Core.Config.Migration.Settled.{migrate_config_dict-again}
use llauncher.Core.Config.Load.{Loaded, load_with_errors, rewrites, load_with_errors-rewrites}
use llauncher.Core.Process.Ports.{Socket, find_available_port}
use llauncher.Core.Process.Ports.Chosen.{is_usable, FirstUsable, find_available_port-FirstUsable}
use llauncher.State.{ChangeRules, valid, can_start}
use llauncher.State.Startable.{can_start-found_port}
use llauncher.Operations.Orphan.{OrphanInfo, Seen, observe_scan}
use llauncher.Operations.Orphan.Sighted.{entries_for, observe_scan-entries}
use llauncher.Util.Cache.{get}
use llauncher.Util.Cache.Reads.{Call, performed, empty_cache, get-performed}
use llauncher.Core.LogRotation.{Log, Slots, rotate_if_needed}
use llauncher.Core.LogRotation.Shifted.{rotate_if_needed-shifts}
use llauncher.Core.AgentToken.{
  token_key, persist_token, read_env_file_token, count_env_file_token_lines, parse_env_file,
}
use llauncher.Core.AgentToken.Stripped.{UrlSafe}
use llauncher.Core.AgentToken.Rewritten.{persist_token-read}
use llauncher.Operations.Stop.Background.{Worker, Phase}
use llauncher.Operations.Stop.Background.Consistent.{holding}
use llauncher.Operations.Stop.Background.Inflight.{
  Event, after_events, no_stops, after_events-exclusive, after_events-registered,
}
use llauncher.Operations.Stop.Background.Finished.{after_events-finished}
use llauncher.Tests.Machine.{model_a, calm, served_world, claim_a}

-- A value that was read after it had expired, and had been stored before that.
abbrev calls : List (Call String ℕ)
calls = Call.got 7 "gpu" ∷ Call.stored 1 "gpu" 40 none ∷ []

get-performed_example : (get 8 "gpu" (performed calls (empty_cache 5))).0 ≡ none
get-performed_example = get-performed 5 8 "gpu" calls (omega arith, (tt, tt))

abbrev works : ℕ → Bool
works n = true

works-true : (n : ℕ) → works n ≡ true
works-true n = refl

abbrev log_of : String → Log
log_of text = record { content = text; size = 20 }

abbrev slots : Slots
slots = (0, log_of "live") ∷ (1, log_of "one") ∷ (2, log_of "two") ∷ []

slots-live : lookup 0 slots ≡ some (log_of "live")
unfolding lookup
slots-live = refl

rotate_if_needed-shifts_example :
    (d : Slots) × (rotate_if_needed works 2 true 10 slots ≡ (true, d))
    × ((j : ℕ)
        → lookup j d
          ≡ (if j == 0 then none else if leb j 2 then lookup (j - 1) slots else lookup j slots))
rotate_if_needed-shifts_example =
    rotate_if_needed-shifts works works-true 2 10 slots (log_of "live") (omega arith) slots-live
      (omega arith)

-- A request for a stop, a second one, and the first step of the thread.
abbrev stop_events : List Event
stop_events =
    Event.asked 8080 "test" served_world
    ∷ Event.asked 8080 "again" served_world
    ∷ Event.moved 0 served_world
    ∷ []

abbrev worker_0 : Worker
worker_0 = record { port = 8080; existing = claim_a; caller = "test"; phase = Phase.reaping }

stop_events-run : lookup 0 (after_events calm stop_events no_stops).workers ≡ some worker_0
unfolding llauncher.Host.◌>>=◌ llauncher.Host.◌>>◌ llauncher.Host.attempt llauncher.Host.finally
    llauncher.Host.meet llauncher.Host.apply_acts llauncher.Base.Dict.lookup llauncher.Base.Dict.put
    llauncher.Base.Dict.remove llauncher.Base.Text.before llauncher.Base.Text.decimal
    llauncher.Base.Text.has_infix llauncher.Base.Text.lower llauncher.Base.Text.starts_with
    llauncher.Core.AuditLog.record_audit llauncher.Core.Config.load llauncher.Core.Config.get_model
    llauncher.Core.Lockfile.read_lockfile llauncher.Core.Lockfile.write_lockfile
    llauncher.Core.Lockfile.is_pid_alive llauncher.Core.Lockfile.reconcile_lockfile
    llauncher.Core.Lockfile.remove_lockfile llauncher.Core.Marker.take_marker
    llauncher.Core.Marker.is_cancelled llauncher.Core.Marker.read_marker
    llauncher.Core.Marker.release_marker llauncher.Core.Process.Stop.family
    llauncher.Core.Process.Stop.stop_seen llauncher.Core.Process.Stop.stop_server_by_pid
    llauncher.Core.Process.Stop.stop_server_by_port llauncher.Core.Process.Stop.stop_found
    llauncher.Core.Process.Scan.find_server_by_port llauncher.Base.Text.after_last
    llauncher.Base.Text.strip_suffix llauncher.Operations.Stop.stop
    llauncher.Operations.Stop.reconcile_for_stop llauncher.Operations.Stop.terminate
    llauncher.Operations.Stop.Background.stop_in_background
    llauncher.Operations.Stop.Background.register llauncher.Operations.Stop.Background.spawn_worker
    llauncher.Operations.Stop.Background.is_alive llauncher.Operations.Stop.Background.alive
    llauncher.Operations.Stop.Background.advance llauncher.Operations.Stop.Background.reap
stop_events-run = refl

after_events-exclusive_example : ◌≡◌ {A = ℕ} 0 0
after_events-exclusive_example =
    after_events-exclusive calm stop_events 0 0 worker_0 worker_0 stop_events-run stop_events-run
      refl refl refl

after_events-registered_example :
    (lookup 8080 (after_events calm stop_events no_stops).inflight ≡ some 0) ↔ (
      (worker : Worker) × (lookup 0 (after_events calm stop_events no_stops).workers ≡ some worker)
      × (worker.port ≡ 8080)
      × (holding worker.phase ≡ true))
after_events-registered_example = after_events-registered calm stop_events 8080 0

-- An agent.env whose token line was never filled in, and whose last line has no end.
abbrev template : Option Text
template = some (codes "LLAUNCHER_AGENT_TOKEN=\nPORT=8765")

abbrev drawn : Text
drawn = codes "x_Y-0"

drawn-UrlSafe : UrlSafe drawn
drawn-UrlSafe = (refl, refl)

persist_token-read_example :
    (read_env_file_token (some (persist_token drawn template)) ≡ some drawn)
    × (count_env_file_token_lines (some (persist_token drawn template)) ≡ 1)
    × ((k : Text)
        → k ≢ token_key
        → lookup k (parse_env_file (some (persist_token drawn template)))
          ≡ lookup k (parse_env_file template))
persist_token-read_example = persist_token-read drawn template drawn-UrlSafe

-- An entry from before the mirror fields were dropped.
abbrev old_entry : Fields
old_entry =
    ("name", Raw.text (codes "a"))
    ∷ ("extra_args", Raw.text (codes "--jinja -t 4"))
    ∷ ("threads", Raw.number false (codes "8"))
    ∷ ("top_k", Raw.number false (codes "40"))
    ∷ []

abbrev new_entry : Fields
new_entry =
    ("name", Raw.text (codes "a")) ∷ ("extra_args", Raw.text (codes "--jinja -t 4 --top-k 40")) ∷ []

old_entry-run : migrate_config_dict old_entry ≡ migrated new_entry true
unfolding llauncher.Base.Dict.lookup llauncher.Base.Dict.put llauncher.Base.Dict.remove
    llauncher.Base.Text.before llauncher.Core.Process.Command.split llauncher.Base.Lines.is_space
    llauncher.Base.Lines.lstrip llauncher.Base.Lines.rstrip llauncher.Base.Lines.strip
    llauncher.Core.Config.Migration.should_emit llauncher.Core.Config.Migration.quote
    llauncher.Core.Config.Migration.format_flag_token llauncher.Core.Config.Migration.heads_present
    llauncher.Core.Config.Migration.tokens_of llauncher.Core.Config.Migration.appended
    llauncher.Core.Config.Migration.without_dropped
    llauncher.Core.Config.Migration.migrate_config_dict
old_entry-run = refl

migrate_config_dict-again_example : migrate_config_dict new_entry ≡ migrated new_entry false
migrate_config_dict-again_example = migrate_config_dict-again old_entry new_entry true old_entry-run

-- A check that accepts every entry.
abbrev accepts : Fields → Option Bool
accepts fields = some true

abbrev entries_read : Loaded Bool
entries_read = record { models = ("a", true) ∷ []; errors = []; any_dirty = true }

load-run : load_with_errors accepts (("a", some old_entry) ∷ []) ≡ some entries_read
unfolding llauncher.Base.Dict.lookup llauncher.Base.Dict.put llauncher.Base.Dict.remove
    llauncher.Base.Text.before llauncher.Core.Process.Command.split llauncher.Base.Lines.is_space
    llauncher.Base.Lines.lstrip llauncher.Base.Lines.rstrip llauncher.Base.Lines.strip
    llauncher.Core.Config.Migration.should_emit llauncher.Core.Config.Migration.quote
    llauncher.Core.Config.Migration.format_flag_token llauncher.Core.Config.Migration.heads_present
    llauncher.Core.Config.Migration.tokens_of llauncher.Core.Config.Migration.appended
    llauncher.Core.Config.Migration.without_dropped
    llauncher.Core.Config.Migration.migrate_config_dict
    llauncher.Core.Config.Load.from_dict_unvalidated llauncher.Core.Config.Load.load_entries
    llauncher.Core.Config.Load.load_with_errors
load-run = refl

rewrites-run : rewrites accepts entries_read ≡ true
unfolding rewrites
rewrites-run = refl

load_with_errors-rewrites_example : has_key "a" entries_read.models ≡ true
load_with_errors-rewrites_example =
    load_with_errors-rewrites accepts (("a", some old_entry) ∷ []) entries_read load-run
      rewrites-run "a" refl

-- Ports 8080 and 8081 are taken, and 8082 is forbidden.
abbrev taken : Option (List Socket)
taken = some (
    record { listens = true; local_port = some 8080 }
    ∷ record { listens = true; local_port = some 8081 }
    ∷ record { listens = false; local_port = some 8083 }
    ∷ [])

find_available_port-run :
    find_available_port taken works (8082 ∷ []) 8080 (some 8080) none 8999 ≡ (true, 8083)
unfolding llauncher.Core.Process.Ports.listening_ports llauncher.Core.Process.Ports.is_port_in_use
    llauncher.Core.Process.Ports.scan_ports llauncher.Core.Process.Ports.find_available_port
    llauncher.Core.Process.Ports.bind_probe_port_in_use
find_available_port-run = refl

find_available_port-FirstUsable_example :
    ((p : ℕ) × (some 8080 ≡ some p)
      × (is_usable taken works (8082 ∷ []) p ≡ true)
      × (find_available_port taken works (8082 ∷ []) 8080 (some 8080) none 8999 ≡ (true, p)))
    ⊎ (((p : ℕ) → some 8080 ≡ some p → is_usable taken works (8082 ∷ []) p ≡ false)
        × FirstUsable taken works
            (8082 ∷ [])
            8080
            9000
            (find_available_port taken works (8082 ∷ []) 8080 (some 8080) none 8999))
find_available_port-FirstUsable_example =
    find_available_port-FirstUsable taken works (8082 ∷ []) 8080 (some 8080) none 8999

abbrev open_rules : ChangeRules
open_rules = record {
  whitelisted_models = [];
  blacklisted_ports = 8082 ∷ [];
  blacklisted_callers = "guest" ∷ [];
}

abbrev there : String → Bool
there path = true

abbrev one_server : Dict ℕ Bool
one_server = (8080, true) ∷ []

no_server_known : has_key 8083 one_server ≡ false
unfolding lookup
no_server_known = refl

can_start-found_port_example :
    can_start one_server open_rules taken works there model_a "cli" 8083 ≡ valid
can_start-found_port_example =
    can_start-found_port one_server open_rules taken works there model_a "cli" 8080 (some 8080) none
      8999 8083 find_available_port-run no_server_known refl refl refl

-- An orphan that was recorded before, a new one, and one whose command line cannot be read.
abbrev seen_one : Seen
seen_one = record { observed = 41 ∷ 40 ∷ []; warned = [] }

abbrev orphan_of : ℕ → Bool → OrphanInfo
orphan_of pid unreadable = record { pid = pid; port = none; cmdline_unreadable = unreadable }

abbrev scanned : List OrphanInfo
scanned = orphan_of 41 false ∷ orphan_of 42 false ∷ orphan_of 43 true ∷ []

observe_scan-entries_example :
    (entries_for 42 (observe_scan scanned seen_one).0 ≡ 1)
    × (contains 42 (observe_scan scanned seen_one).1.observed ≡ true)
observe_scan-entries_example = observe_scan-entries 42 scanned seen_one

-- The thread of the stop above does its last two steps.
abbrev last_steps : List Event
last_steps = Event.moved 0 served_world ∷ Event.moved 0 served_world ∷ []

after_events-finished_example :
    lookup 8080 (after_events calm last_steps (after_events calm stop_events no_stops)).inflight
    ≢ some 0
after_events-finished_example =
    after_events-finished calm stop_events last_steps 8080 0
      ((after_events-registered calm stop_events 8080 0).1 (worker_0, stop_events-run, refl, refl))
      (omega arith)
