-- ===== src/Tests/Edge.antt =====
-- The guards of the agent, its footer cache, the settings, the probes and the validation on concrete
-- inputs.
use llauncher.Base.{
  ℕ, ◌≤◌, ◌≡◌, ◌≢◌, ◌↔◌, ◌⊎◌, ◌&&◌, ◌||◌, refl, Bool, true, false, Option, none, some, List, [],
  ◌∷◌, any, contains, arith, String, nat_eq,
}
use llauncher.Base.Text.{Text, codes, text_eq}
use llauncher.Base.Dict.{lookup}
use llauncher.Host.{Sight}
use llauncher.Agent.Middleware.{
  App, returns, receives, sends, response_start, Received, request, dispatch, passed,
  auth_exempt_paths, is_ascii, declared_over, call, bare,
}
use llauncher.Agent.Middleware.Authenticated.{dispatch-passed}
use llauncher.Agent.Middleware.Limited.{bytes_handed, call-bounds, call-bare}
use llauncher.Agent.FooterCache.{Store, Cache, get_footer_context}
use llauncher.Agent.FooterCache.Recent.{
  Reached, start, called, IsRecent, get_footer_context-IsRecent,
}
use llauncher.Core.Settings.{parse_blacklisted_ports, ports, split}
use llauncher.Core.Settings.Blacklisted.{
  numbers_of, first_bad, all_in_range, parse_blacklisted_ports-first_bad,
}
use llauncher.Core.Gpu.{GpuDevice, Devices, attach_rows}
use llauncher.Core.Gpu.Attributed.{Distinct, with_processes, processes_of, attach_rows-attributed}
use llauncher.Core.ModelHealth.{Disk, HealthCache}
use llauncher.Core.ModelHealth.Examined.{usable}
use llauncher.Operations.Validate.{
  Scene, ModelValidation, ValidationVerdict, weights, gguf_magic, validate_one, status_of,
}
use llauncher.Operations.Validate.Gated.{genuine, is_healthy, validate_one-ok}
use llauncher.Host.{Row, argv, argv_denied}
use llauncher.Core.Process.Roster.{discover_all}
use llauncher.Core.Process.Roster.Agreed.{verified, discover_all-verified}
use llauncher.Tests.Machine.{model_a, claim_a, server_row}

dispatch-passed_example :
    (dispatch (codes "key") (codes "/status") (some (codes "key")) ≡ passed) ↔ (
      (contains (codes "/status") auth_exempt_paths ≡ true)
      ⊎ ((some (codes "key") ≡ some (codes "key")) × (is_ascii (codes "key") ≡ true)))
dispatch-passed_example = dispatch-passed (codes "key") (codes "/status") (some (codes "key"))

-- An application that reads twice and answers, and a body in two pieces.
abbrev reader : App
reader = receives λ m. receives λ n. sends (response_start 200) returns

abbrev pieces : List Received
pieces = request 6 ∷ request 6 ∷ []

abbrev no_number : Text → Option ℕ
no_number s = none

call-bounds_example : bytes_handed (call 10 no_number [] reader pieces) ≤ 10
call-bounds_example = call-bounds 10 no_number [] reader pieces

nothing_declared : declared_over 20 no_number [] ≡ false
unfolding declared_over
nothing_declared = refl

call-bare_example : call 20 no_number [] reader pieces ≡ bare reader pieces
call-bare_example = call-bare 20 no_number [] reader pieces nothing_declared (omega arith)

-- A store whose port 8080 is claimed by a model of the config.
abbrev store : ℕ → Store
store t = record { read_lockfile = λ port. some claim_a; get_model = λ name. some model_a }

abbrev kept : Cache
kept = (get_footer_context store 5 0 1 2 8080 []).1

kept-Reached : Reached store 5 2 kept
kept-Reached = called 0 0 1 2 8080 [] start (omega arith) (omega arith) (omega arith)

get_footer_context-IsRecent_example :
    IsRecent store 5 4 4 4 8080 (get_footer_context store 5 4 4 4 8080 kept).0
get_footer_context-IsRecent_example =
    get_footer_context-IsRecent store 5 2 4 4 4 8080 kept kept-Reached (omega arith) (omega arith)
      (omega arith)

parse_blacklisted_ports-first_bad_example :
    (parse_blacklisted_ports (codes "8080, ,8O81")
      ≡ first_bad
          (split b',' (codes "8080, ,8O81"))
          (ports (numbers_of (split b',' (codes "8080, ,8O81")))))
    × (all_in_range (parse_blacklisted_ports (codes "8080, ,8O81")) ≡ true)
parse_blacklisted_ports-first_bad_example = parse_blacklisted_ports-first_bad (codes "8080, ,8O81")

abbrev card : ℕ → GpuDevice
card index = record {
  index = index;
  name = codes "card";
  total_vram_mb = 24564;
  used_vram_mb = 4200;
  free_vram_mb = 20364;
  processes = [];
}

abbrev cards : Devices
cards = (codes "GPU-1", card 0) ∷ (codes "GPU-2", card 1) ∷ []

abbrev rows : List (List Text)
rows =
    (codes "GPU-2" ∷ codes "41" ∷ codes "llama-server" ∷ codes "4200" ∷ [])
    ∷ (codes "GPU-2" ∷ codes "x" ∷ [])
    ∷ []

abbrev forty_one : Text → Option ℕ
forty_one s = some 41

cards-Distinct : Distinct cards
unfolding lookup
cards-Distinct = (refl, (refl, tt))

attach_rows-attributed_example :
    lookup (codes "GPU-2") (attach_rows forty_one rows cards)
    ≡ with_processes (processes_of forty_one (codes "GPU-2") rows) (lookup (codes "GPU-2") cards)
attach_rows-attributed_example =
    attach_rows-attributed forty_one (codes "GPU-2") rows cards cards-Distinct

abbrev disk : Disk
disk = record {
  exists = λ path. some true;
  resolve = λ path. some path;
  is_file = λ path. some true;
  size = λ path. some 2000000;
  head = λ path. some (codes "GGUF");
}

abbrev scene : Scene
scene = record {
  disk = disk;
  lockfiles = claim_a ∷ [];
  sight = λ pid. Sight.running;
  now = 7;
  collect = λ config. none;
}

abbrev no_results : HealthCache
no_results = record { ttl = 60; store = [] }

abbrev passing : ValidationVerdict
passing = record { check = weights; ok = true; reason = none; advisory = false }

abbrev validated : ModelValidation
validated = record {
  name = codes "a";
  resolved_path = codes "/models/a.gguf";
  exists = true;
  size_bytes = some 2000000;
  running_port = some 8080;
  verdicts = passing ∷ record passing { check = gguf_magic } ∷ [];
  ok = true;
}

validate_one-run : (validate_one scene true (codes "a") model_a no_results).0 ≡ some validated
unfolding validate_one llauncher.Base.Text.after_last
validate_one-run = refl

validate_one-ok_example :
    (validated.ok
      ≡ (usable disk (codes "/models/a.gguf") && genuine disk (codes "/models/a.gguf") true))
    × (is_healthy (status_of validated) ≡ validated.ok)
unfolding llauncher.Operations.Validate.resolved_path_of
validate_one-ok_example =
    validate_one-ok scene true (codes "a") model_a no_results validated validate_one-run

-- The process of the server, a shell, and a server whose command line is hidden.
abbrev table : List Row
table =
    server_row
    ∷ record { pid = 50; name = codes "bash"; cmdline = argv (codes "bash" ∷ []) }
    ∷ record { pid = 60; name = codes "llama-server"; cmdline = argv_denied }
    ∷ []

abbrev no_time : ℕ → Option ℕ
no_time pid = none

discover_all-verified_example :
    discover_all (codes "/usr/bin/llama-server") forty_one no_time table
    ≡ verified (codes "/usr/bin/llama-server") forty_one no_time table
discover_all-verified_example =
    discover_all-verified (codes "/usr/bin/llama-server") forty_one no_time table
