-- ===== src/Tests/Parts.antt =====
-- The parts of the core and the endpoints on concrete inputs.
use llauncher.Base.{
  arith, ℕ, Bool, true, false, Option, none, some, List, [], ◌∷◌, ◌++◌, String, ◌≡◌, refl,
}
use llauncher.Base.Text.{Text, codes}
use llauncher.Host.{meet, apply_acts, ok, Env}
use llauncher.Core.Kept.{Looks-is_cancelled}
use llauncher.Core.Marker.Exclusive.{Marked, take_marker-excludes}
use llauncher.Records.{SwapMarker}
use llauncher.Host.Hoare.{Stable}
use llauncher.Base.Dict.{lookup, put}
use llauncher.Core.Marker.{take_marker, is_cancelled}
use llauncher.Core.Process.Command.{build_command, managed_args}
use llauncher.Core.Process.Command.Allowed.{IsAllowed, build_command-IsAllowed}
use llauncher.Core.Process.Wait.{wait_for_server_ready, looks_ready}
use llauncher.Core.Process.Wait.Ready.{
  wait_for_server_ready-returns, wait_for_server_ready-MeansReady,
}
use llauncher.Operations.Start.{StartResult}
use llauncher.Agent.Routing.{Reply, start_server}
use llauncher.Agent.Routing.Answers.{IsHonest, start_server-IsHonest}
use llauncher.Tests.Machine.{calm, broken, free_world, model_a}

abbrev bin : Text
bin = codes "/usr/bin/llama-server"

build_command-run :
    build_command bin model_a 8080 ≡ ok (managed_args bin model_a 8080 ++ codes "--jinja" ∷ [])
unfolding build_command llauncher.Base.Text.before llauncher.Base.Text.decimal
    llauncher.Base.Text.has_infix llauncher.Base.Text.lower llauncher.Base.Text.starts_with
    llauncher.Core.Process.Command.split llauncher.Core.Process.Command.check_extra_args_deny_list
    llauncher.Core.Process.Command.extended llauncher.Core.Process.Command.is_denied
    llauncher.Core.Process.Command.managed_args
build_command-run = refl

build_command-IsAllowed_example :
    IsAllowed bin model_a 8080 (managed_args bin model_a 8080 ++ codes "--jinja" ∷ [])
build_command-IsAllowed_example = build_command-IsAllowed bin model_a 8080 build_command-run

wait-run :
    (wait_for_server_ready 8080 5 none "a" 42 calm free_world).0
    ≡ ok (true, codes "main: server is listening" ∷ [])
unfolding wait_for_server_ready llauncher.Host.◌>>=◌ llauncher.Host.◌>>◌ llauncher.Host.attempt
    llauncher.Host.finally llauncher.Host.meet llauncher.Host.apply_acts llauncher.Base.Dict.lookup
    llauncher.Base.Dict.put llauncher.Base.Dict.remove llauncher.Base.Text.before
    llauncher.Base.Text.decimal llauncher.Base.Text.has_infix llauncher.Base.Text.lower
    llauncher.Base.Text.starts_with llauncher.Core.Process.Wait.join_lines
    llauncher.Core.Process.Wait.looks_ready
wait-run = refl

wait_for_server_ready-MeansReady_example :
    looks_ready (codes "main: server is listening" ∷ []) ≡ true
wait_for_server_ready-MeansReady_example =
    wait_for_server_ready-MeansReady 8080 5 none "a" 42 calm free_world wait-run

wait_for_server_ready-returns_example :
    (o : Bool × List Text) × ((wait_for_server_ready 8080 5
        (some (is_cancelled 8080))
        "a"
        42
        broken
        free_world).0
      ≡ ok o)
wait_for_server_ready-returns_example =
    wait_for_server_ready-returns 8080 5 (some (is_cancelled 8080)) "a" 42 broken
      (Looks-is_cancelled 8080) (λ t n. omega arith) (omega arith) (omega arith) free_world

start_server-IsHonest_example :
    (answer : Reply StartResult) × (((start_server 5 none none 8080 "a" calm free_world).0
        ≡ ok answer)
      × IsHonest answer)
start_server-IsHonest_example = start_server-IsHonest 5 none none 8080 "a" calm free_world

abbrev marker_a : SwapMarker
marker_a = record {
  port = 8080;
  caller = "cli";
  llauncher_pid = 7;
  from_model = "";
  to_model = "a";
  cancelled = false;
}

take_marker-run : (take_marker 8080 "cli" "" "a" calm free_world).0 ≡ ok marker_a
unfolding take_marker meet apply_acts lookup put
take_marker-run = refl

calm-Marked : Stable calm (Marked 8080)
unfolding meet apply_acts
calm-Marked = record { meets = λ w h. h }

take_marker-excludes_example : ¬ (
    (take_marker 8080 "agent" "" "b" calm (take_marker 8080 "cli" "" "a" calm free_world).1).0
    ≡ ok marker_a)
take_marker-excludes_example =
    take_marker-excludes 8080 "cli" "" "a" "agent" "" "b" calm calm calm-Marked free_world
      take_marker-run
