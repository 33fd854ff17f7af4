-- ===== src/Tests/Verbs.antt =====
-- The verbs on a concrete machine.
use llauncher.Base.{
  ℕ, Bool, true, false, Option, none, some, List, [], ◌∷◌, String, ◌≡◌, refl, string_eq, ==-eq,
  ◌==◌, arith,
}
use llauncher.Base.Text.{codes}
use llauncher.Base.Dict.{lookup}
use llauncher.Host.{ok}
use llauncher.Host.Hoare.{Post}
use llauncher.Core.Config.Keyed.{Keyed}
use llauncher.Core.Lockfile.Claimed.{claimed_by}
use llauncher.Core.Marker.Unmarked.{Unmarked, Unreleased}
use llauncher.Operations.Start.{StartResult, StartAction, start}
use llauncher.Operations.Start.Claims.{start-claims}
use llauncher.Operations.Start.Coherent.{start-IsCoherent, IsCoherent as StartIsCoherent}
use llauncher.Operations.Swap.{swap}
use llauncher.Operations.Swap.Claims.{swap-claims}
use llauncher.Operations.Swap.Coherent.{swap-IsCoherent}
use llauncher.Operations.Swap.Restored.{IsCoherent as SwapIsCoherent}
use llauncher.Operations.Swap.Released.{swap-releases}
use llauncher.Operations.Swap.Types.{SwapResult, SwapAction, PortState}
use llauncher.Operations.Stop.{StopResult, StopAction, stop}
use llauncher.Operations.Stop.Claims.{stop-claims}
use llauncher.Operations.Delete.{DeleteModelResult, DeleteAction, delete_model}
use llauncher.Operations.Delete.Kept.{Unedited, IsAfter, delete_model-IsAfter}
use llauncher.Tests.Machine.{
  calm, calm-Settled, calm-Unchallenged, calm-Keyed, free_world, served_world, start_a, swap_to_b,
}

abbrev started_a : StartResult
started_a = record {
  success = true;
  action = StartAction.started;
  port = 8080;
  model = some "a";
  pid = some 42;
  cancel_ignored_post_commit = false;
  ctx_size = some 4096;
  parallel = some 1;
  startup_logs = codes "main: server is listening" ∷ [];
}

abbrev swapped_b : SwapResult
swapped_b = record {
  success = true;
  action = SwapAction.swapped;
  port_state = PortState.serving;
  port = 8080;
  model = some "b";
  previous_model = some "a";
  pid = some 42;
  startup_logs = codes "main: server is listening" ∷ [];
  cancel_ignored_post_commit = false;
  ctx_size = some 4096;
  parallel = some 1;
}

abbrev stopped_a : StopResult
stopped_a = record {
  success = true;
  action = StopAction.stopped;
  port = 8080;
  model = some "a";
  pid = some 41;
}

start_a-run : (start start_a calm free_world).0 ≡ ok started_a
unfolding llauncher.Host.◌>>=◌ llauncher.Host.◌>>◌ llauncher.Host.attempt llauncher.Host.finally
    llauncher.Host.meet llauncher.Host.apply_acts llauncher.Base.Dict.lookup llauncher.Base.Dict.put
    llauncher.Base.Dict.remove llauncher.Base.Text.before llauncher.Base.Text.decimal
    llauncher.Base.Text.has_infix llauncher.Base.Text.lower llauncher.Base.Text.starts_with
    llauncher.Core.AuditLog.record_audit llauncher.Core.Config.load llauncher.Core.Config.get_model
    llauncher.Core.Lockfile.read_lockfile llauncher.Core.Lockfile.write_lockfile
    llauncher.Core.Lockfile.is_pid_alive llauncher.Core.Lockfile.reconcile_lockfile
    llauncher.Core.Lockfile.remove_lockfile llauncher.Core.Marker.take_marker
    llauncher.Core.Marker.is_cancelled llauncher.Core.Marker.read_marker
    llauncher.Core.Marker.release_marker llauncher.Core.Process.Start.start_server
    llauncher.Core.Process.Start.start_on llauncher.Core.Process.Command.build_command
    llauncher.Core.Process.Command.split llauncher.Core.Process.Command.check_extra_args_deny_list
    llauncher.Core.Process.Command.extended llauncher.Core.Process.Command.is_denied
    llauncher.Core.Process.Command.managed_args llauncher.Core.Process.Stop.family
    llauncher.Core.Process.Stop.stop_seen llauncher.Core.Process.Stop.stop_server_by_pid
    llauncher.Core.Process.Wait.join_lines llauncher.Core.Process.Wait.looks_ready
    llauncher.Core.Process.Wait.wait_for_server_ready
    llauncher.Operations.Preflight.run_preflight_check llauncher.Operations.Preflight.tail_logs
    llauncher.Operations.Start.start llauncher.Operations.Start.start_claim
    llauncher.Operations.Start.start_claimed llauncher.Operations.Start.start_empty
    llauncher.Operations.Start.start_found llauncher.Operations.Start.start_guarded
    llauncher.Operations.Start.start_marked llauncher.Operations.Start.start_occupied
    llauncher.Operations.Start.start_spawned llauncher.Operations.Start.teardown
start_a-run = refl

swap_to_b-run : (swap swap_to_b calm served_world).0 ≡ ok swapped_b
unfolding llauncher.Host.◌>>=◌ llauncher.Host.◌>>◌ llauncher.Host.attempt llauncher.Host.finally
    llauncher.Host.meet llauncher.Host.apply_acts llauncher.Base.Dict.lookup llauncher.Base.Dict.put
    llauncher.Base.Dict.remove llauncher.Base.Text.before llauncher.Base.Text.decimal
    llauncher.Base.Text.has_infix llauncher.Base.Text.lower llauncher.Base.Text.starts_with
    llauncher.Core.AuditLog.record_audit llauncher.Core.Config.load llauncher.Core.Config.get_model
    llauncher.Core.Lockfile.read_lockfile llauncher.Core.Lockfile.write_lockfile
    llauncher.Core.Lockfile.is_pid_alive llauncher.Core.Lockfile.reconcile_lockfile
    llauncher.Core.Lockfile.remove_lockfile llauncher.Core.Marker.take_marker
    llauncher.Core.Marker.is_cancelled llauncher.Core.Marker.read_marker
    llauncher.Core.Marker.release_marker llauncher.Core.Process.Start.start_server
    llauncher.Core.Process.Start.start_on llauncher.Core.Process.Command.build_command
    llauncher.Core.Process.Command.split llauncher.Core.Process.Command.check_extra_args_deny_list
    llauncher.Core.Process.Command.extended llauncher.Core.Process.Command.is_denied
    llauncher.Core.Process.Command.managed_args llauncher.Core.Process.Stop.family
    llauncher.Core.Process.Stop.stop_seen llauncher.Core.Process.Stop.stop_server_by_pid
    llauncher.Core.Process.Wait.join_lines llauncher.Core.Process.Wait.looks_ready
    llauncher.Core.Process.Wait.wait_for_server_ready
    llauncher.Operations.Preflight.run_preflight_check llauncher.Operations.Preflight.tail_logs
    llauncher.Operations.Swap.swap llauncher.Operations.Swap.swap_occupied
    llauncher.Operations.Swap.swap_other_model llauncher.Operations.Swap.swap_checks
    llauncher.Operations.Swap.swap_take llauncher.Operations.Swap.swap_guarded
    llauncher.Operations.Swap.swap_marked llauncher.Operations.Swap.swap_same_model
    llauncher.Operations.Swap.reject_preflight llauncher.Operations.Swap.build_in_progress_result
    llauncher.Operations.Swap.Restore.handle_cancel_during_swap
    llauncher.Operations.Swap.Restore.cancel_restored llauncher.Operations.Swap.Restore.relaunch
    llauncher.Operations.Swap.Restore.rolled_back llauncher.Operations.Swap.Restore.roll_back
    llauncher.Operations.Swap.Restore.swap_complete llauncher.Operations.Swap.Restore.launch_new
    llauncher.Operations.Swap.Restore.port_dead llauncher.Operations.Swap.Launch.unready
    llauncher.Operations.Swap.Launch.await_ready llauncher.Operations.Swap.Launch.claim_launched
    llauncher.Operations.Swap.Launch.launch_and_await_ready
    llauncher.Operations.Swap.Launch.not_claimed llauncher.Operations.Swap.Launch.not_launched
    llauncher.Operations.Start.teardown llauncher.Core.Process.Stop.stop_server_by_port
    llauncher.Core.Process.Stop.stop_found llauncher.Core.Process.Scan.find_server_by_port
    llauncher.Base.Text.after_last llauncher.Base.Text.strip_suffix
swap_to_b-run = refl

stop_a-run : (stop 8080 "test" calm served_world).0 ≡ ok stopped_a
unfolding llauncher.Host.◌>>=◌ llauncher.Host.◌>>◌ llauncher.Host.attempt llauncher.Host.finally
    llauncher.Host.meet llauncher.Host.apply_acts llauncher.Base.Dict.lookup llauncher.Base.Dict.put
    llauncher.Base.Dict.remove llauncher.Base.Text.before llauncher.Base.Text.decimal
    llauncher.Base.Text.has_infix llauncher.Base.Text.lower llauncher.Base.Text.starts_with
    llauncher.Core.AuditLog.record_audit llauncher.Core.Config.load llauncher.Core.Config.get_model
    llauncher.Core.Lockfile.read_lockfile llauncher.Core.Lockfile.write_lockfile
    llauncher.Core.Lockfile.is_pid_alive llauncher.Core.Lockfile.reconcile_lockfile
    llauncher.Core.Lockfile.remove_lockfile llauncher.Core.Marker.take_marker
    llauncher.Core.Marker.is_cancelled llauncher.Core.Marker.read_marker
    llauncher.Core.Marker.release_marker llauncher.Core.Process.Stop.family
    llauncher.Core.Process.Stop.stop_seen llauncher.Core.Process.Stop.stop_server_by_pid
    llauncher.Core.Process.Stop.stop_server_by_port llauncher.Core.Process.Stop.stop_found
    llauncher.Core.Process.Scan.find_server_by_port llauncher.Base.Text.after_last
    llauncher.Base.Text.strip_suffix llauncher.Operations.Stop.stop
    llauncher.Operations.Stop.reconcile_for_stop llauncher.Operations.Stop.terminate
stop_a-run = refl

served-Keyed : Keyed served_world
unfolding lookup
served-Keyed name config h = ground (arith, ==-eq "a" name, ==-eq "b" name, h)

start-IsCoherent_example : StartIsCoherent 8080 started_a
start-IsCoherent_example = start-IsCoherent start_a calm free_world start_a-run

start-claims_example : claimed_by 8080 (start start_a calm free_world).1 ≡ some ("a", 42)
start-claims_example = start-claims start_a calm (calm-Settled 8080) free_world start_a-run

swap-IsCoherent_example : SwapIsCoherent swap_to_b swapped_b
swap-IsCoherent_example = swap-IsCoherent swap_to_b calm served_world swap_to_b-run

swap-claims_example : claimed_by 8080 (swap swap_to_b calm served_world).1 ≡ some ("b", 42)
swap-claims_example =
    swap-claims swap_to_b calm calm-Keyed (calm-Settled 8080) served_world served-Keyed
      swap_to_b-run

swap-releases_example :
    Post (λ _. Unmarked 8080) (Unreleased 8080) (swap swap_to_b calm served_world)
unfolding lookup
swap-releases_example = swap-releases swap_to_b calm (calm-Unchallenged 8080) served_world refl

stop-claims_example : claimed_by 8080 (stop 8080 "test" calm served_world).1 ≡ none
stop-claims_example = stop-claims 8080 "test" calm (calm-Settled 8080) served_world stop_a-run

abbrev deleted_b : DeleteModelResult
deleted_b = record { success = true; action = DeleteAction.deleted; name = "b"; in_use_port = none }

delete_b-run : (delete_model "b" "test" calm served_world).0 ≡ ok deleted_b
unfolding delete_model llauncher.Host.◌>>=◌ llauncher.Host.◌>>◌ llauncher.Host.attempt
    llauncher.Host.meet llauncher.Host.apply_acts llauncher.Base.Dict.lookup llauncher.Base.Dict.put
    llauncher.Base.Dict.remove llauncher.Base.Text.decimal llauncher.Core.AuditLog.record_audit
    llauncher.Core.Config.load llauncher.Core.Config.get_model llauncher.Core.Config.save
    llauncher.Core.Config.saved llauncher.Core.Config.remove_model
    llauncher.Core.Lockfile.list_lockfiles llauncher.Core.Lockfile.sort_files
    llauncher.Core.Lockfile.parse_files
delete_b-run = refl

calm-Unedited : Unedited calm
unfolding llauncher.Host.meet llauncher.Host.apply_acts
calm-Unedited c = record { meets = λ w h. h }

delete_model-IsAfter_example :
    IsAfter "b" served_world.config DeleteAction.deleted
      (delete_model "b" "test" calm served_world).1
delete_model-IsAfter_example =
    delete_model-IsAfter "b" "test" calm calm-Unedited served_world delete_b-run
