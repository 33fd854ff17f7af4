-- ===== src/Operations/Swap.antt =====
-- llauncher/operations/swap.py: the verb `swap`, in the phases of its body.
pub mod Launch
pub mod Types
pub mod Restore
pub mod Restored
pub mod Coherent
pub mod Released
pub mod Relaunched
pub mod Claims
use llauncher.Base.{
  ℕ, Bool, true, false, not, Option, none, some, String, ◌==◌, string_eq, if◌then◌else◌,
}
use mathlib.Core.Option
use llauncher.Records.{ModelConfig, Lockfile, SwapMarker, AuditAction, AuditResult}
use llauncher.Host.{Exec, Exn, pure, raise, attempt, finally, ◌>>=◌, ◌>>◌}
use llauncher.Core.AuditLog.{entry, record_audit}
use llauncher.Core.Lockfile.{read_lockfile, remove_lockfile, reconcile_lockfile}
use llauncher.Core.Marker.{take_marker, read_marker, release_marker, reconcile_marker, is_cancelled}
use llauncher.Core.Config.{get_model}
use llauncher.Core.Process.Stop.{stop_server_by_port}
use llauncher.Operations.Preflight.{run_preflight_check}
use llauncher.Operations.Swap.Types.{SwapAction, PortState, SwapResult, SwapCall, outcome}
use llauncher.Operations.Swap.Restore.{handle_cancel_during_swap, launch_new}

module _ (call : SwapCall) where
  open call use {model_name, port, caller, model_health_check, vram_check}

  rejected_empty : Option String → Exec SwapResult
  rejected_empty from_model = do
    record_audit
        (record (entry AuditAction.swapped AuditResult.rejected_empty caller port model_name) {
          from_model = from_model;
        })
    pure (outcome false SwapAction.rejected_empty PortState.unchanged port none from_model)

  -- The claim that the port had when the swap began.
  module _ (existing : Lockfile) where
    abbrev refusal : SwapAction → SwapResult
    refusal action =
        record (outcome false action PortState.unchanged port (some existing.model)
          (some existing.model)) { pid = some existing.pid }

    -- A stale marker is cleared for the next call.
    reconcile_in_flight : Option SwapMarker → Exec (Unit {0})
    reconcile_in_flight none = pure tt
    reconcile_in_flight (some in_flight) = do
      owner_alive ← reconcile_marker in_flight
      if owner_alive then pure tt else do
        release_marker port
        record_audit
            (record (entry AuditAction.swap_aborted AuditResult.success caller port
              in_flight.to_model) { from_model = some in_flight.from_model })

    unfoldable pub build_in_progress_result : Exec SwapResult
    unfolding reconcile_in_flight
    build_in_progress_result = do
      in_flight ← read_marker port
      reconcile_in_flight in_flight
      record_audit
          (record (entry AuditAction.swapped AuditResult.rejected_in_progress caller port
            model_name) { from_model = some existing.model; pid = some existing.pid })
      pure (refusal SwapAction.rejected_in_progress)

    -- Only `FileExistsError` is caught.
    marker_taken : Exn → Exec SwapResult
    unfolding build_in_progress_result
    marker_taken Exn.file_exists = build_in_progress_result
    marker_taken x = raise x

    unfoldable pub reject_preflight : Exec SwapResult
    reject_preflight = do
      record_audit
          (record (entry AuditAction.swapped AuditResult.rejected_preflight caller port
            model_name) { from_model = some existing.model; pid = some existing.pid })
      pure (refusal SwapAction.rejected_preflight)

    same_model_done : Exec SwapResult
    same_model_done = do
      release_marker port
      existing_config ← get_model model_name
      pure
          (record (outcome true SwapAction.already_running PortState.serving port (some model_name)
            (some existing.model)) {
              pid = some existing.pid;
              ctx_size = Option.map (λ c. c.ctx_size) existing_config;
              parallel = Option.map (λ c. c.parallel) existing_config;
            })

    -- Step 1b: nothing to swap.
    unfoldable pub swap_same_model : Exec SwapResult
    unfolding same_model_done marker_taken
    swap_same_model =
        attempt (take_marker port caller existing.model model_name) (λ m. same_model_done)
          marker_taken

    swap_stopped : ModelConfig → ModelConfig → Exec SwapResult
    swap_stopped config old = do
      remove_lockfile port
      record_audit
          (record (entry AuditAction.stopped AuditResult.success caller port existing.model) {
            pid = some existing.pid;
          })
      cancel ← is_cancelled port
      if cancel
          then handle_cancel_during_swap call existing.model old
          else launch_new call existing.model old config

    stop_failed : Exec SwapResult
    stop_failed = do
      record_audit
          (record (entry AuditAction.swapped AuditResult.rejected_stop_failed caller port
            model_name) { from_model = some existing.model; pid = some existing.pid })
      pure (refusal SwapAction.rejected_stop_failed)

    -- Phase 3 and what follows it, under the marker.
    unfoldable pub swap_marked : ModelConfig → ModelConfig → Exec SwapResult
    unfolding swap_stopped stop_failed
    swap_marked config old = do
      stop_ok ← stop_server_by_port port
      if stop_ok then swap_stopped config old else stop_failed

    -- The marker is released on every way out.
    unfoldable pub swap_guarded : ModelConfig → ModelConfig → Exec SwapResult
    unfolding swap_marked
    swap_guarded config old = finally (swap_marked config old) (do release_marker port; pure tt)

    -- Phase 2.
    unfoldable pub swap_take : ModelConfig → ModelConfig → Exec SwapResult
    unfolding swap_guarded marker_taken
    swap_take config old =
        attempt (take_marker port caller existing.model model_name) (λ m. swap_guarded config old)
          marker_taken

    -- Step 1e.
    unfoldable pub swap_checks : ModelConfig → ModelConfig → Exec SwapResult
    unfolding swap_take reject_preflight
    swap_checks config old = do
      healthy ← run_preflight_check model_health_check config
      if not healthy then reject_preflight else do
        roomy ← run_preflight_check vram_check config
        if not roomy then reject_preflight else swap_take config old

    -- Steps 1c and 1d: the config to start, and the snapshot for the way back.
    swap_snapshot : ModelConfig → Option ModelConfig → Exec SwapResult
    unfolding swap_checks reject_preflight
    swap_snapshot config none = reject_preflight
    swap_snapshot config (some old) = swap_checks config old

    swap_found : Option ModelConfig → Exec SwapResult
    unfolding swap_snapshot reject_preflight
    swap_found none = reject_preflight
    swap_found (some config) = do old ← get_model existing.model; swap_snapshot config old

    unfoldable pub swap_other_model : Exec SwapResult
    unfolding swap_found
    swap_other_model = do found ← get_model model_name; swap_found found

    -- Step 1a on an occupied port.
    unfoldable pub swap_occupied : Exec SwapResult
    unfolding swap_same_model swap_other_model rejected_empty
    swap_occupied = do
      recon ← reconcile_lockfile existing
      if recon.pid_alive
          then (if existing.model == model_name then swap_same_model else swap_other_model)
          else (do
            record_audit
                (record (entry AuditAction.observed_stopped AuditResult.success caller port
                  existing.model) { pid = some existing.pid })
            remove_lockfile port
            rejected_empty (some existing.model))

  swap_claim : Option Lockfile → Exec SwapResult
  unfolding swap_occupied rejected_empty
  swap_claim none = rejected_empty none
  swap_claim (some existing) = swap_occupied existing

  unfoldable pub swap : Exec SwapResult
  unfolding swap_claim
  swap = do existing ← read_lockfile port; swap_claim existing
