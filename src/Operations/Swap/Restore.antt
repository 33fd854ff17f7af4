-- ===== src/Operations/Swap/Restore.antt =====
-- llauncher/operations/swap.py, phases 4 and 5, and the two ways back to the previous model: the
-- rollback after a failure, and the restoration after a cancel between the phases 3 and 4.
use llauncher.Base.{Bool, true, false, none, some, List, ◌++◌, String, if◌then◌else◌}
use llauncher.Base.Text.{Text}
use llauncher.Records.{ModelConfig, AuditAction, AuditResult}
use llauncher.Host.{Exec, pure, ◌>>=◌, ◌>>◌}
use llauncher.Core.AuditLog.{entry, record_audit}
use llauncher.Core.Marker.{is_cancelled}
use llauncher.Operations.Swap.Launch.{Failure, Launch, launch_and_await_ready}
use llauncher.Operations.Swap.Types.{SwapAction, PortState, SwapResult, SwapCall, outcome}

-- `err == "cancelled"`
abbrev pub was_cancel : Failure → Bool
was_cancel Failure.cancelled = true
was_cancel _ = false

-- `previous` is the name of the model that was there, `old` its config, read before the stop.
module _ (call : SwapCall) (previous : String) (old : ModelConfig) where
  open call use {model_name, port, caller, readiness_timeout}

  -- Both ways back have failed: the port is dead.
  unfoldable pub port_dead : List Text → Exec SwapResult
  port_dead logs = do
    record_audit (record (entry AuditAction.swapped AuditResult.unavailable caller port previous) {
      model = none;
      from_model = some previous;
    })
    pure (record (outcome false SwapAction.failed PortState.unavailable port none (some previous)) {
      startup_logs = logs;
    })

  unfoldable pub relaunch : Exec Launch
  relaunch = launch_and_await_ready old port readiness_timeout none

  unfoldable pub cancel_restored : Launch → Exec SwapResult
  unfolding port_dead
  cancel_restored back =
      if back.ready
      then (do
        record_audit (record (entry AuditAction.started AuditResult.success caller port previous) {
          pid = back.pid;
        })
        pure
            (record (outcome false SwapAction.cancelled PortState.restored port (some previous)
              (some previous)) { pid = back.pid; startup_logs = back.logs }))
      else port_dead back.logs

  unfoldable pub handle_cancel_during_swap : Exec SwapResult
  unfolding cancel_restored relaunch
  handle_cancel_during_swap = do
    record_audit (record (entry AuditAction.swapped AuditResult.cancelled caller port model_name) {
      from_model = some previous;
    })
    back ← relaunch
    cancel_restored back

  unfoldable pub rolled_back : Bool → List Text → Launch → Exec SwapResult
  unfolding port_dead
  rolled_back cancel startup_logs back =
      if back.ready
      then (do
        record_audit (record (entry AuditAction.started AuditResult.success caller port previous) {
          pid = back.pid;
        })
        record_audit
            (record (entry AuditAction.swapped
              (if cancel then AuditResult.cancelled else AuditResult.rolled_back) caller port
              previous) { from_model = some previous; pid = back.pid })
        pure
            (record (outcome false (if cancel then SwapAction.cancelled else SwapAction.rolled_back)
              PortState.restored port (some previous) (some previous)) {
                pid = back.pid;
                startup_logs = startup_logs;
              }))
      else port_dead (startup_logs ++ back.logs)

  unfoldable pub roll_back : Launch → Exec SwapResult
  unfolding rolled_back relaunch
  roll_back new = do
    record_audit
        (record (entry AuditAction.started
          (if was_cancel new.failure then AuditResult.cancelled else AuditResult.error) caller port
          model_name) { pid = new.pid })
    back ← relaunch
    rolled_back (was_cancel new.failure) new.logs back

  unfoldable pub swap_complete : ModelConfig → Launch → Exec SwapResult
  swap_complete config new = do
    cancel_ignored ← is_cancelled port
    record_audit (record (entry AuditAction.started AuditResult.success caller port model_name) {
      pid = new.pid;
    })
    record_audit (record (entry AuditAction.swapped AuditResult.success caller port model_name) {
      from_model = some previous;
      pid = new.pid;
    })
    pure
        (record (outcome true SwapAction.swapped PortState.serving port (some model_name)
          (some previous)) {
            pid = new.pid;
            startup_logs = new.logs;
            cancel_ignored_post_commit = cancel_ignored;
            ctx_size = some config.ctx_size;
            parallel = some config.parallel;
          })

  -- Phases 4 and 5.
  unfoldable pub launch_new : ModelConfig → Exec SwapResult
  unfolding swap_complete roll_back
  launch_new config = do
    new ← launch_and_await_ready config port readiness_timeout (some (is_cancelled port))
    if new.ready then swap_complete config new else roll_back new
