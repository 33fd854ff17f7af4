-- ===== src/Operations/Start.antt =====
-- llauncher/operations/start.py: the verb `start`, in the steps of its body. The check of the model
-- file is a parameter, as in the source.
pub mod Coherent
pub mod Kept
pub mod Claims
pub mod Released
use llauncher.Base.{
  ℕ, Bool, true, false, Option, none, some, List, [], String, ◌==◌, string_eq, if◌then◌else◌,
}
use mathlib.Core.Option
use llauncher.Base.Text.{Text}
use llauncher.Records.{ModelConfig, Lockfile, AuditAction, AuditResult}
use llauncher.Host.{Exec, Exn, is_os_error, pure, raise, attempt, finally, ◌>>=◌, ◌>>◌}
use llauncher.Core.AuditLog.{entry, record_audit}
use llauncher.Core.Lockfile.{write_lockfile, read_lockfile, remove_lockfile, reconcile_lockfile}
use llauncher.Core.Marker.{take_marker, release_marker, is_cancelled}
use llauncher.Core.Config.{get_model}
use llauncher.Core.Process.Start.{start_server}
use llauncher.Core.Process.Stop.{stop_server_by_pid}
use llauncher.Core.Process.Wait.{wait_for_server_ready}
use llauncher.Operations.Preflight.{PreflightCheck, run_preflight_check, tail_logs}

pub data StartAction : Type 0 where
  started already_running rejected_occupied rejected_preflight : StartAction
  rejected_in_progress cancelled error : StartAction

pub record StartResult : Type 0 where
  pub success : Bool
  pub action : StartAction
  pub port : ℕ
  pub model : Option String
  pub pid : Option ℕ
  pub cancel_ignored_post_commit : Bool
  pub ctx_size : Option ℕ
  pub parallel : Option ℕ
  pub startup_logs : List Text

-- A result with every optional field at its default.
abbrev pub plain : Bool → StartAction → ℕ → String → StartResult
plain success action port model = record {
  success = success;
  action = action;
  port = port;
  model = some model;
  pid = none;
  cancel_ignored_post_commit = false;
  ctx_size = none;
  parallel = none;
  startup_logs = [];
}

-- `except (FileNotFoundError, OSError, ExtraArgsError)`
abbrev pub is_launch_error : Exn → Bool
is_launch_error Exn.extra_args_error = true
is_launch_error x = is_os_error x

-- `except psutil.AccessDenied` around a teardown, logged and passed over.
tolerate_denied : Exn → Exec (Unit {0})
tolerate_denied Exn.access_denied = pure tt
tolerate_denied x = raise x

unfoldable pub teardown : ℕ → Exec (Unit {0})
unfolding tolerate_denied
teardown pid = attempt (stop_server_by_pid pid) (λ stopped. pure tt) tolerate_denied

-- The arguments of `start`.
pub record StartCall : Type 0 where
  pub model_name : String
  pub port : ℕ
  pub caller : String
  pub readiness_timeout : ℕ
  pub model_health_check : Option PreflightCheck

module _ (call : StartCall) where
  open call use {model_name, port, caller, readiness_timeout, model_health_check}

  -- A live claim on the port: the same model is an idempotent success, another one a refusal.
  unfoldable pub start_occupied : Lockfile → Exec StartResult
  start_occupied existing =
      if existing.model == model_name
      then (do
        existing_config ← get_model model_name
        pure (record (plain true StartAction.already_running port model_name) {
          pid = some existing.pid;
          ctx_size = Option.map (λ c. c.ctx_size) existing_config;
          parallel = Option.map (λ c. c.parallel) existing_config;
        }))
      else (do
        record_audit
            (record (entry AuditAction.started AuditResult.rejected_occupied caller port
              model_name) { from_model = some existing.model; pid = some existing.pid })
        pure (record (plain false StartAction.rejected_occupied port existing.model) {
          pid = some existing.pid;
        }))

  cancelled_result : Exec StartResult
  cancelled_result = do
    record_audit (entry AuditAction.started AuditResult.cancelled caller port model_name)
    pure (plain false StartAction.cancelled port model_name)

  failed : Exec StartResult
  failed = do
    record_audit (entry AuditAction.started AuditResult.error caller port model_name)
    pure (plain false StartAction.error port model_name)

  lost_race : ℕ → Exec StartResult
  lost_race pid = do
    teardown pid
    record_audit (record (entry AuditAction.started AuditResult.error caller port model_name) {
      pid = some pid;
    })
    pure (plain false StartAction.error port model_name)

  not_ready : ℕ → List Text → Exec StartResult
  not_ready pid startup_logs = do
    teardown pid
    remove_lockfile port
    record_audit (record (entry AuditAction.started AuditResult.error caller port model_name) {
      pid = some pid;
    })
    pure (record (plain false StartAction.error port model_name) {
      pid = some pid;
      startup_logs = tail_logs startup_logs;
    })

  now_ready : ModelConfig → ℕ → List Text → Exec StartResult
  now_ready config pid startup_logs = do
    cancel_ignored ← is_cancelled port
    record_audit (record (entry AuditAction.started AuditResult.success caller port model_name) {
      pid = some pid;
    })
    pure (record (plain true StartAction.started port model_name) {
      pid = some pid;
      cancel_ignored_post_commit = cancel_ignored;
      ctx_size = some config.ctx_size;
      parallel = some config.parallel;
      startup_logs = tail_logs startup_logs;
    })

  -- The claim is written: wait for the server.
  unfoldable pub start_claimed : ModelConfig → ℕ → Exec StartResult
  unfolding not_ready now_ready
  start_claimed config pid = do
    (ready, startup_logs) ← wait_for_server_ready port readiness_timeout none model_name pid
    if ready then now_ready config pid startup_logs else not_ready pid startup_logs

  -- Other errors of the write leave the child running, without a claim.
  lockfile_error : ℕ → Exn → Exec StartResult
  unfolding lost_race
  lockfile_error pid Exn.file_exists = lost_race pid
  lockfile_error pid x = raise x

  -- The child is there: claim the port.
  unfoldable pub start_spawned : ModelConfig → ℕ → Exec StartResult
  unfolding lockfile_error start_claimed
  start_spawned config pid =
      attempt (write_lockfile port model_name pid) (λ lf. start_claimed config pid)
        (lockfile_error pid)

  -- The body under the marker.
  unfoldable pub start_marked : ModelConfig → Exec StartResult
  unfolding cancelled_result failed start_spawned
  start_marked config = do
    early ← is_cancelled port
    if early then cancelled_result else do
      healthy ← run_preflight_check model_health_check config
      if healthy
          then (do
            late ← is_cancelled port
            if late
                then cancelled_result
                else attempt (start_server config port) (start_spawned config)
                    (λ x. if is_launch_error x then failed else raise x))
          else (do
            record_audit
                (entry AuditAction.started AuditResult.rejected_preflight caller port model_name)
            pure (plain false StartAction.rejected_preflight port model_name))

  marker_error : Exn → Exec StartResult
  unfolding failed
  marker_error Exn.file_exists = do
    record_audit (entry AuditAction.started AuditResult.rejected_in_progress caller port model_name)
    pure (plain false StartAction.rejected_in_progress port model_name)
  marker_error x = if is_os_error x then failed else raise x

  -- The marker is released on every way out.
  unfoldable pub start_guarded : ModelConfig → Exec StartResult
  unfolding start_marked
  start_guarded config = finally (start_marked config) (do release_marker port; pure tt)

  -- The port is empty: look up the model and take the marker.
  unfoldable pub start_found : Option ModelConfig → Exec StartResult
  unfolding failed marker_error start_guarded
  start_found none = failed
  start_found (some config) =
      attempt (take_marker port caller "" model_name) (λ m. start_guarded config) marker_error

  unfoldable pub start_empty : Exec StartResult
  unfolding start_found
  start_empty = do found ← get_model model_name; start_found found

  unfoldable pub start_claim : Option Lockfile → Exec StartResult
  unfolding start_empty
  start_claim none = start_empty
  start_claim (some existing) = do
    recon ← reconcile_lockfile existing
    if recon.pid_alive then start_occupied existing else do
      record_audit
          (record (entry AuditAction.observed_stopped AuditResult.success caller port
            existing.model) { pid = some existing.pid })
      remove_lockfile port
      start_empty

  unfoldable pub start : Exec StartResult
  unfolding start_claim
  start = do existing ← read_lockfile port; start_claim existing
