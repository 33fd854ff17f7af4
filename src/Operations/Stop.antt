-- ===== src/Operations/Stop.antt =====
-- llauncher/operations/stop.py: the blocking verb `stop` and what it shares with the other one.
pub mod Claims
pub mod Denied
pub mod Background
use llauncher.Base.{ℕ, Bool, true, false, Option, none, some, String, if◌then◌else◌}
use llauncher.Records.{Lockfile, AuditAction, AuditResult}
use llauncher.Host.{Exec, pure, ◌>>=◌, ◌>>◌}
use llauncher.Core.AuditLog.{entry, record_audit}
use llauncher.Core.Lockfile.{read_lockfile, remove_lockfile, reconcile_lockfile}
use llauncher.Core.Process.Stop.{stop_server_by_port}

pub data StopAction : Type 0 where
  stopped stopping already_empty error : StopAction

pub record StopResult : Type 0 where
  pub success : Bool
  pub action : StopAction
  pub port : ℕ
  pub model : Option String
  pub pid : Option ℕ

-- What the checks before a termination find: nothing to do, or a live claim.
pub data Check : Type 0 where
  early : StopResult → Check
  live : Lockfile → Check

module _ (port : ℕ) (caller : String) where
  abbrev about : Bool → StopAction → Lockfile → StopResult
  about success action existing = record {
    success = success;
    action = action;
    port = port;
    model = some existing.model;
    pid = some existing.pid;
  }

  observed_stopped : Lockfile → Exec Check
  observed_stopped existing = do
    record_audit
        (record (entry AuditAction.observed_stopped AuditResult.success caller port
          existing.model) { pid = some existing.pid })
    remove_lockfile port
    pure (early (about true StopAction.already_empty existing))

  check_claim : Option Lockfile → Exec Check
  unfolding observed_stopped
  check_claim none = pure (
      early (record {
        success = true;
        action = StopAction.already_empty;
        port = port;
        model = none;
        pid = none;
      }))
  check_claim (some existing) = do
    recon ← reconcile_lockfile existing
    if recon.pid_alive then pure (live existing) else observed_stopped existing

  unfoldable pub reconcile_for_stop : Exec Check
  unfolding check_claim
  reconcile_for_stop = do existing ← read_lockfile port; check_claim existing

  unfoldable pub terminate : Lockfile → Exec StopResult
  terminate existing = do
    stop_ok ← stop_server_by_port port
    if stop_ok
        then (do
          remove_lockfile port
          record_audit
              (record (entry AuditAction.stopped AuditResult.success caller port existing.model) {
                pid = some existing.pid;
              })
          pure (about true StopAction.stopped existing))
        else (do
          record_audit
              (record (entry AuditAction.stopped AuditResult.error caller port existing.model) {
                pid = some existing.pid;
              })
          pure (about false StopAction.error existing))

  stop_checked : Check → Exec StopResult
  unfolding terminate
  stop_checked (early result) = pure result
  stop_checked (live existing) = terminate existing

  unfoldable pub stop : Exec StopResult
  unfolding reconcile_for_stop stop_checked
  stop = do found ← reconcile_for_stop; stop_checked found
