-- ===== src/Operations/Delete.antt =====
-- llauncher/operations/delete.py: remove a model from the config unless it is in use.
pub mod Kept
use llauncher.Base.{
  ℕ, Bool, true, false, not, Option, none, some, List, [], ◌∷◌, String, ◌==◌, string_eq,
  if◌then◌else◌,
}
use llauncher.Records.{ModelConfig, Lockfile, AuditAction, AuditResult}
use llauncher.Host.{Exec, pure, ◌>>=◌, ◌>>◌}
use llauncher.Core.AuditLog.{entry, record_audit}
use llauncher.Core.Lockfile.{list_lockfiles, remove_lockfile, reconcile_lockfile}
use llauncher.Core.Config.{get_model, remove_model}

pub data DeleteAction : Type 0 where
  deleted not_found rejected_in_use error : DeleteAction

pub record DeleteModelResult : Type 0 where
  pub success : Bool
  pub action : DeleteAction
  pub name : String
  pub in_use_port : Option ℕ

module _ (name : String) (caller : String) where
  in_use : Lockfile → Exec DeleteModelResult
  in_use lock = do
    record_audit
        (record (entry AuditAction.model_removed AuditResult.rejected_occupied caller lock.port
          name) { pid = some lock.pid })
    pure (record {
      success = false;
      action = DeleteAction.rejected_in_use;
      name = name;
      in_use_port = some lock.port;
    })

  clear_stale : Lockfile → Exec (Unit {0})
  clear_stale lock = do
    record_audit
        (record (entry AuditAction.observed_stopped AuditResult.success caller lock.port name) {
          pid = some lock.pid;
        })
    remove_lockfile lock.port
    pure tt

  -- The scan: the claims of other models are passed over, a live one ends it, a stale one goes.
  delete_unless_in_use : List Lockfile → Exec DeleteModelResult
  unfolding in_use clear_stale
  delete_unless_in_use [] = do
    remove_model name caller
    pure (record { success = true; action = DeleteAction.deleted; name = name; in_use_port = none })
  delete_unless_in_use (lock ∷ locks) =
      let rest = delete_unless_in_use locks in
      if not (lock.model == name) then rest else do
        recon ← reconcile_lockfile lock
        if recon.pid_alive then in_use lock else (clear_stale lock >> rest)

  delete_found : Option ModelConfig → Exec DeleteModelResult
  unfolding delete_unless_in_use
  delete_found none =
      pure (record {
        success = true;
        action = DeleteAction.not_found;
        name = name;
        in_use_port = none;
      })
  delete_found (some cfg) = do locks ← list_lockfiles; delete_unless_in_use locks

  unfoldable pub delete_model : Exec DeleteModelResult
  unfolding delete_found
  delete_model = do cfg ← get_model name; delete_found cfg
