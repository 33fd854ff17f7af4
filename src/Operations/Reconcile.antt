-- ===== src/Operations/Reconcile.antt =====
-- llauncher/operations/reconcile.py: the sweep that removes the claims of dead processes.
use llauncher.Base.{List, [], ◌∷◌, some, String, if◌then◌else◌}
use llauncher.Records.{Lockfile, AuditAction, AuditResult}
use llauncher.Host.{Exec, pure, ◌>>=◌, ◌>>◌}
use llauncher.Core.AuditLog.{entry, record_audit}
use llauncher.Core.Lockfile.{list_lockfiles, remove_lockfile, reconcile_lockfile}

module _ (caller : String) where
  prune : Lockfile → Exec (Unit {0})
  prune claim = do
    record_audit
        (record (entry AuditAction.observed_stopped AuditResult.success caller claim.port
          claim.model) { pid = some claim.pid })
    remove_lockfile claim.port
    pure tt

  unfoldable pub sweep : List Lockfile → Exec (List Lockfile)
  unfolding prune
  sweep [] = pure []
  sweep (claim ∷ claims) = do
    recon ← reconcile_lockfile claim
    let rest = sweep claims in
        if recon.pid_alive then rest else do prune claim; pruned ← rest; pure (claim ∷ pruned)

  unfoldable pub reconcile_stale_lockfiles : Exec (List Lockfile)
  unfolding sweep
  reconcile_stale_lockfiles = do claims ← list_lockfiles; sweep claims
