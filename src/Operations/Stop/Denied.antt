-- ===== src/Operations/Stop/Denied.antt =====
-- What a stop keeps, and what it raises.
use llauncher.Base.{ℕ, false, Option, none, some, String, nat_eq}
use llauncher.Records.{Lockfile}
use llauncher.Host.{World, Env, Exn}
use llauncher.Host.Hoare.{Hoare, Hoare-pure, Hoare-if, Hoare-bind}
use llauncher.Host.Framed.{Framed}
use llauncher.Host.Safely.{Safely-reads, Safely, Safely-bind, Safely-then}
use llauncher.Core.AuditLog.{Safely-record_audit}
use llauncher.Core.Kept.{Safely-reconcile_lockfile, Safely-read_lockfile}
use llauncher.Core.Lockfile.{remove_lockfile}
use llauncher.Core.Process.Scan.{find_server_by_port}
use llauncher.Core.Process.Stop.{stop_server_by_port, stop_found}
use llauncher.Core.Process.Stop.Denied.{IsDenied, Hoare-stop_server_by_pid}
use llauncher.Operations.Stop.{
  Check, early, live, stop, stop_checked, terminate, reconcile_for_stop, check_claim,
  observed_stopped,
}

-- A predicate that a stop of the port keeps: it returns, or raises `AccessDenied`.
module _ {e : Env} {P : World → Type 0} (fr : Framed e P) (port : ℕ)
    (removes : Safely e P (remove_lockfile port)) where
  abbrev Denied : Exn → World → Type 0
  Denied x w = IsDenied x × P w

  stop_found-Denied : (found : Option ℕ) → Hoare e P (stop_found found) (λ _. P) Denied
  unfolding stop_found
  stop_found-Denied none = Hoare-pure false (λ w p. p)
  stop_found-Denied (some pid) = Hoare-stop_server_by_pid fr pid

  stop_server_by_port-Denied : Hoare e P (stop_server_by_port port) (λ _. P) Denied
  unfolding stop_server_by_port
  stop_server_by_port-Denied =
      Safely-bind _ _
        (Safely-reads (λ e w. find_server_by_port e.binary_path port (e.table w.tick)) fr.stable)
        stop_found-Denied

  terminate-Denied :
      (caller : String) (existing : Lockfile)
      → Hoare e P (terminate port caller existing) (λ _. P) Denied
  unfolding terminate
  terminate-Denied caller existing = Hoare-bind _ _ stop_server_by_port-Denied λ stop_ok.
      Hoare-if stop_ok _ _
        (λ _.
          Safely-then _ _ removes
            (Safely-then _ _ (Safely-record_audit fr _) (Hoare-pure _ (λ w p. p))))
        (λ _. Safely-then _ _ (Safely-record_audit fr _) (Hoare-pure _ (λ w p. p)))

  check_claim-kept :
      (caller : String) (existing : Option Lockfile) → Safely e P (check_claim port caller existing)
  unfolding check_claim observed_stopped
  check_claim-kept caller none = Hoare-pure _ (λ w p. p)
  check_claim-kept caller (some existing) =
      Safely-bind _ _ (Safely-reconcile_lockfile fr.stable existing) λ recon.
        Hoare-if recon.pid_alive _ _ (λ _. Hoare-pure _ (λ w p. p))
          (λ _.
            Safely-then _ _ (Safely-record_audit fr _)
              (Safely-then _ _ removes (Hoare-pure _ (λ w p. p))))

  stop_checked-Denied :
      (caller : String) (found : Check) → Hoare e P (stop_checked port caller found) (λ _. P) Denied
  unfolding stop_checked
  stop_checked-Denied caller (early r) = Hoare-pure r (λ w p. p)
  stop_checked-Denied caller (live existing) = terminate-Denied caller existing

  pub stop-Denied : (caller : String) → Hoare e P (stop port caller) (λ _. P) Denied
  unfolding stop reconcile_for_stop
  stop-Denied caller =
      Safely-bind _ _
        (Safely-bind _ _ (Safely-read_lockfile fr.stable port) (check_claim-kept caller))
        (stop_checked-Denied caller)
