-- ===== src/Operations/Stop/Claims.antt =====
-- What a result of `stop` says of the port is what the lockfile says.
use llauncher.Base.{ℕ, Option, none, some, String, ◌≡◌, if◌then◌else◌}
use llauncher.Records.{Lockfile}
use llauncher.Host.{World, Env, Exn, ok}
use llauncher.Host.Hoare.{Hoare, Post-ok, Hoare-bind, Hoare-then, Hoare-if, Hoare-pure, Keeps-gives}
use llauncher.Host.Safely.{Safely-bind, Safely-then, Safely-weak}
use llauncher.Core.AuditLog.{Safely-record_audit}
use llauncher.Core.Kept.{Safely-reconcile_lockfile, Keeps-stop_server_by_port}
use llauncher.Core.Lockfile.Claimed.{
  owner, Claimed, claimed_by, Settled, Claimed-Framed, Anyway, Hoare-read_lockfile,
  Hoare-remove_lockfile,
}
use llauncher.Operations.Start.Claims.{both}
use llauncher.Operations.Stop.{
  StopResult, Check, early, live, stop, stop_checked, terminate, reconcile_for_stop, check_claim,
  observed_stopped,
}

-- What a result leaves on the port.
abbrev pub left : StopResult → Option (String × ℕ)
left r = if r.success then none else both r.model r.pid

module _ (port : ℕ) (caller : String) {e : Env} (s : Settled e port) where
  abbrev pub Leaves : StopResult → World → Type 0
  Leaves r = Claimed port (left r)

  abbrev pub Quiet : Exn → World → Type 0
  Quiet x = Anyway

  abbrev Found : Check → World → Type 0
  Found (early r) w = Leaves r w
  Found (live existing) w = Claimed port (owner (some existing)) w

  check-left :
      (existing : Option Lockfile)
      → Hoare e (Claimed port (owner existing)) (check_claim port caller existing) Found Quiet
  unfolding check_claim observed_stopped
  check-left none = Hoare-pure _ (λ w p. p)
  check-left (some existing) = Safely-bind _ _ (Safely-reconcile_lockfile (s _) existing) λ recon.
      Hoare-if recon.pid_alive _ _ (λ _. Hoare-pure _ (λ w p. p))
        (λ _.
          Safely-then _ _ (Safely-record_audit (Claimed-Framed port s _) _)
            (Hoare-then _ _ (Safely-weak (Hoare-remove_lockfile port)) (Hoare-pure _ (λ w p. p))))

  terminate-left :
      (existing : Lockfile)
      → Hoare e (Claimed port (owner (some existing))) (terminate port caller existing) Leaves Quiet
  unfolding terminate
  terminate-left existing =
      Hoare-bind _ _ (Keeps-gives (Keeps-stop_server_by_port (Claimed-Framed port s _) port))
        λ stop_ok.
          Hoare-if stop_ok _ _
            (λ _. Hoare-then _ _ (Safely-weak (Hoare-remove_lockfile port)) (
              Safely-then _ _ (Safely-record_audit (Claimed-Framed port s _) _)
                (Hoare-pure _ (λ w p. p))))
            (λ _.
              Safely-then _ _ (Safely-record_audit (Claimed-Framed port s _) _)
                (Hoare-pure _ (λ w p. p)))

  checked-left :
      (found : Check) → Hoare e (Found found) (stop_checked port caller found) Leaves Quiet
  unfolding stop_checked
  checked-left (early r) = Hoare-pure r (λ w p. p)
  checked-left (live existing) = terminate-left existing

  pub stop-left : Hoare e Anyway (stop port caller) Leaves Quiet
  unfolding stop reconcile_for_stop
  stop-left =
      Hoare-bind _ _ (Hoare-bind _ _ (Safely-weak (Hoare-read_lockfile port)) (check-left))
        (checked-left)

-- When `stop` returns a success, no lockfile claims the port; when it returns a failure, the
-- lockfile of the model and the pid in the result still does. This holds as long as the other
-- processes do not change who claims the port.
pub stop-claims :
    (port : ℕ) (caller : String) (e : Env)
    → Settled e port
    → (w : World) {r : StopResult} → (stop port caller e w).0 ≡ ok r
    → claimed_by port (stop port caller e w).1 ≡ left r
stop-claims port caller e s w h =
    Post-ok (λ r. Claimed port (left r)) (λ _. Anyway) (stop port caller e w)
      ((stop-left port caller s).at w tt) h
