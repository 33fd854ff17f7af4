-- ===== src/Operations/Swap/Released.antt =====
-- What `swap` leaves of the marker of its port.
use llauncher.Base.{not, Option, none, some, String, ◌==◌, string_eq}
use llauncher.Records.{ModelConfig, Lockfile, SwapMarker}
use llauncher.Host.{World, Env, Exn}
use llauncher.Host.Hoare.{
  Keeps, Post, Hoare-if, Hoare-bind, Hoare-pure, Hoare-weaken, Hoare-attempt, Hoare-then,
}
use llauncher.Host.Frame.{Keeps-pure, Keeps-raise, Keeps-bind}
use llauncher.Host.Framed.{Framed}
use llauncher.Host.Safely.{Safely-Hoare, Safely-bind, Safely-then}
use llauncher.Core.AuditLog.{Safely-record_audit}
use llauncher.Core.Kept.{
  Safely-read_lockfile, Safely-reconcile_lockfile, Safely-remove_lockfile, Safely-read_marker,
  Safely-reconcile_marker, Keeps-get_model,
}
use llauncher.Core.Marker.Unmarked.{
  Unmarked, Unchallenged, Unmarked-Framed, Unmarked-LockFree, Hoare-guarded, Hoare-take,
  Hoare-release, Unreleased, Releases, Keeps-Releases,
}
use llauncher.Operations.Start.Kept.{Safely-run_preflight_check}
use llauncher.Operations.Swap.{
  swap, swap_claim, swap_occupied, swap_other_model, swap_found, swap_snapshot, swap_checks,
  swap_take, swap_guarded, swap_same_model, same_model_done, reject_preflight, marker_taken,
  build_in_progress_result, reconcile_in_flight, rejected_empty,
}
use llauncher.Operations.Swap.Types.{SwapCall}

module _ (call : SwapCall) {e : Env} (s : Unchallenged e call.port) where
  own_frame : Framed e (Unmarked call.port)
  own_frame = Unmarked-Framed call.port s

  rejected_empty-kept : (m : Option String) → Keeps e (Unmarked call.port) (rejected_empty call m)
  unfolding rejected_empty
  rejected_empty-kept m = Safely-then _ _ (Safely-record_audit own_frame _) (Keeps-pure _)

  module _ (existing : Lockfile) where
    in_flight-kept :
        (m : Option SwapMarker) → Releases e call.port (reconcile_in_flight call existing m)
    unfolding reconcile_in_flight
    in_flight-kept none = Keeps-Releases call.port (Keeps-pure tt)
    in_flight-kept (some m) = Safely-bind _ _ (Safely-reconcile_marker s m) λ owner_alive.
        Hoare-if owner_alive _ _ (λ _. Keeps-Releases call.port (Keeps-pure tt))
          (λ _.
            Hoare-then _ _
              (Hoare-weaken (Hoare-release call.port) (λ w p. tt) (λ a w p. p) (λ x w p. p))
              (Safely-Hoare (Safely-record_audit own_frame _)))

    marker_taken-kept : (x : Exn) → Releases e call.port (marker_taken call existing x)
    unfolding marker_taken build_in_progress_result
    marker_taken-kept Exn.file_exists = Safely-bind _ _ (Safely-read_marker s call.port) λ m.
        Hoare-then _ _ (in_flight-kept m)
          (Safely-then _ _ (Safely-record_audit own_frame _) (Hoare-pure _ (λ w p. p)))
    marker_taken-kept x = Keeps-Releases call.port (Keeps-raise x)

    reject-kept : Keeps e (Unmarked call.port) (reject_preflight call existing)
    unfolding reject_preflight
    reject-kept = Safely-then _ _ (Safely-record_audit own_frame _) (Keeps-pure _)

    same_model-kept : Releases e call.port (swap_same_model call existing)
    unfolding swap_same_model same_model_done
    same_model-kept =
        Hoare-attempt _ _ _ (Hoare-take call.port _ _ _ s)
          (λ m.
            Hoare-then _ _ (Hoare-release call.port)
              (Keeps-Releases call.port (Keeps-bind _ _ (Keeps-get_model s _) (λ c. Keeps-pure _))))
          marker_taken-kept

    swap_take-kept :
        (config old : ModelConfig) → Releases e call.port (swap_take call existing config old)
    unfolding swap_take swap_guarded
    swap_take-kept config old =
        Hoare-attempt _ _ _ (Hoare-take call.port _ _ _ s) (λ m. Hoare-guarded call.port _)
          marker_taken-kept

    swap_checks-kept :
        (config old : ModelConfig) → Releases e call.port (swap_checks call existing config old)
    unfolding swap_checks
    swap_checks-kept config old = Safely-bind _ _ (Safely-run_preflight_check s _ config) λ healthy.
        Hoare-if (not healthy) _ _ (λ _. Keeps-Releases call.port reject-kept)
          (λ _. Safely-bind _ _ (Safely-run_preflight_check s _ config) λ roomy.
            Hoare-if (not roomy) _ _ (λ _. Keeps-Releases call.port reject-kept)
              (λ _. swap_take-kept config old))

    swap_snapshot-kept :
        (config : ModelConfig) (old : Option ModelConfig)
        → Releases e call.port (swap_snapshot call existing config old)
    unfolding swap_snapshot
    swap_snapshot-kept config none = Keeps-Releases call.port reject-kept
    swap_snapshot-kept config (some old) = swap_checks-kept config old

    swap_found-kept :
        (found : Option ModelConfig) → Releases e call.port (swap_found call existing found)
    unfolding swap_found
    swap_found-kept none = Keeps-Releases call.port reject-kept
    swap_found-kept (some config) =
        Hoare-bind _ _ (Keeps-Releases call.port (Keeps-get_model s _)) (swap_snapshot-kept config)

    swap_occupied-kept : Releases e call.port (swap_occupied call existing)
    unfolding swap_occupied swap_other_model
    swap_occupied-kept = Safely-bind _ _ (Safely-reconcile_lockfile s existing) λ recon.
        Hoare-if recon.pid_alive _ _
          (λ _.
            Hoare-if (existing.model == call.model_name) _ _ (λ _. same_model-kept)
              (λ _.
                Hoare-bind _ _ (Keeps-Releases call.port (Keeps-get_model s _)) swap_found-kept))
          (λ _. Safely-then _ _ (Safely-record_audit own_frame _) (
            Safely-then _ _ (Safely-remove_lockfile s (Unmarked-LockFree call.port) call.port)
              (Keeps-Releases call.port (rejected_empty-kept _))))

  swap_claim-kept : (existing : Option Lockfile) → Releases e call.port (swap_claim call existing)
  unfolding swap_claim
  swap_claim-kept none = Keeps-Releases call.port (rejected_empty-kept none)
  swap_claim-kept (some existing) = swap_occupied-kept existing

-- If the port has no swap marker before `swap`, it has none after it when `swap` returns, whatever
-- the result. When `swap` raises it has none either, unless what it raises is the error of an
-- `unlink` that failed. This holds as long as the other processes put none there, also not by a
-- cancel request that they are in the middle of.
pub swap-releases :
    (call : SwapCall) (e : Env)
    → Unchallenged e call.port
    → (w : World) → Unmarked call.port w
    → Post (λ _. Unmarked call.port) (Unreleased call.port) (swap call e w)
unfolding swap
swap-releases call e s w h =
    (Safely-bind {R = Unreleased call.port} _ _ (Safely-read_lockfile s call.port)
        (swap_claim-kept call s)).at
      w h
