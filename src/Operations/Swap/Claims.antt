-- ===== src/Operations/Swap/Claims.antt =====
-- What a result of `swap` says of the port is what the lockfile says.
use llauncher.Base.{
  nat_eq, ℕ, not, Option, none, some, String, ◌==◌, string_eq, ==-eq, ◌≡◌, refl, ◌∙◌, ap,
}
use llauncher.Records.{ModelConfig, Lockfile, SwapMarker}
use llauncher.Base.Dict.{lookup}
use llauncher.Core.Files.{parsed}
use llauncher.Host.{Exec, World, Env, Exn, ok}
use llauncher.Host.Hoare.{
  Hoare, Stable, Post-ok, Hoare-any, Hoare-attempt, Hoare-bind, Hoare-then, Hoare-if, Hoare-given,
  Hoare-pure, Hoare-raise, Hoare-finally, Hoare-step, Hoare-weaken, Keeps-gives,
}
use llauncher.Host.Framed.{Framed}
use llauncher.Host.Safely.{Safely-bind, Safely-then, Safely-Hoare, Safely-weak}
use llauncher.Core.AuditLog.{Safely-record_audit}
use llauncher.Core.Config.Keyed.{Keyed, Named, Hoare-get_model}
use llauncher.Core.Kept.{
  Safely-reconcile_lockfile, Safely-read_marker, Safely-reconcile_marker, Safely-is_cancelled,
  Keeps-get_model, Keeps-stop_server_by_port, Keeps-take_marker, Keeps-release_marker,
}
use llauncher.Core.Lockfile.{read_lockfile}
use llauncher.Core.Lockfile.Claimed.{
  owner, Claimed, claimed_by, Settled, Claimed-Framed, Claimed-MarkFree, Hoare-remove_lockfile,
}
use llauncher.Operations.Start.Claims.{both}
use llauncher.Operations.Start.Kept.{Safely-run_preflight_check}
use llauncher.Operations.Swap.{
  swap, swap_claim, swap_occupied, swap_other_model, swap_found, swap_snapshot, swap_checks,
  swap_take, swap_guarded, swap_marked, swap_stopped, stop_failed, swap_same_model, same_model_done,
  reject_preflight, marker_taken, build_in_progress_result, reconcile_in_flight, rejected_empty,
}
use llauncher.Operations.Swap.Types.{SwapCall, SwapResult}
use llauncher.Operations.Swap.Relaunched.{Quiet, handle_cancel-Told, launch_new-Told}

-- The registry and the claim of the port, together.
abbrev Known : ℕ → Option (String × ℕ) → World → Type 0
Known port v w = Keyed w × Claimed port v w

module _ (call : SwapCall) {e : Env} (keyed : Stable e Keyed) (s : Settled e call.port) where
  Known-Framed : (v : Option (String × ℕ)) → Framed e (Known call.port v)
  Known-Framed v = record {
    stable = record { meets = λ w (k, p). (keyed.meets w k, (s v).meets w p) };
    audit_free = λ w l p. p;
    machine_free = λ w m p. p;
  }

  abbrev Tells : SwapResult → World → Type 0
  Tells r = Claimed call.port (both r.model r.pid)

  rejected_empty-Told :
      (m : Option String) → Hoare e (Claimed call.port none) (rejected_empty call m) Tells Quiet
  unfolding rejected_empty
  rejected_empty-Told m =
      Safely-then _ _ (Safely-record_audit (Claimed-Framed call.port s _) _)
        (Hoare-pure _ (λ w p. p))

  module _ (existing : Lockfile) where
    abbrev Occupied : World → Type 0
    Occupied = Claimed call.port (owner (some existing))

    Occupied-Framed : Framed e Occupied
    Occupied-Framed = Claimed-Framed call.port s _

    in_flight-Told :
        (m : Option SwapMarker)
        → Hoare e Occupied (reconcile_in_flight call existing m) (λ _. Occupied) Quiet
    unfolding reconcile_in_flight
    in_flight-Told none = Hoare-pure tt (λ w p. p)
    in_flight-Told (some m) = Safely-bind _ _ (Safely-reconcile_marker (s _) m) λ owner_alive.
        Hoare-if owner_alive _ _ (λ _. Hoare-pure tt (λ w p. p))
          (λ _.
            Hoare-then _ _
              (Keeps-gives (Keeps-release_marker (s _) (Claimed-MarkFree call.port _) call.port))
              (Safely-Hoare (Safely-record_audit Occupied-Framed _)))

    marker_taken-Told : (x : Exn) → Hoare e Occupied (marker_taken call existing x) Tells Quiet
    unfolding marker_taken build_in_progress_result
    marker_taken-Told Exn.file_exists = Safely-bind _ _ (Safely-read_marker (s _) call.port) λ m.
        Hoare-then _ _ (in_flight-Told m)
          (Safely-then _ _ (Safely-record_audit Occupied-Framed _) (Hoare-pure _ (λ w p. p)))
    marker_taken-Told x = Hoare-raise x (λ w p. tt)

    reject-Told : Hoare e Occupied (reject_preflight call existing) Tells Quiet
    unfolding reject_preflight
    reject-Told = Safely-then _ _ (Safely-record_audit Occupied-Framed _) (Hoare-pure _ (λ w p. p))

    same_model-Told :
        existing.model ≡ call.model_name
        → Hoare e Occupied (swap_same_model call existing) Tells Quiet
    unfolding swap_same_model same_model_done
    same_model-Told same =
        Hoare-attempt _ _ _ (Keeps-take_marker (s _) (Claimed-MarkFree call.port _) _ _ _ _)
          (λ m.
            Hoare-then _ _
              (Keeps-gives (Keeps-release_marker (s _) (Claimed-MarkFree call.port _) call.port))
              (Hoare-bind _ _ (Keeps-gives (Keeps-get_model (s _) _))
                λ c. Hoare-pure _ (λ w p. p ∙ ap (λ m. some (m, existing.pid)) same)))
          marker_taken-Told

    module _ (config old : ModelConfig) (found : config.name ≡ call.model_name)
        (snapshot : old.name ≡ existing.model) where
      stopped-Told : Hoare e Occupied (swap_stopped call existing config old) Tells Quiet
      unfolding swap_stopped
      stopped-Told = Hoare-then _ _ (Safely-weak (Hoare-remove_lockfile call.port)) (
          Safely-then _ _ (Safely-record_audit (Claimed-Framed call.port s _) _) (
            Safely-bind _ _ (Safely-is_cancelled (s _) call.port) λ cancel.
              Hoare-if cancel _ _ (λ _. handle_cancel-Told call existing.model old snapshot s)
                (λ _. launch_new-Told call existing.model old snapshot s config found)))

      marked-Told : Hoare e Occupied (swap_marked call existing config old) Tells Quiet
      unfolding swap_marked stop_failed
      marked-Told =
          Hoare-bind _ _ (Keeps-gives (Keeps-stop_server_by_port Occupied-Framed call.port))
            λ stop_ok.
              Hoare-if stop_ok _ _ (λ _. stopped-Told)
                (λ _.
                  Safely-then _ _ (Safely-record_audit Occupied-Framed _) (Hoare-pure _ (λ w p. p)))

      take-Told : Hoare e Occupied (swap_take call existing config old) Tells Quiet
      unfolding swap_take swap_guarded
      take-Told =
          Hoare-attempt _ _ _ (Keeps-take_marker (s _) (Claimed-MarkFree call.port _) _ _ _ _)
            (λ m.
              Hoare-finally _ _ marked-Told
                (λ r.
                  Hoare-then _ _
                    (Keeps-gives
                      (Keeps-release_marker (s _) (Claimed-MarkFree call.port _) call.port))
                    (Hoare-pure tt (λ w p. p)))
                (λ x. Hoare-any _))
            marker_taken-Told

      checks-Told : Hoare e Occupied (swap_checks call existing config old) Tells Quiet
      unfolding swap_checks
      checks-Told = Safely-bind _ _ (Safely-run_preflight_check (s _) _ config) λ healthy.
          Hoare-if (not healthy) _ _ (λ _. reject-Told)
            (λ _.
              Safely-bind _ _ (Safely-run_preflight_check (s _) _ config)
                λ roomy. Hoare-if (not roomy) _ _ (λ _. reject-Told) (λ _. take-Told))

    snapshot-Told :
        (config : ModelConfig)
        → config.name ≡ call.model_name
        → (old : Option ModelConfig) → Named existing.model old
        → Hoare e Occupied (swap_snapshot call existing config old) Tells Quiet
    unfolding swap_snapshot
    snapshot-Told config found none n = reject-Told
    snapshot-Told config found (some old) n = checks-Told config old found (n old refl)

    Known-weaken :
        {A : Type 0} {m : Exec A} {Q : A → World → Type 0}
        → Hoare e Occupied m Q Quiet
        → Hoare e (Known call.port (owner (some existing))) m Q Quiet
    Known-weaken h = Hoare-weaken h (λ w p. p.1) (λ a w q. q) (λ x w q. q)

    found-Told :
        (found : Option ModelConfig)
        → Named call.model_name found
        → Hoare e
            (Known call.port (owner (some existing)))
            (swap_found call existing found)
            Tells
            Quiet
    unfolding swap_found
    found-Told none n = Known-weaken reject-Told
    found-Told (some config) n =
        Hoare-bind _ _ (Hoare-get_model (Known-Framed _).stable existing.model)
          λ old. Hoare-given λ m. Known-weaken (snapshot-Told config (n config refl) old m)

    occupied-Told :
        Hoare e (Known call.port (owner (some existing))) (swap_occupied call existing) Tells Quiet
    unfolding swap_occupied swap_other_model
    occupied-Told =
        Safely-bind _ _ (Safely-reconcile_lockfile (Known-Framed _).stable existing) λ recon.
          Hoare-if recon.pid_alive _ _
            (λ _.
              Hoare-if (existing.model == call.model_name) _ _
                (λ b. Known-weaken (same_model-Told (==-eq _ _ b)))
                (λ _.
                  Hoare-bind _ _ (Hoare-get_model (Known-Framed _).stable call.model_name)
                    λ found. Hoare-given λ n. found-Told found n))
            (λ _. Known-weaken (
              Safely-then _ _ (Safely-record_audit Occupied-Framed _) (
                Hoare-then _ _ (Safely-weak (Hoare-remove_lockfile call.port))
                  (rejected_empty-Told _))))

  claim-Told :
      (existing : Option Lockfile)
      → Hoare e (Known call.port (owner existing)) (swap_claim call existing) Tells Quiet
  unfolding swap_claim
  claim-Told none = Hoare-weaken (rejected_empty-Told none) (λ w p. p.1) (λ a w q. q) (λ x w q. q)
  claim-Told (some existing) = occupied-Told existing

  read-Told : Hoare e Keyed (read_lockfile call.port) (λ o. Known call.port (owner o)) Quiet
  unfolding read_lockfile
  read-Told =
      Hoare-step (λ e w. (ok (parsed (lookup call.port w.lock_dir)), w)) keyed (λ w k. (k, refl))

-- When `swap` returns, the model and the pid of its result are those of the port's lockfile, and
-- the result names none where the lockfile is absent or corrupt: after a swap, a rollback, a
-- cancel, a refusal and the loss of the port alike. This holds as long as the models of the
-- registry stand under their own names, and the other processes keep them so and do not change who
-- claims the port.
pub swap-claims :
    (call : SwapCall) (e : Env)
    → Stable e Keyed
    → Settled e call.port
    → (w : World) {r : SwapResult} → Keyed w
    → (swap call e w).0 ≡ ok r
    → claimed_by call.port (swap call e w).1 ≡ both r.model r.pid
unfolding swap
swap-claims call e keyed s w k h =
    Post-ok (λ r. Claimed call.port (both r.model r.pid)) Quiet (swap call e w) (go.at w k) h
  where
    go : Hoare e Keyed (swap call) (λ r. Claimed call.port (both r.model r.pid)) Quiet
    go = Hoare-bind _ _ (read-Told call keyed s) (claim-Told call keyed s)
