-- ===== src/Operations/Start/Claims.antt =====
-- What a result of `start` says of the port is what the lockfile says.
use llauncher.Base.{◌∙◌, ap, ◌==◌, string_eq, ==-eq, ℕ, Option, none, some, List, String, ◌≡◌}
use llauncher.Base.Text.{Text}
use llauncher.Records.{ModelConfig, Lockfile}
use llauncher.Host.{World, Env, Exn, is_os_error, ok}
use llauncher.Host.Hoare.{
  Hoare-any, Keeps-gives, Hoare, Post-ok, Hoare-attempt, Hoare-bind, Hoare-then, Hoare-if,
  Hoare-pure, Hoare-raise, Hoare-finally,
}
use llauncher.Host.Framed.{Framed}
use llauncher.Host.Safely.{Safely-weak, Safely-bind, Safely-then}
use llauncher.Core.AuditLog.{Safely-record_audit}
use llauncher.Core.Kept.{
  Safely-reconcile_lockfile, Keeps-get_model, Safely-is_cancelled, Keeps-start_server,
  Keeps-take_marker, Keeps-release_marker, Looks-none,
}
use llauncher.Core.Lockfile.Claimed.{
  claimed_by, owner, Claimed, Settled, Claimed-Framed, Claimed-MarkFree, Anyway,
  Hoare-read_lockfile, Hoare-remove_lockfile, Hoare-write_lockfile,
}
use llauncher.Core.Process.Wait.Returning.{Keeps-wait}
use llauncher.Operations.Start.{
  StartCall, StartResult, StartAction, start, start_claim, start_empty, start_found, start_guarded,
  start_marked, start_spawned, start_claimed, start_occupied, lockfile_error, marker_error, failed,
  cancelled_result, lost_race, not_ready, now_ready,
}
use llauncher.Operations.Start.Kept.{Safely-teardown, Safely-run_preflight_check}

abbrev pub both : Option String → Option ℕ → Option (String × ℕ)
both (some model) (some pid) = some (model, pid)
both _ _ = none

-- What a result says is on the port.
abbrev pub occupant : StartResult → Option (String × ℕ)
occupant r = elim r.action [
  | StartAction.started ↦ both r.model r.pid
  | StartAction.already_running ↦ both r.model r.pid
  | StartAction.rejected_occupied ↦ both r.model r.pid
  | _ ↦ none
]

module _ (call : StartCall) {e : Env} (s : Settled e call.port) where
  abbrev Told : StartResult → World → Type 0
  Told r = Claimed call.port (occupant r)

  abbrev Said : Exn → World → Type 0
  Said x = Anyway

  free_frame : (v : Option (String × ℕ)) → Framed e (Claimed call.port v)
  free_frame v = Claimed-Framed call.port s v

  failed-Told : Hoare e (Claimed call.port none) (failed call) Told Said
  unfolding failed
  failed-Told = Safely-then _ _ (Safely-record_audit (free_frame none) _) (Hoare-pure _ (λ w p. p))

  cancelled-Told : Hoare e (Claimed call.port none) (cancelled_result call) Told Said
  unfolding cancelled_result
  cancelled-Told =
      Safely-then _ _ (Safely-record_audit (free_frame none) _) (Hoare-pure _ (λ w p. p))

  lost_race-Told : (pid : ℕ) → Hoare e (Claimed call.port none) (lost_race call pid) Told Said
  unfolding lost_race
  lost_race-Told pid =
      Safely-then _ _ (Safely-teardown (free_frame none) pid)
        (Safely-then _ _ (Safely-record_audit (free_frame none) _) (Hoare-pure _ (λ w p. p)))

  not_ready-Told :
      (v : Option (String × ℕ)) (pid : ℕ) (logs : List Text)
      → Hoare e (Claimed call.port v) (not_ready call pid logs) Told Said
  unfolding not_ready
  not_ready-Told v pid logs = Safely-then _ _ (Safely-teardown (free_frame v) pid) (
      Hoare-then _ _ (Safely-weak (Hoare-remove_lockfile call.port))
        (Safely-then _ _ (Safely-record_audit (free_frame none) _) (Hoare-pure _ (λ w p. p))))

  now_ready-Told :
      (config : ModelConfig) (pid : ℕ) (logs : List Text)
      → Hoare e
          (Claimed call.port (some (call.model_name, pid)))
          (now_ready call config pid logs)
          Told
          Said
  unfolding now_ready
  now_ready-Told config pid logs =
      Safely-bind _ _ (Safely-is_cancelled (s _) call.port)
        λ late. Safely-then _ _ (Safely-record_audit (free_frame _) _) (Hoare-pure _ (λ w p. p))

  start_claimed-Told :
      (config : ModelConfig) (pid : ℕ)
      → Hoare e
          (Claimed call.port (some (call.model_name, pid)))
          (start_claimed call config pid)
          Told
          Said
  unfolding start_claimed
  start_claimed-Told config pid =
      Hoare-bind _ _ (Keeps-gives (Keeps-wait (free_frame _) _ _ _ _ _ Looks-none)) λ (ready, logs).
        Hoare-if ready _ _ (λ _. now_ready-Told config pid logs) (λ _. not_ready-Told _ pid logs)

  lockfile_error-Told :
      (pid : ℕ) (x : Exn) → Hoare e (Claimed call.port none) (lockfile_error call pid x) Told Said
  unfolding lockfile_error
  lockfile_error-Told pid Exn.file_exists = lost_race-Told pid
  lockfile_error-Told pid x = Hoare-raise x (λ w p. tt)

  start_spawned-Told :
      (config : ModelConfig) (pid : ℕ)
      → Hoare e (Claimed call.port none) (start_spawned call config pid) Told Said
  unfolding start_spawned
  start_spawned-Told config pid =
      Hoare-attempt _ _ _ (Hoare-write_lockfile call.port call.model_name pid s)
        (λ lf. start_claimed-Told config pid) (lockfile_error-Told pid)

  start_marked-Told :
      (config : ModelConfig) → Hoare e (Claimed call.port none) (start_marked call config) Told Said
  unfolding start_marked
  start_marked-Told config = Safely-bind _ _ (Safely-is_cancelled (s none) call.port) λ early.
      Hoare-if early _ _ (λ _. cancelled-Told)
        (λ _. Safely-bind _ _ (Safely-run_preflight_check (s none) _ config) λ healthy.
          Hoare-if healthy _ _
            (λ _. Safely-bind _ _ (Safely-is_cancelled (s none) call.port) λ late.
              Hoare-if late _ _ (λ _. cancelled-Told)
                (λ _.
                  Hoare-attempt _ _ _ (Keeps-start_server (free_frame none) config call.port)
                    (start_spawned-Told config)
                    (λ x. Hoare-if _ _ _ (λ _. failed-Told) (λ _. Hoare-raise x (λ w p. tt)))))
            (λ _.
              Safely-then _ _ (Safely-record_audit (free_frame none) _) (Hoare-pure _ (λ w p. p))))

  marker_error-Told : (x : Exn) → Hoare e (Claimed call.port none) (marker_error call x) Told Said
  unfolding marker_error
  marker_error-Told Exn.file_exists =
      Safely-then _ _ (Safely-record_audit (free_frame none) _) (Hoare-pure _ (λ w p. p))
  marker_error-Told x =
      Hoare-if (is_os_error x) _ _ (λ _. failed-Told) (λ _. Hoare-raise x (λ w p. tt))

  start_guarded-Told :
      (config : ModelConfig)
      → Hoare e (Claimed call.port none) (start_guarded call config) Told Said
  unfolding start_guarded
  start_guarded-Told config =
      Hoare-finally _ _ (start_marked-Told config)
        (λ r.
          Hoare-then _ _
            (Keeps-gives (Keeps-release_marker (s _) (Claimed-MarkFree call.port _) call.port))
            (Hoare-pure tt (λ w p. p)))
        (λ x. Hoare-any _)

  start_found-Told :
      (found : Option ModelConfig)
      → Hoare e (Claimed call.port none) (start_found call found) Told Said
  unfolding start_found
  start_found-Told none = failed-Told
  start_found-Told (some config) =
      Hoare-attempt _ _ _ (Keeps-take_marker (s none) (Claimed-MarkFree call.port none) _ _ _ _)
        (λ m. start_guarded-Told config) marker_error-Told

  start_empty-Told : Hoare e (Claimed call.port none) (start_empty call) Told Said
  unfolding start_empty
  start_empty-Told = Hoare-bind _ _ (Keeps-gives (Keeps-get_model (s none) _)) start_found-Told

  start_occupied-Told :
      (existing : Lockfile)
      → Hoare e (Claimed call.port (owner (some existing))) (start_occupied call existing) Told Said
  unfolding start_occupied
  start_occupied-Told existing =
      Hoare-if (existing.model == call.model_name) _ _
        (λ b.
          Hoare-bind _ _ (Keeps-gives (Keeps-get_model (s _) _))
            λ c. Hoare-pure _ (λ w p. p ∙ ap (λ m. some (m, existing.pid)) (==-eq _ _ b)))
        (λ _. Safely-then _ _ (Safely-record_audit (free_frame _) _) (Hoare-pure _ (λ w p. p)))

  start_claim-Told :
      (existing : Option Lockfile)
      → Hoare e (Claimed call.port (owner existing)) (start_claim call existing) Told Said
  unfolding start_claim
  start_claim-Told none = start_empty-Told
  start_claim-Told (some existing) =
      Safely-bind _ _ (Safely-reconcile_lockfile (s _) existing) λ recon.
        Hoare-if recon.pid_alive _ _ (λ _. start_occupied-Told existing)
          (λ _.
            Safely-then _ _ (Safely-record_audit (free_frame _) _)
              (Hoare-then _ _ (Safely-weak (Hoare-remove_lockfile call.port)) start_empty-Told))

-- When `start` returns, what its result says is on the port (the model and the pid for a success or
-- an occupied port, nothing otherwise) is exactly what the port's lockfile says, as long as the
-- other processes do not change who claims the port.
pub start-claims :
    (call : StartCall) (e : Env)
    → Settled e call.port
    → (w : World) {r : StartResult} → (start call e w).0 ≡ ok r
    → claimed_by call.port (start call e w).1 ≡ occupant r
unfolding start
start-claims call e s w h =
    Post-ok (λ r. Claimed call.port (occupant r)) _ (start call e w) (go.at w tt) h
  where
    go : Hoare e Anyway (start call) (λ r. Claimed call.port (occupant r)) (λ _. Anyway)
    go = Hoare-bind _ _ (Safely-weak (Hoare-read_lockfile call.port)) (start_claim-Told call s)
