-- ===== src/Operations/Start/Coherent.antt =====
-- Every result of `start` is consistent in itself, whatever the machine and other processes do.
use llauncher.Base.{arith, ℕ, ◌≤◌, ◌≡◌, Bool, true, false, Option, List, none, some, length}
use llauncher.Host.{is_os_error, ok, Exn, World, Env}
use llauncher.Host.Hoare.{Returns-ok, Returns}
use llauncher.Host.Frame.{
  Returns-raise, Returns-finally, Returns-if, Returns-attempt, Returns-then, Returns-bind,
  Returns-pure,
}
use llauncher.Operations.Preflight.{length-tail_logs}
use llauncher.Operations.Start.{
  StartCall, start_guarded, Lockfile, start, start_empty, start_claim, start_claimed,
  start_occupied, start_marked, cancelled_result, start_found, lost_race, marker_error,
  start_spawned, lockfile_error, Text, ModelConfig, not_ready, now_ready, StartAction, StartResult,
  failed,
}

abbrev pub is_success : StartAction → Bool
is_success StartAction.started = true
is_success StartAction.already_running = true
is_success _ = false

pub record IsCoherent (port : ℕ) (r : StartResult) : Type 0 where
  pub same_port : r.port ≡ port
  pub by_action : r.success ≡ is_success r.action
  pub has_pid : r.success ≡ true → (p : ℕ) × (r.pid ≡ some p)
  pub late_cancel : r.cancel_ignored_post_commit ≡ true → r.action ≡ StartAction.started
  pub few_logs : length r.startup_logs ≤ 100

module _ (call : StartCall) {e : Env} where
  failed-IsCoherent : Returns e (IsCoherent call.port) (failed call)
  unfolding failed
  failed-IsCoherent = Returns-then _ _ (Returns-pure _ (ground arith))

  not_ready-IsCoherent :
      (pid : ℕ) (logs : List Text) → Returns e (IsCoherent call.port) (not_ready call pid logs)
  unfolding not_ready
  not_ready-IsCoherent pid logs =
      Returns-then _ _ (
        Returns-then _ _
          (Returns-then _ _ (Returns-pure _ (ground (arith, length-tail_logs logs)))))

  now_ready-IsCoherent :
      (config : ModelConfig) (pid : ℕ) (logs : List Text)
      → Returns e (IsCoherent call.port) (now_ready call config pid logs)
  unfolding now_ready
  now_ready-IsCoherent config pid logs =
      Returns-bind _ _
        (λ late. Returns-then _ _ (Returns-pure _ (ground (arith, length-tail_logs logs))))

  lost_race-IsCoherent : (pid : ℕ) → Returns e (IsCoherent call.port) (lost_race call pid)
  unfolding lost_race
  lost_race-IsCoherent pid = Returns-then _ _ (Returns-then _ _ (Returns-pure _ (ground arith)))

  cancelled_result-IsCoherent : Returns e (IsCoherent call.port) (cancelled_result call)
  unfolding cancelled_result
  cancelled_result-IsCoherent = Returns-then _ _ (Returns-pure _ (ground arith))

  start_claimed-IsCoherent :
      (config : ModelConfig) (pid : ℕ)
      → Returns e (IsCoherent call.port) (start_claimed call config pid)
  unfolding start_claimed
  start_claimed-IsCoherent config pid = Returns-bind _ _ (λ (ready, logs).
      Returns-if ready _ _ (now_ready-IsCoherent config pid logs) (not_ready-IsCoherent pid logs))

  lockfile_error-IsCoherent :
      (pid : ℕ) (x : Exn) → Returns e (IsCoherent call.port) (lockfile_error call pid x)
  unfolding lockfile_error
  lockfile_error-IsCoherent pid Exn.file_exists = lost_race-IsCoherent pid
  lockfile_error-IsCoherent pid x = Returns-raise _

  start_spawned-IsCoherent :
      (config : ModelConfig) (pid : ℕ)
      → Returns e (IsCoherent call.port) (start_spawned call config pid)
  unfolding start_spawned
  start_spawned-IsCoherent config pid =
      Returns-attempt _ _ _ (λ lf. start_claimed-IsCoherent config pid)
        (lockfile_error-IsCoherent pid)

  start_marked-IsCoherent :
      (config : ModelConfig) → Returns e (IsCoherent call.port) (start_marked call config)
  unfolding start_marked
  start_marked-IsCoherent config = Returns-bind _ _ λ early.
      Returns-if early _ _ cancelled_result-IsCoherent (
        Returns-bind _ _ λ healthy.
          Returns-if healthy _ _
            (Returns-bind _ _ λ late. Returns-if late _ _ cancelled_result-IsCoherent (
              Returns-attempt _ _ _ (start_spawned-IsCoherent config)
                (λ x. Returns-if _ _ _ failed-IsCoherent (Returns-raise x))))
            (Returns-then _ _ (Returns-pure _ (ground arith))))

  marker_error-IsCoherent : (x : Exn) → Returns e (IsCoherent call.port) (marker_error call x)
  unfolding marker_error
  marker_error-IsCoherent Exn.file_exists = Returns-then _ _ (Returns-pure _ (ground arith))
  marker_error-IsCoherent x = Returns-if (is_os_error x) _ _ failed-IsCoherent (Returns-raise x)

  start_found-IsCoherent :
      (found : Option ModelConfig) → Returns e (IsCoherent call.port) (start_found call found)
  unfolding start_found start_guarded
  start_found-IsCoherent none = failed-IsCoherent
  start_found-IsCoherent (some config) =
      Returns-attempt _ _ _ (λ m. Returns-finally _ _ (start_marked-IsCoherent config))
        marker_error-IsCoherent

  start_empty-IsCoherent : Returns e (IsCoherent call.port) (start_empty call)
  unfolding start_empty
  start_empty-IsCoherent = Returns-bind _ _ start_found-IsCoherent

  start_occupied-IsCoherent :
      (existing : Lockfile) → Returns e (IsCoherent call.port) (start_occupied call existing)
  unfolding start_occupied
  start_occupied-IsCoherent existing =
      Returns-if _ _ _ (Returns-bind _ _ λ c. Returns-pure _ (ground arith))
        (Returns-then _ _ (Returns-pure _ (ground arith)))

  start_claim-IsCoherent :
      (existing : Option Lockfile) → Returns e (IsCoherent call.port) (start_claim call existing)
  unfolding start_claim
  start_claim-IsCoherent none = start_empty-IsCoherent
  start_claim-IsCoherent (some existing) = Returns-bind _ _ λ recon.
      Returns-if _ _ _ (start_occupied-IsCoherent existing)
        (Returns-then _ _ (Returns-then _ _ start_empty-IsCoherent))

  pub start-Returns : Returns e (IsCoherent call.port) (start call)
  unfolding start
  start-Returns = Returns-bind _ _ start_claim-IsCoherent

-- A result of `start` names its port, is a success exactly for `started` and `already_running`,
-- has a pid if it is a success, reports an ignored cancel only on `started`, and holds at most
-- 100 log lines: for every behaviour of the machine and of the other processes.
pub start-IsCoherent :
    (call : StartCall) (e : Env) (w : World) {r : StartResult}
    → (start call e w).0 ≡ ok r
    → IsCoherent call.port r
start-IsCoherent call e w h = Returns-ok w (start-Returns call) h
