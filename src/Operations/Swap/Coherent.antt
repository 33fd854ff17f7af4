-- ===== src/Operations/Swap/Coherent.antt =====
-- Every result of `swap` is consistent in itself, whatever the machine and other processes do.
use llauncher.Base.{not, Option, none, some, String, ◌==◌, string_eq, ◌≡◌, arith}
use llauncher.Records.{ModelConfig, Lockfile}
use llauncher.Host.{World, Env, Exn, ok}
use llauncher.Host.Hoare.{Returns, Returns-ok}
use llauncher.Host.Frame.{
  Returns-pure, Returns-raise, Returns-if, Returns-attempt, Returns-bind, Returns-then,
  Returns-finally,
}
use llauncher.Operations.Swap.{
  swap, swap_claim, swap_occupied, swap_other_model, swap_found, swap_snapshot, swap_checks,
  swap_take, swap_guarded, swap_marked, stop_failed, swap_stopped, swap_same_model, same_model_done,
  reject_preflight, marker_taken, build_in_progress_result, rejected_empty,
}
use llauncher.Operations.Swap.Types.{SwapResult, SwapCall}
use llauncher.Operations.Swap.Restored.{IsCoherent, handle_cancel-IsCoherent, launch_new-IsCoherent}

module _ (call : SwapCall) {e : Env} where
  rejected_empty-IsCoherent :
      (m : Option String) → Returns e (IsCoherent call) (rejected_empty call m)
  unfolding rejected_empty
  rejected_empty-IsCoherent m = Returns-then _ _ (Returns-pure _ (ground arith))

  module _ (existing : Lockfile) where
    in_progress-IsCoherent : Returns e (IsCoherent call) (build_in_progress_result call existing)
    unfolding build_in_progress_result
    in_progress-IsCoherent =
        Returns-bind _ _ λ m. Returns-then _ _ (Returns-then _ _ (Returns-pure _ (ground arith)))

    marker_taken-IsCoherent : (x : Exn) → Returns e (IsCoherent call) (marker_taken call existing x)
    unfolding marker_taken
    marker_taken-IsCoherent Exn.file_exists = in_progress-IsCoherent
    marker_taken-IsCoherent x = Returns-raise x

    reject-IsCoherent : Returns e (IsCoherent call) (reject_preflight call existing)
    unfolding reject_preflight
    reject-IsCoherent = Returns-then _ _ (Returns-pure _ (ground arith))

    same_model-IsCoherent : Returns e (IsCoherent call) (swap_same_model call existing)
    unfolding swap_same_model same_model_done
    same_model-IsCoherent =
        Returns-attempt _ _ _
          (λ m. Returns-then _ _ (Returns-bind _ _ λ c. Returns-pure _ (ground arith)))
          marker_taken-IsCoherent

    swap_marked-IsCoherent :
        (config old : ModelConfig)
        → Returns e (IsCoherent call) (swap_marked call existing config old)
    unfolding swap_marked swap_stopped stop_failed
    swap_marked-IsCoherent config old = Returns-bind _ _ λ stop_ok.
        Returns-if stop_ok _ _
          (Returns-then _ _ (
            Returns-then _ _ (
              Returns-bind _ _ λ cancel.
                Returns-if cancel _ _ (handle_cancel-IsCoherent call existing.model old)
                  (launch_new-IsCoherent call existing.model old config))))
          (Returns-then _ _ (Returns-pure _ (ground arith)))

    swap_take-IsCoherent :
        (config old : ModelConfig)
        → Returns e (IsCoherent call) (swap_take call existing config old)
    unfolding swap_take swap_guarded
    swap_take-IsCoherent config old =
        Returns-attempt _ _ _ (λ m. Returns-finally _ _ (swap_marked-IsCoherent config old))
          marker_taken-IsCoherent

    swap_checks-IsCoherent :
        (config old : ModelConfig)
        → Returns e (IsCoherent call) (swap_checks call existing config old)
    unfolding swap_checks
    swap_checks-IsCoherent config old = Returns-bind _ _ λ healthy.
        Returns-if (not healthy) _ _ reject-IsCoherent (
          Returns-bind _ _
            λ roomy. Returns-if (not roomy) _ _ reject-IsCoherent (swap_take-IsCoherent config old))

    swap_snapshot-IsCoherent :
        (config : ModelConfig) (old : Option ModelConfig)
        → Returns e (IsCoherent call) (swap_snapshot call existing config old)
    unfolding swap_snapshot
    swap_snapshot-IsCoherent config none = reject-IsCoherent
    swap_snapshot-IsCoherent config (some old) = swap_checks-IsCoherent config old

    swap_found-IsCoherent :
        (found : Option ModelConfig) → Returns e (IsCoherent call) (swap_found call existing found)
    unfolding swap_found
    swap_found-IsCoherent none = reject-IsCoherent
    swap_found-IsCoherent (some config) = Returns-bind _ _ (swap_snapshot-IsCoherent config)

    swap_occupied-IsCoherent : Returns e (IsCoherent call) (swap_occupied call existing)
    unfolding swap_occupied swap_other_model
    swap_occupied-IsCoherent = Returns-bind _ _ λ recon.
        Returns-if recon.pid_alive _ _
          (Returns-if (existing.model == call.model_name) _ _ same_model-IsCoherent
            (Returns-bind _ _ swap_found-IsCoherent))
          (Returns-then _ _ (Returns-then _ _ (rejected_empty-IsCoherent _)))

  swap_claim-IsCoherent :
      (existing : Option Lockfile) → Returns e (IsCoherent call) (swap_claim call existing)
  unfolding swap_claim
  swap_claim-IsCoherent none = rejected_empty-IsCoherent none
  swap_claim-IsCoherent (some existing) = swap_occupied-IsCoherent existing

-- A result of `swap` names its port, is a success exactly for `swapped` and `already_running`, has
-- the port state of its action, and the model that state stands for: the new model where the port
-- serves, the previous one where it is restored, none where it is unavailable. Where the port
-- serves or is restored the result has a pid. An ignored cancel is reported only on `swapped`, and
-- the result holds at most 200 log lines. This holds for every behaviour of the machine and of the
-- other processes.
pub swap-IsCoherent :
    (call : SwapCall) (e : Env) (w : World) {r : SwapResult}
    → (swap call e w).0 ≡ ok r
    → IsCoherent call r
unfolding swap
swap-IsCoherent call e w h = Returns-ok w (Returns-bind _ _ (swap_claim-IsCoherent call {e = e})) h
