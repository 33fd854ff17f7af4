-- ===== src/Operations/Swap/Restored.antt =====
-- What makes a result of `swap` consistent, and that phases 4 and 5 and the ways back give such.
use llauncher.Base.{
  ℕ, Bool, true, false, Option, none, some, List, String, length, ◌≡◌, ◌≤◌, arith, length-append,
}
use llauncher.Base.Text.{Text}
use llauncher.Records.{ModelConfig}
use llauncher.Host.{Env, Exn, Exec, ◌>>=◌}
use llauncher.Host.Hoare.{Returns, Hoare-if, Hoare-bind}
use llauncher.Host.Frame.{
  Returns-pure, Returns-raise, Returns-if, Returns-attempt, Returns-bind, Returns-then,
}
use llauncher.Operations.Preflight.{length-tail_logs}
use llauncher.Operations.Start.{is_launch_error}
use llauncher.Operations.Swap.Types.{SwapAction, PortState, SwapResult, SwapCall}
use llauncher.Operations.Swap.Launch.{
  Launch, launch_and_await_ready, claim_launched, await_ready, unready, not_claimed, not_launched,
}
use llauncher.Operations.Swap.Restore.{
  handle_cancel_during_swap, launch_new, port_dead, relaunch, cancel_restored, rolled_back,
  roll_back, swap_complete,
}

abbrev pub is_success : SwapAction → Bool
is_success SwapAction.swapped = true
is_success SwapAction.already_running = true
is_success _ = false

abbrev pub state_after : SwapAction → PortState
state_after SwapAction.swapped = PortState.serving
state_after SwapAction.already_running = PortState.serving
state_after SwapAction.rolled_back = PortState.restored
state_after SwapAction.cancelled = PortState.restored
state_after SwapAction.failed = PortState.unavailable
state_after _ = PortState.unchanged

pub record IsCoherent (call : SwapCall) (r : SwapResult) : Type 0 where
  pub same_port : r.port ≡ call.port
  pub by_action : r.success ≡ is_success r.action
  pub in_state : r.port_state ≡ state_after r.action
  pub serves : r.port_state ≡ PortState.serving → r.model ≡ some call.model_name
  pub restores : r.port_state ≡ PortState.restored → r.model ≡ r.previous_model
  pub lost : r.port_state ≡ PortState.unavailable → (r.model ≡ none) × (r.pid ≡ none)
  pub has_pid : r.success ≡ true → (p : ℕ) × (r.pid ≡ some p)
  pub pid_back : r.port_state ≡ PortState.restored → (p : ℕ) × (r.pid ≡ some p)
  pub late_cancel : r.cancel_ignored_post_commit ≡ true → r.action ≡ SwapAction.swapped
  pub few_logs : length r.startup_logs ≤ 200

-- A launch that is ready has a pid, and every launch at most 100 log lines.
record IsLaunch (l : Launch) : Type 0 where
  launched_pid : l.ready ≡ true → (p : ℕ) × (l.pid ≡ some p)
  launch_logs : length l.logs ≤ 100

module _ {e : Env} (config : ModelConfig) (port readiness_timeout : ℕ)
    (check : Option (Exec Bool)) where
  await-IsLaunch :
      (pid : ℕ) → Returns e IsLaunch (await_ready config port readiness_timeout check pid)
  unfolding await_ready unready
  await-IsLaunch pid = Returns-bind _ _ λ (ready, logs).
      Returns-if ready _ _ (Returns-pure _ (ground (arith, length-tail_logs logs))) (
        Returns-bind _ _ λ stopped.
          Returns-then _ _
            (Returns-then _ _ (Returns-pure _ (ground (arith, length-tail_logs logs)))))

  not_claimed-IsLaunch :
      (pid : ℕ) (x : Exn)
      → Returns e IsLaunch (not_claimed config port readiness_timeout check pid x)
  unfolding not_claimed
  not_claimed-IsLaunch pid Exn.file_exists = Returns-then _ _ (Returns-pure _ (ground arith))
  not_claimed-IsLaunch pid x = Returns-raise x

  launch_and_await_ready-IsLaunch :
      Returns e IsLaunch (launch_and_await_ready config port readiness_timeout check)
  unfolding launch_and_await_ready claim_launched not_launched
  launch_and_await_ready-IsLaunch =
      Returns-attempt _ _ _
        (λ pid. Returns-attempt _ _ _ (λ lf. await-IsLaunch pid) (not_claimed-IsLaunch pid))
        (λ x. Returns-if (is_launch_error x) _ _ (Returns-pure _ (ground arith)) (Returns-raise x))

-- What is known of the value of the first action serves the second.
Returns-value :
    {A B : Type 0} {e : Env} {F : A → Type 0} {Q : B → Type 0} (m : Exec A) (f : A → Exec B)
    → Returns e F m
    → ((a : A) → F a → Returns e Q (f a))
    → Returns e Q (m >>= f)
Returns-value m f hm hf = Hoare-bind m f hm (λ a. record { at = λ w h. (hf a h).at w tt })

module _ (call : SwapCall) (previous : String) (old : ModelConfig) {e : Env} where
  port_dead-IsCoherent :
      (logs : List Text)
      → length logs ≤ 200
      → Returns e (IsCoherent call) (port_dead call previous old logs)
  unfolding port_dead
  port_dead-IsCoherent logs h = Returns-then _ _ (Returns-pure _ (ground arith))

  cancel_restored-IsCoherent :
      (back : Launch)
      → IsLaunch back
      → Returns e (IsCoherent call) (cancel_restored call previous old back)
  unfolding cancel_restored
  cancel_restored-IsCoherent back h =
      Hoare-if back.ready _ _
        (λ b. Returns-then _ _ (Returns-pure _ (ground (arith, h.launched_pid, h.launch_logs))))
        (λ b. port_dead-IsCoherent _ (ground (arith, h.launch_logs)))

  pub handle_cancel-IsCoherent :
      Returns e (IsCoherent call) (handle_cancel_during_swap call previous old)
  unfolding handle_cancel_during_swap relaunch
  handle_cancel-IsCoherent =
      Returns-then _ _
        (Returns-value _ _ (launch_and_await_ready-IsLaunch _ _ _ _) cancel_restored-IsCoherent)

  rolled_back-IsCoherent :
      (cancel : Bool) (logs : List Text) (back : Launch)
      → length logs ≤ 100
      → IsLaunch back
      → Returns e (IsCoherent call) (rolled_back call previous old cancel logs back)
  unfolding rolled_back
  rolled_back-IsCoherent cancel logs back h hb =
      Hoare-if back.ready _ _
        (λ b.
          Returns-then _ _
            (Returns-then _ _ (Returns-pure _ (ground (arith, hb.launched_pid, hb.launch_logs)))))
        (λ b. port_dead-IsCoherent _ (ground (arith, hb.launch_logs, length-append logs back.logs)))

  pub launch_new-IsCoherent :
      (config : ModelConfig) → Returns e (IsCoherent call) (launch_new call previous old config)
  unfolding launch_new roll_back relaunch swap_complete
  launch_new-IsCoherent config =
      Returns-value _ _ (launch_and_await_ready-IsLaunch config _ _ _) λ new h.
        Hoare-if new.ready _ _
          (λ b. Returns-bind _ _ λ late.
            Returns-then _ _
              (Returns-then _ _ (Returns-pure _ (ground (arith, h.launched_pid, h.launch_logs)))))
          (λ b. Returns-then _ _ (
            Returns-value _ _ (launch_and_await_ready-IsLaunch old _ _ _)
              (λ back. rolled_back-IsCoherent _ new.logs back h.launch_logs)))
