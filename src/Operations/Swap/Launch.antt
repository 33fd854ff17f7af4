-- ===== src/Operations/Swap/Launch.antt =====
-- llauncher/operations/swap.py, `_launch_and_await_ready`: start a model on the port, claim the
-- port, wait for the server, and clean up after a failure.
use llauncher.Base.{ℕ, Bool, true, false, Option, none, some, List, [], if◌then◌else◌}
use llauncher.Base.Text.{Text}
use llauncher.Records.{ModelConfig}
use llauncher.Host.{Exec, Exn, pure, raise, attempt, ◌>>=◌, ◌>>◌}
use llauncher.Core.Lockfile.{write_lockfile, remove_lockfile}
use llauncher.Core.Process.Start.{start_server}
use llauncher.Core.Process.Wait.{wait_for_server_ready, run_check}
use llauncher.Operations.Preflight.{tail_logs}
use llauncher.Operations.Start.{is_launch_error, teardown}

-- The kinds of `error_message`; the empty string is `no_failure`.
pub data Failure : Type 0 where
  no_failure launch_failed lockfile_race cancelled readiness_timeout : Failure

pub record Launch : Type 0 where
  pub ready : Bool
  pub pid : Option ℕ
  pub logs : List Text
  pub failure : Failure

module _ (config : ModelConfig) (port : ℕ) (readiness_timeout : ℕ)
    (cancel_check : Option (Exec Bool)) where
  unfoldable pub not_launched : Exn → Exec Launch
  not_launched x =
      if is_launch_error x
      then pure (record { ready = false; pid = none; logs = []; failure = Failure.launch_failed })
      else raise x

  -- Other errors of the write leave the child running, without a claim.
  unfoldable pub not_claimed : ℕ → Exn → Exec Launch
  not_claimed pid Exn.file_exists = do
    teardown pid
    pure (record { ready = false; pid = some pid; logs = []; failure = Failure.lockfile_race })
  not_claimed pid x = raise x

  unfoldable pub unready : ℕ → List Text → Exec Launch
  unready pid startup_logs = do
    stopped ← run_check cancel_check
    teardown pid
    remove_lockfile port
    pure (record {
      ready = false;
      pid = some pid;
      logs = tail_logs startup_logs;
      failure = if stopped then Failure.cancelled else Failure.readiness_timeout;
    })

  unfoldable pub await_ready : ℕ → Exec Launch
  unfolding unready
  await_ready pid = do
    (ready, startup_logs) ←
        wait_for_server_ready port readiness_timeout cancel_check config.name pid
    if ready
        then pure (record {
          ready = true;
          pid = some pid;
          logs = tail_logs startup_logs;
          failure = Failure.no_failure;
        })
        else unready pid startup_logs

  unfoldable pub claim_launched : ℕ → Exec Launch
  unfolding await_ready not_claimed
  claim_launched pid =
      attempt (write_lockfile port config.name pid) (λ lf. await_ready pid) (not_claimed pid)

  unfoldable pub launch_and_await_ready : Exec Launch
  unfolding claim_launched not_launched
  launch_and_await_ready = attempt (start_server config port) claim_launched not_launched
