-- ===== src/Operations/Start/Kept.antt =====
-- The parts of `start` that always return.
use llauncher.Base.{sym, ℕ, Option, none, some, ◌≡◌}
use mathlib.Core.Path.{subst}
use llauncher.Records.{ModelConfig}
use llauncher.Host.{World, Env, Exn}
use llauncher.Host.Hoare.{Stable, Hoare-attempt, Hoare-given}
use llauncher.Host.Framed.{Framed, Keeps-looks}
use llauncher.Host.Safely.{Safely, Safely-pure}
use llauncher.Core.Process.Stop.Denied.{Hoare-stop_server_by_pid}
use llauncher.Operations.Preflight.{PreflightCheck, run_preflight_check}
use llauncher.Operations.Start.{teardown, tolerate_denied}

module _ {e : Env} {P : World → Type 0} where
  tolerated : (x : Exn) → x ≡ Exn.access_denied → Safely e P (tolerate_denied x)
  unfolding tolerate_denied
  tolerated x h = subst (λ x. Safely e P (tolerate_denied x)) (sym h) (Safely-pure tt)

  -- A teardown returns, whether the process may be signalled or not.
  pub Safely-teardown : Framed e P → (pid : ℕ) → Safely e P (teardown pid)
  unfolding teardown
  Safely-teardown fr pid =
      Hoare-attempt _ _ _ (Hoare-stop_server_by_pid fr pid) (λ stopped. Safely-pure tt)
        (λ x. Hoare-given (tolerated x))

  pub Safely-run_preflight_check :
      Stable e P
      → (check : Option PreflightCheck) (config : ModelConfig)
      → Safely e P (run_preflight_check check config)
  unfolding run_preflight_check
  Safely-run_preflight_check s none config = Safely-pure _
  Safely-run_preflight_check s (some check) config =
      Hoare-attempt _ _ _ (Keeps-looks (check config) s) Safely-pure (λ x. Safely-pure _)
