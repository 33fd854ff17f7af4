-- ===== src/Operations/Preflight.antt =====
-- llauncher/operations/preflight.py: the optional checks, and the cap on the logs in a result.
-- A check returns whether it passed; its reason only goes into messages.
pub mod Vram
use llauncher.Base.{
  ℕ, ◌≤◌, Bool, false, true, Option, none, some, List, length, last, length-drop, leb, ◌-◌, arith,
  if◌then◌else◌,
}
use llauncher.Base.Text.{Text}
use llauncher.Records.{ModelConfig}
use llauncher.Host.{World, Env, Result, Exec, pure, step, attempt}

abbrev pub startup_log_tail_max : ℕ
startup_log_tail_max = 100

unfoldable pub tail_logs : List Text → List Text
tail_logs logs =
    if leb (length logs) startup_log_tail_max then logs else last startup_log_tail_max logs

-- A result carries at most 100 lines.
pub length-tail_logs : (logs : List Text) → length (tail_logs logs) ≤ startup_log_tail_max
unfolding tail_logs
length-tail_logs logs = ground (arith, length-drop {0} (length logs - startup_log_tail_max) logs)

-- A check is code that the caller gives. It reads the machine, and may raise.
abbrev pub PreflightCheck : Type 0
PreflightCheck = ModelConfig → Env → World → Result Bool

-- A check that is not given passes, and one that raises has failed.
unfoldable pub run_preflight_check : Option PreflightCheck → ModelConfig → Exec Bool
run_preflight_check none config = pure true
run_preflight_check (some check) config =
    attempt (step (λ e w. (check config e w, w))) pure (λ x. pure false)
