-- ===== src/Core/Process/Start.antt =====
-- llauncher/core/process.py, `start_server`. The log file that the child writes to is not modelled.
use llauncher.Base.{ℕ, Bool, true, false, Option, none, some, List, [], ◌∷◌, ◌++◌}
use llauncher.Base.Text.{Text}
use llauncher.Records.{ModelConfig}
use llauncher.Host.{Env, Machine, spawn, Exec, Exn, Result, ok, err, on_machine}
use llauncher.Core.Process.Command.{build_command}

-- `subprocess.Popen`, and the purge of the process-scan cache behind it.
popened : ℕ → ModelConfig → Option ℕ → Machine → Result ℕ × Machine
popened port config none m = (err Exn.os_error, m)
popened port config (some pid) m = (
  ok pid,
  record m { signals = m.signals ++ spawn pid port config.name ∷ []; scan_cached = false },
)

launched : ℕ → ModelConfig → Option ℕ → Result (List Text) → Machine → Result ℕ × Machine
unfolding popened
launched port config popen (ok cmd) m = popened port config popen m
launched port config popen (err x) m = (err x, m)

unfoldable pub start_on :
    Bool → Result (List Text) → ModelConfig → ℕ → Option ℕ → Machine → Result ℕ × Machine
unfolding launched
start_on false cmd config port popen m = (err Exn.file_not_found, m)
start_on true cmd config port popen m = launched port config popen cmd m

abbrev pub start_step : ModelConfig → ℕ → Env → ℕ → Machine → Result ℕ × Machine
start_step config port e t m =
    start_on (e.binary_exists t) (build_command e.binary_path config port) config port (e.popen t) m

-- The pid of the child.
unfoldable pub start_server : ModelConfig → ℕ → Exec ℕ
start_server config port = on_machine (start_step config port)
