-- ===== src/Core/Process/Stop.antt =====
-- llauncher/core/process.py, `stop_server_by_pid` and `stop_server_by_port`.
pub mod Denied
use llauncher.Base.{ℕ, Bool, true, false, Option, none, some, List, [], ◌∷◌, ◌++◌}
use llauncher.Host.{
  Env, Machine, Signal, terminate, kill, Sight, gone, zombie, denied, running, Fate, fate_gone,
  fate_denied, obeys, outlives, Exec, Exn, Result, ok, err, pure, on_machine, reads, ◌>>=◌,
}
use llauncher.Core.Process.Scan.{find_server_by_port}

-- How the loops over the children end: all signalled, one gone (`NoSuchProcess` leaves the inner
-- `try`), or one that may not be signalled. The signals so far come with it.
pub data Family : Type 0 where
  done vanished refused : List Signal → Family

also : Signal → Family → Family
also s (done l) = done (s ∷ l)
also s (vanished l) = vanished (s ∷ l)
also s (refused l) = refused (s ∷ l)

-- `child.kill()` for those that outlive the grace period.
kill_survivors : (ℕ → Fate) → List ℕ → List Signal
kill_survivors fate [] = []
kill_survivors fate (c ∷ cs) = elim (fate c) [
  | outlives ↦ kill c ∷ kill_survivors fate cs
  | _ ↦ kill_survivors fate cs
]

terminate_children : (ℕ → Fate) → List ℕ → List ℕ → Family
unfolding kill_survivors also
terminate_children fate every [] = done (kill_survivors fate every)
terminate_children fate every (c ∷ cs) = elim (fate c) [
  | fate_gone ↦ vanished []
  | fate_denied ↦ refused []
  | _ ↦ also (terminate c) (terminate_children fate every cs)
]

unfoldable pub family : (ℕ → Fate) → Option (List ℕ) → Family
unfolding terminate_children
family fate none = vanished []
family fate (some cs) = terminate_children fate cs cs

abbrev signalled : List Signal → Machine → Machine
signalled l m = record m { signals = m.signals ++ l }

-- SIGTERM to the process itself, SIGKILL when its grace is over, and the purge of the scan cache.
stop_main : ℕ → Fate → Machine → Result Bool × Machine
stop_main pid fate_gone m = (ok false, m)
stop_main pid fate_denied m = (err Exn.access_denied, m)
stop_main pid obeys m = (ok true, record (signalled (terminate pid ∷ []) m) { scan_cached = false })
stop_main pid outlives m =
    (ok true, record (signalled (terminate pid ∷ kill pid ∷ []) m) { scan_cached = false })

stop_tree : ℕ → Fate → Family → Machine → Result Bool × Machine
unfolding stop_main
stop_tree pid fate (done l) m = stop_main pid fate (signalled l m)
stop_tree pid fate (vanished l) m = stop_main pid fate (signalled l m)
stop_tree pid fate (refused l) m = (err Exn.access_denied, signalled l m)

unfoldable pub stop_seen : Sight → ℕ → Fate → Family → Machine → Result Bool × Machine
unfolding stop_tree
stop_seen gone pid fate fam m = (ok false, m)
stop_seen zombie pid fate fam m = stop_tree pid fate fam m
stop_seen denied pid fate fam m = stop_tree pid fate fam m
stop_seen running pid fate fam m = stop_tree pid fate fam m

abbrev pub stop_step : ℕ → Env → ℕ → Machine → Result Bool × Machine
stop_step pid e t m =
    stop_seen (e.sight t pid) pid (e.fate t pid) (family (e.fate t) (e.children t pid)) m

-- True if the process was stopped, false if it was not found.
unfoldable pub stop_server_by_pid : ℕ → Exec Bool
stop_server_by_pid pid = on_machine (stop_step pid)

unfoldable pub stop_found : Option ℕ → Exec Bool
unfolding stop_server_by_pid
stop_found none = pure false
stop_found (some pid) = stop_server_by_pid pid

unfoldable pub stop_server_by_port : ℕ → Exec Bool
unfolding stop_found
stop_server_by_port port = do
  found ← reads (λ e w. find_server_by_port e.binary_path port (e.table w.tick))
  stop_found found
