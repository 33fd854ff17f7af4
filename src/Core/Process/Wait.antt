-- ===== src/Core/Process/Wait.antt =====
-- llauncher/core/process.py, `wait_for_server_ready`, as the verbs call it: with the name of the
-- model and the handle of the child. The log file's tail is what the environment shows.
use llauncher.Base.{
  ℕ, zero, suc, ◌+◌, ◌-◌, Bool, true, false, Option, none, some, List, [], ◌∷◌, ◌++◌, ltb, any,
  String, not, if◌then◌else◌,
}
pub mod Returning
pub mod Ready
use llauncher.Base.Text.{Text, codes, has_infix, lower}
use llauncher.Host.{Exec, Exn, ok, pure, raise, reads, on_machine, ◌>>=◌, ◌>>◌}

-- `"\n".join(lines)`
unfoldable pub join_lines : List Text → Text
join_lines [] = []
join_lines (l ∷ []) = l
join_lines (l ∷ ls) = l ++ 10 ∷ join_lines ls

abbrev ready_indicators : List Text
ready_indicators =
    codes "listening"
    ∷ codes "server started"
    ∷ codes "ready to serve"
    ∷ codes "rest api listening"
    ∷ []

unfoldable pub looks_ready : List Text → Bool
unfolding join_lines
looks_ready logs = any (λ indicator. has_infix indicator (lower (join_lines logs))) ready_indicators

-- `new or old`
abbrev or_else : List Text → List Text → List Text
or_else [] old = old
or_else (l ∷ ls) old = l ∷ ls

abbrev pub run_check : Option (Exec Bool) → Exec Bool
run_check none = pure false
run_check (some check) = check

module _ (port : ℕ) (timeout : ℕ) (cancel_check : Option (Exec Bool)) (model_name : String)
    (pid : ℕ) where
  clock : Exec ℕ
  clock = reads (λ e w. w.machine.now)

  -- `time.sleep(check_interval)` with the interval of one second. The clock may be set meanwhile.
  nap : Exec (Unit {0})
  nap = on_machine (λ e t m. (ok tt, record m { now = e.after_nap t m.now }))

  attempt_logs : ℕ → Exec (List Text)
  attempt_logs n = reads (λ e w. e.log_lines w.tick port model_name n)

  give_up : List Text → Exec (Bool × List Text)
  unfolding attempt_logs
  give_up last_logs = do logs ← attempt_logs 50; pure (false, or_else logs last_logs)

  -- The log of a server whose port answers.
  probe_logs : Bool → Exec (Option (List Text))
  unfolding attempt_logs
  probe_logs false = pure none
  probe_logs true = do logs ← attempt_logs 20; pure (some logs)

  abbrev is_ready : Option (List Text) → Bool
  is_ready none = false
  is_ready (some logs) = looks_ready logs

  abbrev seen : Option (List Text) → List Text → List Text
  seen none last_logs = last_logs
  seen (some logs) last_logs = or_else logs last_logs

  -- `connect_ex` raises `OverflowError`, which is no `OSError`, for a port above 65535.
  connect : Exec Bool
  connect =
      if ltb 65535 port then raise Exn.overflow_error else reads (λ e w. e.connects w.tick port)

  wait_loop : ℕ → ℕ → List Text → Exec (Bool × List Text)
  unfolding clock nap give_up probe_logs connect
  wait_loop zero start_time last_logs = raise Exn.out_of_fuel
  wait_loop (suc fuel) start_time last_logs = do
    now ← clock
    if not (ltb (now - start_time) timeout) then give_up last_logs else do
      stop ← run_check cancel_check
      if stop then give_up last_logs else do
        over ← reads (λ e w. e.exited w.tick pid)
        if over then give_up last_logs else do
          port_ready ← connect
          logs ← probe_logs port_ready
          if is_ready logs
              then pure (true, seen logs [])
              else do nap; wait_loop fuel start_time (seen logs last_logs)

  -- The loop is followed for as many rounds as the environment says.
  unfoldable pub wait_for_server_ready : Exec (Bool × List Text)
  unfolding wait_loop clock
  wait_for_server_ready e = (do start_time ← clock; wait_loop e.rounds start_time []) e
