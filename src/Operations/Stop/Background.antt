-- ===== src/Operations/Stop/Background.antt =====
-- llauncher/operations/stop.py, `stop_in_background` and the registry of the stops in flight. The
-- state is this process's registry and its worker threads, and a thread always starts.
pub mod Consistent
pub mod Inflight
pub mod Finished
use llauncher.Base.{
  ℕ, ◌+◌, Bool, true, false, Option, none, some, String, nat_eq, ◌==◌, if◌then◌else◌, Eq,
}
use llauncher.Base.Dict.{Dict, lookup, put, remove}
use llauncher.Records.{Lockfile}
use llauncher.Host.{Exec, pure, attempt, ◌>>=◌}
use llauncher.Operations.Stop.{
  StopResult, StopAction, Check, early, live, about, reconcile_for_stop, terminate,
}

-- Where a worker thread is: in `_terminate`, before the `finally` block's lock, past it, or dead.
pub data Phase : Type 0 where
  terminating reaping leaving ended : Phase

pub record Worker : Type 0 where
  pub port : ℕ
  pub existing : Lockfile
  pub caller : String
  pub phase : Phase

pub record Registry : Type 0 where
  pub inflight : Dict ℕ ℕ
  pub workers : Dict ℕ Worker
  pub next_thread : ℕ

unfoldable pub alive : Phase → Bool
alive Phase.ended = false
alive _ = true

-- `thread.is_alive()`
unfoldable pub is_alive : ℕ → Registry → Bool
unfolding alive
is_alive thread r = elim (lookup thread r.workers) [
  | none ↦ false
  | some worker ↦ alive worker.phase
]

-- `_inflight[port] = thread; thread.start()`
unfoldable pub spawn_worker : ℕ → String → Lockfile → Registry → Registry
spawn_worker port caller existing r = record r {
  inflight = put port r.next_thread r.inflight;
  workers =
      put r.next_thread
        (record { port = port; existing = existing; caller = caller; phase = Phase.terminating })
        r.workers;
  next_thread = r.next_thread + 1;
}

-- What is done under the lock.
unfoldable pub register : ℕ → String → Lockfile → Registry → Option ℕ → Registry
unfolding spawn_worker is_alive
register port caller existing r none = spawn_worker port caller existing r
register port caller existing r (some pending) =
    if is_alive pending r then r else spawn_worker port caller existing r

module _ (port : ℕ) (caller : String) (r : Registry) where
  accept : Check → StopResult × Registry
  unfolding register
  accept (early result) = (result, r)
  accept (live existing) = (
    about port caller true StopAction.stopping existing,
    register port caller existing r (lookup port r.inflight),
  )

  unfoldable pub stop_in_background : Exec (StopResult × Registry)
  unfolding accept
  stop_in_background = do found ← reconcile_for_stop port caller; pure (accept found)

abbrev pub in_phase : ℕ → Worker → Phase → Registry → Registry
in_phase thread worker phase r = record r {
  workers = put thread (record worker { phase = phase }) r.workers;
}

-- `if _inflight.get(port) is threading.current_thread(): del _inflight[port]`
unfoldable pub reap : ℕ → ℕ → Registry → Option ℕ → Registry
reap thread port r none = r
reap thread port r (some registered) =
    if registered == thread then record r { inflight = remove port r.inflight } else r

-- The next step of a worker thread, `_run`.
unfoldable pub advance : ℕ → Worker → Phase → Registry → Exec Registry
unfolding reap
advance thread worker Phase.terminating r =
    attempt (terminate worker.port worker.caller worker.existing)
      (λ _. pure (in_phase thread worker Phase.reaping r))
      (λ _. pure (in_phase thread worker Phase.reaping r))
advance thread worker Phase.reaping r = pure (
    in_phase thread worker Phase.leaving
      (reap thread worker.port r (lookup worker.port r.inflight)))
advance thread worker Phase.leaving r = pure (in_phase thread worker Phase.ended r)
advance thread worker Phase.ended r = pure r

-- `wait_for_stop`, called in one state and back in a later one.
unfoldable pub wait_for_stop : ℕ → Registry → Registry → Bool
wait_for_stop port r later = elim (lookup port r.inflight) [
  | none ↦ true
  | some thread ↦ if is_alive thread later then false else true
]

-- `join_inflight_stop`, likewise.
unfoldable pub join_inflight_stop : ℕ → Registry → Registry → Bool
join_inflight_stop port r later = elim (lookup port r.inflight) [
  | none ↦ false
  | some thread ↦ if is_alive thread later then false else true
]
