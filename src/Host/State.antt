-- ===== src/Host/State.antt =====
-- The state that an operation reads and changes, and what other processes do to it meanwhile.
use llauncher.Base.{ℕ, Bool, true, Option, List, [], ◌∷◌, String, nat_eq, if◌then◌else◌}
use llauncher.Base.Text.{Text}
use llauncher.Base.Dict.{Dict, put, remove, has_key}
use llauncher.Records.{ModelConfig, Lockfile, SwapMarker, Claim, valid, AuditEntry}

-- config.json: not there, unreadable, no JSON, or the entries that load.
pub data ConfigFile : Type 0 where
  absent unreadable malformed : ConfigFile
  entries : Dict String ModelConfig → ConfigFile

-- What was done to processes, newest last.
pub data Signal : Type 0 where
  spawn : ℕ → ℕ → String → Signal
  terminate kill : ℕ → Signal

-- What only this machine's processes and this process's memory hold. `now` is in seconds.
pub record Machine : Type 0 where
  pub signals : List Signal
  pub scan_cached : Bool
  pub now : ℕ

pub record World : Type 0 where
  pub lock_dir : Dict ℕ (Claim Lockfile)
  pub swap_dir : Dict ℕ (Claim SwapMarker)
  pub config : ConfigFile
  pub audit : List AuditEntry
  pub machine : Machine
  pub tick : ℕ

-- An atomic step of another process on the shared files. A `cancel_mark` is the `os.replace` of a
-- cancel request, with the marker that it has read before, whether or not that one is still there.
pub data Act : Type 0 where
  write_lock : ℕ → Lockfile → Act
  drop_lock : ℕ → Act
  take_mark : ℕ → SwapMarker → Act
  drop_mark : ℕ → Act
  cancel_mark : ℕ → SwapMarker → Act
  edit_config : ConfigFile → Act

-- `open(path, O_CREAT | O_EXCL)`: a file that is there stays as it is.
abbrev pub claim {ℓ} : {V : Type ℓ} → ℕ → V → Dict ℕ V → Dict ℕ V
claim k v d = if has_key k d then d else put k v d

-- The marker that a cancel request writes over the one that it has read.
abbrev pub as_cancelled : SwapMarker → SwapMarker
as_cancelled m = record m { cancelled = true }

unfoldable pub apply_act : Act → World → World
apply_act (write_lock p l) w = record w { lock_dir = claim p (valid l) w.lock_dir }
apply_act (drop_lock p) w = record w { lock_dir = remove p w.lock_dir }
apply_act (take_mark p m) w = record w { swap_dir = claim p (valid m) w.swap_dir }
apply_act (drop_mark p) w = record w { swap_dir = remove p w.swap_dir }
apply_act (cancel_mark p m) w = record w { swap_dir = put p (valid (as_cancelled m)) w.swap_dir }
apply_act (edit_config c) w = record w { config = c }

unfoldable pub apply_acts : List Act → World → World
unfolding apply_act
apply_acts [] w = w
apply_acts (a ∷ as') w = apply_acts as' (apply_act a w)

-- psutil's view of one pid.
pub data Sight : Type 0 where
  gone zombie denied running : Sight

-- What reading a process's argv gives.
pub data Argv : Type 0 where
  argv_gone argv_denied : Argv
  argv : List Text → Argv

-- A row of `psutil.process_iter(["pid", "name"])`.
pub record Row : Type 0 where
  pub pid : ℕ
  pub name : Text
  pub cmdline : Argv

-- How a process takes SIGTERM: it was gone, may not be signalled, ends in time, or outlives it.
pub data Fate : Type 0 where
  fate_gone fate_denied obeys outlives : Fate

-- How a write to the run directory ends.
pub data Disk : Type 0 where
  fine no_directory no_space : Disk

-- All that the program cannot decide, by the number of the step at which it asks.
pub record Env : Type 0 where
  pub own_pid : ℕ
  pub acts : ℕ → List Act
  pub sight : ℕ → ℕ → Sight
  pub table : ℕ → List Row
  pub children : ℕ → ℕ → Option (List ℕ)
  pub fate : ℕ → ℕ → Fate
  pub disk : ℕ → Disk
  pub audit_writable : ℕ → Bool
  pub binary_path : Text
  pub binary_exists : ℕ → Bool
  pub popen : ℕ → Option ℕ
  pub exited : ℕ → ℕ → Bool
  pub connects : ℕ → ℕ → Bool
  pub log_lines : ℕ → ℕ → String → ℕ → List Text
  -- What the clock shows after a sleep of one second, by what it showed before.
  pub after_nap : ℕ → ℕ → ℕ
  -- How often the readiness poll is followed round its loop.
  pub rounds : ℕ
  -- Whether a marker that is there can be unlinked, and a lockfile opened.
  pub unlinks : ℕ → Bool
  pub opens : ℕ → ℕ → Bool
