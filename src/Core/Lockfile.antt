-- ===== src/Core/Lockfile.antt =====
-- llauncher/core/lockfile.py: one claim for each port, `{port}.lock`, made with O_EXCL.
pub mod Claimed
use llauncher.Base.{
  ℕ, Bool, true, false, Option, List, [], ◌∷◌, ◌++◌, String, nat_eq, if◌then◌else◌, all,
}
use llauncher.Base.Text.{Text, decimal, text_lt}
use llauncher.Base.Dict.{Dict, lookup, remove, has_key}
use llauncher.Records.{Lockfile, Claim, valid, corrupt}
use llauncher.Host.{
  World, Env, Sight, gone, zombie, denied, running, Exec, Result, ok, err, pure, step, reads, ◌>>=◌,
  Exn,
}
use llauncher.Core.Files.{create_excl, parsed}

pub record ReconcileResult : Type 0 where
  pub lockfile : Lockfile
  pub pid_alive : Bool
  pub is_ours : Bool

abbrev pub new_lockfile : Env → ℕ → String → ℕ → Lockfile
new_lockfile e port model pid = record {
  pid = pid;
  model = model;
  port = port;
  llauncher_pid = e.own_pid;
}

abbrev pub stored_lockfile :
    Lockfile → World → Result (Dict ℕ (Claim Lockfile)) → Result Lockfile × World
stored_lockfile lf w (ok d) = (ok lf, record w { lock_dir = d })
stored_lockfile lf w (err x) = (err x, w)

abbrev pub write_step : ℕ → String → ℕ → Env → World → Result Lockfile × World
write_step port model pid e w =
    let lf = new_lockfile e port model pid in
    stored_lockfile lf w (create_excl (e.disk w.tick) port lf w.lock_dir)

unfoldable pub write_lockfile : ℕ → String → ℕ → Exec Lockfile
write_lockfile port model pid = step (write_step port model pid)

unfoldable pub read_lockfile : ℕ → Exec (Option Lockfile)
read_lockfile port = reads (λ e w. parsed (lookup port w.lock_dir))

unfoldable pub remove_lockfile : ℕ → Exec Bool
remove_lockfile port =
    step λ e w. (ok (has_key port w.lock_dir), record w { lock_dir = remove port w.lock_dir })

abbrev file_name : ℕ → Text
file_name port = decimal port ++ b'.' ∷ b'l' ∷ b'o' ∷ b'c' ∷ b'k' ∷ []

insert_file : ℕ × Claim Lockfile → Dict ℕ (Claim Lockfile) → Dict ℕ (Claim Lockfile)
insert_file f [] = f ∷ []
insert_file f (g ∷ d) =
    if text_lt (file_name f.0) (file_name g.0) then f ∷ g ∷ d else g ∷ insert_file f d

-- `sorted(base.glob("*.lock"))`
unfoldable pub sort_files : Dict ℕ (Claim Lockfile) → Dict ℕ (Claim Lockfile)
unfolding insert_file
sort_files [] = []
sort_files (f ∷ d) = insert_file f (sort_files d)

-- The files that parse.
unfoldable pub parse_files : Dict ℕ (Claim Lockfile) → List Lockfile
parse_files [] = []
parse_files ((p, valid lf) ∷ d) = lf ∷ parse_files d
parse_files ((p, corrupt) ∷ d) = parse_files d

abbrev pub listed : World → List Lockfile
listed w = parse_files (sort_files w.lock_dir)

-- An `OSError` from the opening of a file is not caught.
abbrev pub listing : Env → World → Result (List Lockfile)
listing e w = if all (λ f. e.opens w.tick f.0) w.lock_dir then ok (listed w) else err Exn.os_error

unfoldable pub list_lockfiles : Exec (List Lockfile)
list_lockfiles = step (λ e w. (listing e w, w))

-- A process that may not be read is there, and counts as alive.
abbrev pub alive : Sight → Bool
alive gone = false
alive zombie = false
alive denied = true
alive running = true

unfoldable pub is_pid_alive : ℕ → Exec Bool
is_pid_alive pid = reads (λ e w. alive (e.sight w.tick pid))

-- No caller under `operations` passes a `sentinel_check`.
unfoldable pub reconcile_lockfile : Lockfile → Exec ReconcileResult
unfolding is_pid_alive
reconcile_lockfile lf = do
  live ← is_pid_alive lf.pid
  pure (record { lockfile = lf; pid_alive = live; is_ours = live })
