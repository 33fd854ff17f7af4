-- ===== src/Core/Marker.antt =====
-- llauncher/core/marker.py: the in-flight marker `{port}.swap`, made with O_EXCL.
pub mod Unmarked
pub mod Exclusive
use llauncher.Base.{ℕ, Bool, true, false, Option, none, some, String, nat_eq}
use llauncher.Base.Dict.{Dict, lookup, put, remove, has_key}
use llauncher.Records.{SwapMarker, Claim, valid}
use llauncher.Host.{
  World, Env, as_cancelled, Disk, fine, no_directory, no_space, Exec, Exn, Result, ok, err, pure,
  step, reads, ◌>>=◌,
}
use llauncher.Core.Files.{create_excl, parsed}
use llauncher.Core.Lockfile.{is_pid_alive}

abbrev pub new_marker : Env → ℕ → String → String → String → SwapMarker
new_marker e port caller from_model to_model = record {
  port = port;
  caller = caller;
  llauncher_pid = e.own_pid;
  from_model = from_model;
  to_model = to_model;
  cancelled = false;
}

abbrev pub stored_marker :
    SwapMarker → World → Result (Dict ℕ (Claim SwapMarker)) → Result SwapMarker × World
stored_marker m w (ok d) = (ok m, record w { swap_dir = d })
stored_marker m w (err x) = (err x, w)

abbrev pub take_step : ℕ → String → String → String → Env → World → Result SwapMarker × World
take_step port caller from_model to_model e w =
    let m = new_marker e port caller from_model to_model in
    stored_marker m w (create_excl (e.disk w.tick) port m w.swap_dir)

-- The arguments are the port, the caller and the two models.
unfoldable pub take_marker : ℕ → String → String → String → Exec SwapMarker
take_marker port caller from_model to_model = step (take_step port caller from_model to_model)

unfoldable pub read_marker : ℕ → Exec (Option SwapMarker)
read_marker port = reads (λ e w. parsed (lookup port w.swap_dir))

-- `path.unlink()`, of which only `FileNotFoundError` is caught.
abbrev pub unlinked : Bool → Bool → ℕ → World → Result Bool × World
unlinked false allowed port w = (ok false, w)
unlinked true true port w = (ok true, record w { swap_dir = remove port w.swap_dir })
unlinked true false port w = (err Exn.unlink_error, w)

unfoldable pub release_marker : ℕ → Exec Bool
release_marker port = step λ e w. unlinked (has_key port w.swap_dir) (e.unlinks w.tick) port w

-- The write to a temporary file and `os.replace`.
replaced : Disk → ℕ → SwapMarker → World → Result Bool × World
replaced fine port m w =
    (ok true, record w { swap_dir = put port (valid (as_cancelled m)) w.swap_dir })
replaced no_directory port m w = (err Exn.os_error, w)
replaced no_space port m w = (err Exn.os_error, w)

unfoldable pub replace_cancelled : ℕ → Option SwapMarker → Exec Bool
unfolding replaced
replace_cancelled port none = pure false
replace_cancelled port (some m) = step (λ e w. replaced (e.disk w.tick) port m w)

-- The read and the replacement are two steps: another process may come between.
unfoldable pub request_cancel : ℕ → Exec Bool
unfolding read_marker replace_cancelled
request_cancel port = do existing ← read_marker port; replace_cancelled port existing

-- `marker is not None and marker.cancelled`
abbrev pub flagged : Option SwapMarker → Bool
flagged none = false
flagged (some m) = m.cancelled

unfoldable pub is_cancelled : ℕ → Exec Bool
unfolding read_marker
is_cancelled port = do m ← read_marker port; pure (flagged m)

-- `reconcile_marker(m).owner_alive`
unfoldable pub reconcile_marker : SwapMarker → Exec Bool
reconcile_marker m = is_pid_alive m.llauncher_pid
