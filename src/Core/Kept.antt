-- ===== src/Core/Kept.antt =====
-- What each operation of the core leaves alone, for any predicate that the other processes keep.
use llauncher.Base.{Bool, nat_eq, ℕ, false, Option, none, some, String, true}
use llauncher.Base.Dict.{remove, has_key, Dict, lookup}
use llauncher.Records.{ModelConfig, Lockfile, SwapMarker, Claim}
use llauncher.Host.{World, Env, Result, ok, err}
use llauncher.Host.Hoare.{Post, Keeps, Stable, Hoare-step}
use llauncher.Host.Frame.{Keeps-pure, Keeps-reads, Keeps-bind}
use llauncher.Host.Framed.{Framed, Keeps-looks, Keeps-on_machine}
use llauncher.Host.Safely.{Safely, Safely-pure, Safely-reads, Safely-bind}
use llauncher.Core.Files.{create_excl, parsed}
use llauncher.Core.Lockfile.{
  stored_lockfile, write_step, new_lockfile, write_lockfile, read_lockfile, remove_lockfile,
  reconcile_lockfile, is_pid_alive, alive,
}
use llauncher.Core.Marker.{
  unlinked, stored_marker, take_step, new_marker, take_marker, release_marker, read_marker,
  is_cancelled, reconcile_marker,
}
use llauncher.Core.Config.{load, loaded, get_model}
use llauncher.Core.Process.Scan.{find_server_by_port}
use llauncher.Core.Process.Start.{start_server, start_step}
use llauncher.Core.Process.Stop.{stop_server_by_pid, stop_server_by_port, stop_found, stop_step}
use llauncher.Core.Process.Wait.Returning.{Looks}

module _ {e : Env} {P : World → Type 0} (s : Stable e P) where
  pub Safely-read_lockfile : (port : ℕ) → Safely e P (read_lockfile port)
  unfolding read_lockfile
  Safely-read_lockfile port = Safely-reads (λ e w. parsed (lookup port w.lock_dir)) s

  pub Safely-is_pid_alive : (pid : ℕ) → Safely e P (is_pid_alive pid)
  unfolding is_pid_alive
  Safely-is_pid_alive pid = Safely-reads (λ e w. alive (e.sight w.tick pid)) s

  pub Safely-reconcile_lockfile : (lf : Lockfile) → Safely e P (reconcile_lockfile lf)
  unfolding reconcile_lockfile
  Safely-reconcile_lockfile lf =
      Safely-bind _ _ (Safely-is_pid_alive lf.pid) (λ live. Safely-pure _)

  pub Safely-read_marker : (port : ℕ) → Safely e P (read_marker port)
  unfolding read_marker
  Safely-read_marker port = Safely-reads (λ e w. parsed (lookup port w.swap_dir)) s

  pub Safely-is_cancelled : (port : ℕ) → Safely e P (is_cancelled port)
  unfolding is_cancelled
  Safely-is_cancelled port = Safely-bind _ _ (Safely-read_marker port) (λ m. Safely-pure _)

  pub Safely-reconcile_marker : (m : SwapMarker) → Safely e P (reconcile_marker m)
  unfolding reconcile_marker
  Safely-reconcile_marker m = Safely-is_pid_alive m.llauncher_pid

  pub Keeps-load : Keeps e P load
  unfolding load
  Keeps-load = Keeps-looks (λ e w. loaded w.config) s

  pub Keeps-get_model : (name : String) → Keeps e P (get_model name)
  unfolding get_model
  Keeps-get_model name = Keeps-bind _ _ Keeps-load (λ models. Keeps-pure _)

pub Looks-none : {e : Env} → Looks e none
Looks-none = record { looks = λ s. Safely-pure false }

pub Looks-is_cancelled : {e : Env} (port : ℕ) → Looks e (some (is_cancelled port))
Looks-is_cancelled port = record { looks = λ s. Safely-is_cancelled s port }

module _ {e : Env} {P : World → Type 0} (fr : Framed e P) where
  pub Keeps-start_server : (config : ModelConfig) (port : ℕ) → Keeps e P (start_server config port)
  unfolding start_server
  Keeps-start_server config port = Keeps-on_machine (start_step config port) fr

  Keeps-stop_found : (found : Option ℕ) → Keeps e P (stop_found found)
  unfolding stop_found stop_server_by_pid
  Keeps-stop_found none = Keeps-pure false
  Keeps-stop_found (some pid) = Keeps-on_machine (stop_step pid) fr

  pub Keeps-stop_server_by_port : (port : ℕ) → Keeps e P (stop_server_by_port port)
  unfolding stop_server_by_port
  Keeps-stop_server_by_port port =
      Keeps-bind _ _
        (Keeps-reads (λ e w. find_server_by_port e.binary_path port (e.table w.tick)) fr.stable)
        Keeps-stop_found

-- Predicates that do not look at the lockfiles.
abbrev pub LockFree : (World → Type 0) → Type 0
LockFree P = (w : World) (d : Dict ℕ (Claim Lockfile)) → P w → P (record w { lock_dir = d })

-- Predicates that do not look at the markers.
abbrev pub MarkFree : (World → Type 0) → Type 0
MarkFree P = (w : World) (d : Dict ℕ (Claim SwapMarker)) → P w → P (record w { swap_dir = d })

module _ {e : Env} {P : World → Type 0} (s : Stable e P) (free : LockFree P) where
  pub Safely-remove_lockfile : (port : ℕ) → Safely e P (remove_lockfile port)
  unfolding remove_lockfile
  Safely-remove_lockfile port =
      Hoare-step
        (λ e w. (ok (has_key port w.lock_dir), record w { lock_dir = remove port w.lock_dir })) s
        (λ w p. free w _ p)

  pub Keeps-write_lockfile :
      (port : ℕ) (model : String) (pid : ℕ) → Keeps e P (write_lockfile port model pid)
  unfolding write_lockfile
  Keeps-write_lockfile port model pid = Hoare-step (write_step port model pid) s (λ w p.
      go _ w p (create_excl (e.disk w.tick) port (new_lockfile e port model pid) w.lock_dir))
    where
      go :
          (lf : Lockfile) (w : World)
          → P w
          → (r : Result (Dict ℕ (Claim Lockfile)))
          → Post {A = Lockfile} (λ _. P) (λ _. P) (stored_lockfile lf w r)
      go lf w p (ok d) = free w d p
      go lf w p (err x) = p

module _ {e : Env} {P : World → Type 0} (s : Stable e P) (free : MarkFree P) where
  pub Keeps-release_marker : (port : ℕ) → Keeps e P (release_marker port)
  unfolding release_marker
  Keeps-release_marker port =
      Hoare-step (λ e w. unlinked (has_key port w.swap_dir) (e.unlinks w.tick) port w) s
        (λ w p. go w p (has_key port w.swap_dir) (e.unlinks w.tick))
    where
      go :
          (w : World) → P w → (b c : Bool) → Post {A = Bool} (λ _. P) (λ _. P) (unlinked b c port w)
      go w p false c = p
      go w p true true = free w _ p
      go w p true false = p

  pub Keeps-take_marker :
      (port : ℕ) (caller from_model to_model : String)
      → Keeps e P (take_marker port caller from_model to_model)
  unfolding take_marker
  Keeps-take_marker port caller from_model to_model =
      Hoare-step (take_step port caller from_model to_model) s (λ w p. go _ w p (
        create_excl (e.disk w.tick) port (new_marker e port caller from_model to_model) w.swap_dir))
    where
      go :
          (m : SwapMarker) (w : World)
          → P w
          → (r : Result (Dict ℕ (Claim SwapMarker)))
          → Post {A = SwapMarker} (λ _. P) (λ _. P) (stored_marker m w r)
      go m w p (ok d) = free w d p
      go m w p (err x) = p
