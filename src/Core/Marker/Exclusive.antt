-- ===== src/Core/Marker/Exclusive.antt =====
-- The marker of a port is a lock: O_EXCL lets one operation in.
use llauncher.Base.{ℕ, Bool, true, false, none, some, String, nat_eq, ◌≡◌, ap, if◌then◌else◌}
use llauncher.Base.Dict.{Dict, put, has_key, lookup-put_self}
use llauncher.Records.{SwapMarker, Claim, valid}
use llauncher.Host.{World, Env, Disk, fine, no_directory, no_space, Exn, Result, ok, err}
use llauncher.Host.Hoare.{Post, Hoare, Stable, Hoare-step, Post-ok}
use llauncher.Core.Files.{create_excl}
use llauncher.Core.Marker.{take_marker, take_step, stored_marker}

-- The port has a marker, be it readable or not.
abbrev pub Marked : ℕ → World → Type 0
Marked port w = has_key port w.swap_dir ≡ true

abbrev Taking : (World → Type 0) → Result SwapMarker × World → Type 0
Taking Q = Post (λ _. Q) (λ _ _. Unit {0})

module _ (port : ℕ) where
  taken :
      (m : SwapMarker) (w : World) (b : Bool)
      → Taking (Marked port) (
          stored_marker m w (if b then err Exn.file_exists else ok (put port (valid m) w.swap_dir)))
  taken m w true = tt
  taken m w false =
      ap (λ o. elim o [ none ↦ false | some _ ↦ true ]) (lookup-put_self port (valid m) w.swap_dir)

  refused :
      (m : SwapMarker) (w : World) (r : Result (Dict ℕ (Claim SwapMarker))) (b : Bool)
      → b ≡ true
      → Taking (λ _. ⊥) (stored_marker m w (if b then err Exn.file_exists else r))
  refused m w r true h = tt
  refused m w r false h = cc

  full :
      (m : SwapMarker) (w : World) (b : Bool)
      → Taking
          (Marked port)
          (stored_marker m w (if b then err Exn.file_exists else err Exn.os_error))
  full m w true = tt
  full m w false = tt

  created :
      (d : Disk) (m : SwapMarker) (w : World)
      → Taking (Marked port) (stored_marker m w (create_excl d port m w.swap_dir))
  created fine m w = taken m w (has_key port w.swap_dir)
  created no_directory m w = tt
  created no_space m w = full m w (has_key port w.swap_dir)

  blocked :
      (d : Disk) (m : SwapMarker) (w : World)
      → Marked port w
      → Taking (λ _. ⊥) (stored_marker m w (create_excl d port m w.swap_dir))
  blocked fine m w h = refused m w _ (has_key port w.swap_dir) h
  blocked no_directory m w h = tt
  blocked no_space m w h = refused m w _ (has_key port w.swap_dir) h

-- Once `take_marker` has returned on a port, a second `take_marker` on it does not, whichever
-- process calls it and whatever the disk does, as long as nobody drops the marker between.
pub take_marker-excludes :
    (port : ℕ) (caller from_model to_model caller' from_model' to_model' : String) (e e' : Env)
    → Stable e' (Marked port)
    → (w : World) {m m' : SwapMarker} → (take_marker port caller from_model to_model e w).0 ≡ ok m
    → ¬ (
        (take_marker port caller' from_model' to_model' e'
          (take_marker port caller from_model to_model e w).1).0
        ≡ ok m')
unfolding take_marker
take_marker-excludes port caller from_model to_model caller' from_model' to_model' e e' s w h h' =
    Post-ok (λ _ _. ⊥) (λ _ _. Unit {0}) (take_marker port caller' from_model' to_model' e' v)
      (second.at v (
        Post-ok (λ _. Marked port) (λ _ _. Unit {0})
          (take_marker port caller from_model to_model e w) (first.at w tt) h))
      h'
  where
    v : World
    v = (take_marker port caller from_model to_model e w).1

    first :
        Hoare e
          (λ _. Unit {0})
          (take_marker port caller from_model to_model)
          (λ _. Marked port)
          (λ _ _. Unit {0})
    first =
        Hoare-step (take_step port caller from_model to_model) (record { meets = λ w u. tt })
          (λ w u. created port (e.disk w.tick) _ w)

    second :
        Hoare e'
          (Marked port)
          (take_marker port caller' from_model' to_model')
          (λ _ _. ⊥)
          (λ _ _. Unit {0})
    second =
        Hoare-step (take_step port caller' from_model' to_model') s
          (λ w p. blocked port (e'.disk w.tick) _ w p)
