-- ===== src/Core/Marker/Unmarked.antt =====
-- A port without a marker, and the code that runs under a marker of its own.
use llauncher.Base.{
  ℕ, Bool, true, false, Option, none, some, String, nat_eq, ◌≡◌, refl, ◌⊎◌, inl, inr, arith,
}
use llauncher.Base.Dict.{Dict, has_key, lookup, lookup-remove}
use llauncher.Records.{SwapMarker, Claim}
use llauncher.Host.{World, Env, Exn, Result, ok, err, Exec, pure, finally, ◌>>◌}
use llauncher.Host.Hoare.{
  Post, Hoare, Keeps, Stable, Hoare-weaken, Hoare-step, Hoare-any, Hoare-finally, Hoare-then,
  Hoare-pure,
}
use llauncher.Host.Framed.{Framed}
use llauncher.Core.Files.{create_excl}
use llauncher.Core.Kept.{LockFree}
use llauncher.Core.Marker.{
  take_marker, take_step, new_marker, stored_marker, release_marker, unlinked,
}

abbrev pub Unmarked : ℕ → World → Type 0
Unmarked port w = lookup port w.swap_dir ≡ none

-- The other processes put no marker on the port, and none of them is in the middle of a cancel
-- request, which would put back the one that it has read. They may drop one.
abbrev pub Unchallenged : Env → ℕ → Type 0
Unchallenged e port = Stable e (Unmarked port)

pub Unmarked-Framed : {e : Env} (port : ℕ) → Unchallenged e port → Framed e (Unmarked port)
Unmarked-Framed port s = record { stable = s; audit_free = λ w l h. h; machine_free = λ w m h. h }

pub Unmarked-LockFree : (port : ℕ) → LockFree (Unmarked port)
Unmarked-LockFree port w d h = h

abbrev pub Whatever : World → Type 0
Whatever w = Unit {0}

-- The marker is gone, or it could not be unlinked.
abbrev pub Unreleased : ℕ → Exn → World → Type 0
Unreleased port x w = Unmarked port w ⊎ (x ≡ Exn.unlink_error)

abbrev pub Releases : {A : Type 0} → Env → ℕ → Exec A → Type 0
Releases e port m = Hoare e (Unmarked port) m (λ _. Unmarked port) (Unreleased port)

missing :
    (o : Option (Claim SwapMarker)) → (elim o [ none ↦ false | some _ ↦ true ]) ≡ false → o ≡ none
missing none h = refl
missing (some m) h = ground (arith, h)

module _ {e : Env} (port : ℕ) where
  pub Hoare-release : Hoare e Whatever (release_marker port) (λ _. Unmarked port) (Unreleased port)
  unfolding release_marker
  Hoare-release =
      Hoare-step (λ e w. unlinked (has_key port w.swap_dir) (e.unlinks w.tick) port w)
        (record { meets = λ w u. tt })
        (λ w u. go w (has_key port w.swap_dir) (e.unlinks w.tick) refl)
    where
      go :
          (w : World) (b c : Bool)
          → has_key port w.swap_dir ≡ b
          → Post {A = Bool} (λ _. Unmarked port) (Unreleased port) (unlinked b c port w)
      go w false c h = missing (lookup port w.swap_dir) h
      go w true true h =
          ground (arith, lookup-remove port port w.swap_dir, nat_eq.same_iff port port)
      go w true false h = inr refl

  release-then :
      Hoare e Whatever (release_marker port >> pure tt) (λ _. Unmarked port) (Unreleased port)
  release-then = Hoare-then _ _ Hoare-release (Hoare-pure tt (λ w u. u))

  -- Whatever the guarded code does, and however it ends.
  pub Hoare-guarded :
      {A : Type 0} (m : Exec A)
      → Hoare e Whatever
          (finally m (release_marker port >> pure tt))
          (λ _. Unmarked port)
          (Unreleased port)
  Hoare-guarded m =
      Hoare-finally m _ (Hoare-any m) (λ a. release-then)
        (λ x. Hoare-weaken release-then (λ w u. u) (λ a w h. inl h) (λ y w h. h))

  pub Keeps-Releases : {A : Type 0} {m : Exec A} → Keeps e (Unmarked port) m → Releases e port m
  Keeps-Releases h = Hoare-weaken h (λ w p. p) (λ a w p. p) (λ x w p. inl p)

  -- A marker that is not taken is not there.
  pub Hoare-take :
      (caller from_model to_model : String)
      → Unchallenged e port
      → Hoare e
          (Unmarked port)
          (take_marker port caller from_model to_model)
          (λ _. Whatever)
          (λ _. Unmarked port)
  unfolding take_marker
  Hoare-take caller from_model to_model s =
      Hoare-step (take_step port caller from_model to_model) s (λ w p. go _ w p (
        create_excl (e.disk w.tick) port (new_marker e port caller from_model to_model) w.swap_dir))
    where
      go :
          (m : SwapMarker) (w : World)
          → Unmarked port w
          → (r : Result (Dict ℕ (Claim SwapMarker)))
          → Post {A = SwapMarker} (λ _. Whatever) (λ _. Unmarked port) (stored_marker m w r)
      go m w p (ok d) = tt
      go m w p (err x) = p
