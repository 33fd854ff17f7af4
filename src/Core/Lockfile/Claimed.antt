-- ===== src/Core/Lockfile/Claimed.antt =====
-- Who claims a port: the abstract view of the lockfiles.
use llauncher.Base.{
  ℕ, Bool, true, false, Option, none, some, String, nat_eq, ◌≡◌, refl, ap, if◌then◌else◌,
}
use llauncher.Base.Dict.{Dict, lookup, has_key, lookup-put_self, lookup-remove_self}
use llauncher.Records.{Lockfile, Claim}
use llauncher.Host.{meet, World, Env, Disk, fine, no_directory, no_space, Result, ok}
use llauncher.Host.Hoare.{Post, Hoare, Stable, Hoare-step}
use llauncher.Host.Framed.{Framed}
use llauncher.Core.Files.{create_excl, parsed}
use llauncher.Core.Kept.{MarkFree}
use llauncher.Core.Lockfile.{
  valid, write_lockfile, write_step, new_lockfile, stored_lockfile, read_lockfile, remove_lockfile,
}

-- The model and the pid of a claim.
abbrev pub owner : Option Lockfile → Option (String × ℕ)
owner none = none
owner (some lf) = some (lf.model, lf.pid)

-- The port's claim, none where its lockfile is absent or corrupt.
abbrev pub claimed_by : ℕ → World → Option (String × ℕ)
claimed_by port w = owner (parsed (lookup port w.lock_dir))

abbrev pub Claimed : ℕ → Option (String × ℕ) → World → Type 0
Claimed port v w = claimed_by port w ≡ v

-- The other processes do not change who claims the port.
abbrev pub Settled : Env → ℕ → Type 0
Settled e port = (v : Option (String × ℕ)) → Stable e (Claimed port v)

pub Claimed-Framed :
    {e : Env} (port : ℕ) → Settled e port → (v : Option (String × ℕ)) → Framed e (Claimed port v)
Claimed-Framed port s v = record {
  stable = s v;
  audit_free = λ w l h. h;
  machine_free = λ w m h. h;
}

pub Claimed-MarkFree : (port : ℕ) (v : Option (String × ℕ)) → MarkFree (Claimed port v)
Claimed-MarkFree port v w d h = h

abbrev pub Anyway : World → Type 0
Anyway w = Unit {0}

Anyway-Stable : (e : Env) → Stable e Anyway
Anyway-Stable e = record { meets = λ w u. tt }

written-if :
    (port : ℕ) (b : Bool) (lf : Lockfile) (w : World) (r r' : Result (Dict ℕ (Claim Lockfile)))
    → Post {A = Lockfile}
        (λ _. Claimed port (some (lf.model, lf.pid)))
        (λ _. Claimed port none)
        (stored_lockfile lf w r)
    → Post {A = Lockfile}
        (λ _. Claimed port (some (lf.model, lf.pid)))
        (λ _. Claimed port none)
        (stored_lockfile lf w r')
    → Post {A = Lockfile}
        (λ _. Claimed port (some (lf.model, lf.pid)))
        (λ _. Claimed port none)
        (stored_lockfile lf w (if b then r else r'))
written-if port true lf w r r' h h' = h
written-if port false lf w r r' h h' = h'

module _ {e : Env} (port : ℕ) where
  -- What is read is what is there.
  pub Hoare-read_lockfile :
      Hoare e Anyway (read_lockfile port) (λ o. Claimed port (owner o)) (λ _ _. ⊥)
  unfolding read_lockfile
  Hoare-read_lockfile =
      Hoare-step (λ e w. (ok (parsed (lookup port w.lock_dir)), w)) (Anyway-Stable e) (λ w u. refl)

  pub Hoare-remove_lockfile :
      {P : World → Type 0} → Hoare e P (remove_lockfile port) (λ _. Claimed port none) (λ _ _. ⊥)
  unfolding remove_lockfile
  Hoare-remove_lockfile = record {
    at = λ w p. ap (λ o. owner (parsed o)) (lookup-remove_self port (meet e w).lock_dir);
  }

  -- A claim that is written is the claim of the port, and one that is not leaves it free.
  pub Hoare-write_lockfile :
      (model : String) (pid : ℕ)
      → Settled e port
      → Hoare e
          (Claimed port none)
          (write_lockfile port model pid)
          (λ _. Claimed port (some (model, pid)))
          (λ _. Claimed port none)
  unfolding write_lockfile
  Hoare-write_lockfile model pid s =
      Hoare-step (write_step port model pid) (s none)
        (λ w p. go w p (new_lockfile e port model pid) (e.disk w.tick))
    where
      go :
          (w : World)
          → Claimed port none w
          → (lf : Lockfile) (d : Disk)
          → Post {A = Lockfile}
              (λ _. Claimed port (some (lf.model, lf.pid)))
              (λ _. Claimed port none)
              (stored_lockfile lf w (create_excl d port lf w.lock_dir))
      go w p lf fine =
          written-if port (has_key port w.lock_dir) lf w _ _ p
            (ap (λ o. owner (parsed o)) (lookup-put_self port (valid lf) w.lock_dir))
      go w p lf no_directory = p
      go w p lf no_space = written-if port (has_key port w.lock_dir) lf w _ _ p p
