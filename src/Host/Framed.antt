-- ===== src/Host/Framed.antt =====
-- Predicates that do not look at the audit log and at the processes, and the steps that keep them.
use llauncher.Base.{List, ℕ}
use llauncher.Records.{AuditEntry}
use llauncher.Host.State.{World, Env, Machine}
use llauncher.Host.Monad.{Exn, Result, ok, err, step, on_machine}
use llauncher.Host.Hoare.{Hoare, Post, Keeps, Stable, Hoare-step}

pub record Framed (e : Env) (P : World → Type 0) : Type 0 where
  pub stable : Stable e P
  pub audit_free : (w : World) (l : List AuditEntry) → P w → P (record w { audit = l })
  pub machine_free : (w : World) (m : Machine) → P w → P (record w { machine = m })

-- What a step raises, if it raises, satisfies `X`.
abbrev pub Raises : {A : Type 0} → (Exn → Type 0) → Result A → Type 0
Raises X (ok a) = Unit {0}
Raises X (err x) = X x

module _ {A : Type 0} {e : Env} {P : World → Type 0} where
  -- A step that leaves the world as it is.
  pub Keeps-looks : (f : Env → World → Result A) → Stable e P → Keeps e P (step (λ e w. (f e w, w)))
  Keeps-looks f s = Hoare-step (λ e w. (f e w, w)) s (λ w p. go w p (f e w))
    where
      go : (w : World) → P w → (r : Result A) → Post {A = A} (λ _. P) (λ _. P) (r, w)
      go w p (ok a) = p
      go w p (err x) = p

  pub Keeps-on_machine :
      (f : Env → ℕ → Machine → Result A × Machine) → Framed e P → Keeps e P (on_machine f)
  Keeps-on_machine f fr =
      Hoare-step (λ e w. let (r, m) = f e w.tick w.machine in (r, record w { machine = m }))
        fr.stable (λ w p. go w p (f e w.tick w.machine))
    where
      go :
          (w : World)
          → P w
          → (o : Result A × Machine)
          → Post {A = A} (λ _. P) (λ _. P) (o.0, record w { machine = o.1 })
      go w p (ok a, m) = fr.machine_free w m p
      go w p (err x, m) = fr.machine_free w m p

  -- As `Keeps-on_machine`, with a condition on what the step raises.
  pub Hoare-on_machine :
      (X : Exn → Type 0) (f : Env → ℕ → Machine → Result A × Machine)
      → Framed e P
      → ((t : ℕ) (m : Machine) → Raises X (f e t m).0)
      → Hoare e P (on_machine f) (λ _. P) (λ x w. X x × P w)
  Hoare-on_machine X f fr h =
      Hoare-step (λ e w. let (r, m) = f e w.tick w.machine in (r, record w { machine = m }))
        fr.stable (λ w p. go w p (f e w.tick w.machine) (h w.tick w.machine))
    where
      go :
          (w : World)
          → P w
          → (o : Result A × Machine) → Raises X o.0
          → Post {A = A} (λ _. P) (λ x w. X x × P w) (o.0, record w { machine = o.1 })
      go w p (ok a, m) r = fr.machine_free w m p
      go w p (err x, m) r = (r, fr.machine_free w m p)
