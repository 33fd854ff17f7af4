-- ===== src/Core/AuditLog.antt =====
-- llauncher/core/audit_log.py. An entry is kept without its timestamp and its message.
use llauncher.Base.{
  refl, ◌≡◌, ◌≡◌, Bool, true, false, ℕ, none, some, [], ◌∷◌, ◌++◌, String, if◌then◌else◌,
}
use llauncher.Records.{AuditAction, AuditResult, AuditEntry}
use llauncher.Host.{World, Env, Exec, Exn, Result, ok, err, is_os_error, pure, raise, step, attempt}
use llauncher.Host.Hoare.{Post, Hoare-step, Hoare-attempt, Hoare-given, Hoare-if}
use llauncher.Host.Framed.{Framed}
use llauncher.Host.Safely.{Safely, Safely-pure}

-- An entry with the optional fields `from_model` and `pid` left out.
abbrev pub entry : AuditAction → AuditResult → String → ℕ → String → AuditEntry
entry action result caller port model = record {
  action = action;
  result = result;
  caller = caller;
  port = some port;
  model = some model;
  from_model = none;
  pid = none;
}

appended : Bool → AuditEntry → World → Result (Unit {0}) × World
appended true x w = (ok tt, record w { audit = w.audit ++ x ∷ [] })
appended false x w = (err Exn.os_error, w)

append_entry : AuditEntry → Exec (Unit {0})
unfolding appended
append_entry x = step (λ e w. appended (e.audit_writable w.tick) x w)

-- `record`: a write that fails is logged and swallowed.
unfoldable pub record_audit : AuditEntry → Exec (Unit {0})
unfolding append_entry
record_audit x = attempt (append_entry x) pure (λ x. if is_os_error x then pure tt else raise x)

module _ {e : Env} {P : World → Type 0} (fr : Framed e P) where
  appended-keeps :
      (b : Bool) (x : AuditEntry) (w : World)
      → P w
      → Post {A = Unit {0}} (λ _. P) (λ x w. (is_os_error x ≡ true) × P w) (appended b x w)
  unfolding appended
  appended-keeps true x w p = fr.audit_free w _ p
  appended-keeps false x w p = (refl, p)

  -- Whether the log can be written or not, the code goes on.
  pub Safely-record_audit : (x : AuditEntry) → Safely e P (record_audit x)
  unfolding record_audit append_entry
  Safely-record_audit x =
      Hoare-attempt _ pure (λ x. if is_os_error x then pure tt else raise x)
        (Hoare-step (λ e w. appended (e.audit_writable w.tick) x w) fr.stable
          (λ w p. appended-keeps (e.audit_writable w.tick) x w p))
        Safely-pure
        (λ x. Hoare-given λ os. Hoare-if (is_os_error x) _ _ (λ _. Safely-pure tt) (λ no. cc))
