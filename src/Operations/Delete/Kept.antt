-- ===== src/Operations/Delete/Kept.antt =====
-- What `delete_model` leaves in the config.
use llauncher.Base.{
  true, false, not, Option, none, some, List, [], ◌∷◌, String, ◌==◌, string_eq, ◌≡◌, refl, sym, ◌∙◌,
  ap,
}
use mathlib.Core.Path.{subst}
use llauncher.Base.Dict.{lookup, remove, has_key, lookup-remove_self}
use llauncher.Records.{ModelConfig, Lockfile}
use llauncher.Host.{
  World, Env, ConfigFile, absent, unreadable, malformed, entries, Disk, fine, no_directory,
  no_space, Exn, Result, ok, err,
}
use llauncher.Host.Hoare.{
  Post, Post-ok, Hoare, Stable, Hoare-step, Hoare-if, Hoare-given, Hoare-bind, Hoare-then,
  Hoare-pure, Keeps-gives,
}
use llauncher.Host.Framed.{Framed, Keeps-looks}
use llauncher.Host.Safely.{Safely-Hoare, Safely-pure, Safely-bind, Safely-then}
use llauncher.Core.AuditLog.{Safely-record_audit}
use llauncher.Core.Config.{Registry, load, loaded, save, saved, remove_model}
use llauncher.Core.Kept.{Keeps-get_model, Safely-reconcile_lockfile, Safely-remove_lockfile}
use llauncher.Core.Lockfile.{list_lockfiles, listing}
use llauncher.Operations.Delete.{
  DeleteAction, DeleteModelResult, delete_model, delete_found, delete_unless_in_use, in_use,
  clear_stale,
}

-- The config file has no entry of the name.
abbrev pub IsWithout : String → ConfigFile → Type 0
IsWithout name (entries d) = lookup name d ≡ none
IsWithout name _ = Unit {0}

-- The config after a deletion that ended with an action, where it was `c` before.
abbrev pub IsAfter : String → ConfigFile → DeleteAction → World → Type 0
IsAfter name c DeleteAction.deleted w = IsWithout name w.config
IsAfter name c DeleteAction.not_found w = w.config ≡ c
IsAfter name c DeleteAction.rejected_in_use w = w.config ≡ c
IsAfter name c DeleteAction.error w = w.config ≡ c

abbrev Quiet : Exn → World → Type 0
Quiet x w = Unit {0}

-- The config file is `c`.
abbrev pub Holds : ConfigFile → World → Type 0
Holds c w = w.config ≡ c

value_eq : {d d' : Registry} → ok d ≡ ok d' → d ≡ d'
value_eq {d} h = ap (λ r. elim r [ ok x ↦ x | err x ↦ d ]) h

without :
    (name : String) (c : ConfigFile) (d : Registry)
    → loaded c ≡ ok d
    → has_key name d ≡ false
    → IsWithout name c
without name absent d h k = tt
without name unreadable d h k = tt
without name malformed d h k = tt
without name (entries d') d h k = missing (lookup name d') (ap (has_key name) (value_eq h) ∙ k)
  where
    missing : (o : Option ModelConfig) → elim o [ none ↦ false | some _ ↦ true ] ≡ false → o ≡ none
    missing none h = refl
    missing (some x) h = cc

saved-IsWithout :
    (name : String) (d : Registry) (w : World) (k : Disk)
    → Post {A = Unit {0}} (λ _ w. IsWithout name w.config) Quiet (saved k (remove name d) w)
unfolding saved
saved-IsWithout name d w fine = lookup-remove_self name d
saved-IsWithout name d w no_directory = tt
saved-IsWithout name d w no_space = tt

-- The other processes do not edit the config.
abbrev pub Unedited : Env → Type 0
Unedited e = (c : ConfigFile) → Stable e (Holds c)

module _ (name : String) (caller : String) {e : Env} (s : Unedited e) where
  config_frame : (Q : ConfigFile → Type 0) → Framed e (λ w. Q w.config)
  config_frame Q = record {
    stable = record { meets = λ w q. subst Q (sym ((s w.config).meets w refl)) q };
    audit_free = λ w l q. q;
    machine_free = λ w m q. q;
  }

  module _ (c : ConfigFile) where
    frame : Framed e (Holds c)
    frame = config_frame (λ f. f ≡ c)

    load-reads : Hoare e (Holds c) load (λ d w. (loaded c ≡ ok d) × Holds c w) Quiet
    unfolding load
    load-reads =
        Hoare-step (λ e w. (loaded w.config, w)) (s c)
          (λ w h. go w h (loaded w.config) (ap loaded h))
      where
        go :
            (w : World)
            → Holds c w
            → (r : Result Registry) → r ≡ loaded c
            → Post (λ d w. (loaded c ≡ ok d) × Holds c w) Quiet (r, w)
        go w h (ok d) q = (sym q, h)
        go w h (err x) q = tt

    remove-IsWithout :
        Hoare e (Holds c) (remove_model name caller) (λ _ w. IsWithout name w.config) Quiet
    unfolding remove_model save
    remove-IsWithout = Hoare-bind _ _ load-reads λ d. Hoare-given λ found.
        Hoare-if (has_key name d) _ _
          (λ _.
            Hoare-then _ _
              (Hoare-step (λ e w. saved (e.disk w.tick) (remove name d) w) (s c)
                (λ w h. saved-IsWithout name d w (e.disk w.tick)))
              (Safely-Hoare (Safely-record_audit (config_frame (IsWithout name)) _)))
          (λ k. Hoare-pure tt (λ w h. subst (IsWithout name) (sym h) (without name c d found k)))

    abbrev After : DeleteModelResult → World → Type 0
    After r = IsAfter name c r.action

    scan-After :
        (locks : List Lockfile)
        → Hoare e (Holds c) (delete_unless_in_use name caller locks) After Quiet
    unfolding delete_unless_in_use in_use clear_stale
    scan-After [] = Hoare-then _ _ remove-IsWithout (Hoare-pure _ (λ w q. q))
    scan-After (lock ∷ locks) =
        Hoare-if (not (lock.model == name)) _ _ (λ _. scan-After locks)
          (λ _. Safely-bind _ _ (Safely-reconcile_lockfile (s c) lock) λ recon.
            Hoare-if recon.pid_alive _ _
              (λ _. Safely-then _ _ (Safely-record_audit frame _) (Hoare-pure _ (λ w h. h)))
              (λ _.
                Safely-then _ _
                  (Safely-then _ _ (Safely-record_audit frame _) (
                    Safely-then _ _ (Safely-remove_lockfile (s c) (λ w d h. h) lock.port)
                      (Safely-pure tt)))
                  (scan-After locks)))

    found-After :
        (found : Option ModelConfig)
        → Hoare e (Holds c) (delete_found name caller found) After Quiet
    unfolding delete_found list_lockfiles
    found-After none = Hoare-pure _ (λ w h. h)
    found-After (some cfg) = Hoare-bind _ _ (Keeps-gives (Keeps-looks listing (s c))) scan-After

-- When `delete_model` returns `deleted`, the config has no entry of the name any more; when it
-- returns `not_found` or `rejected_in_use`, the config is as it was. This holds as long as the other
-- processes do not edit the config.
pub delete_model-IsAfter :
    (name : String) (caller : String) (e : Env)
    → Unedited e
    → (w : World) {r : DeleteModelResult} → (delete_model name caller e w).0 ≡ ok r
    → IsAfter name w.config r.action (delete_model name caller e w).1
unfolding delete_model
delete_model-IsAfter name caller e s w h =
    Post-ok (λ r. IsAfter name w.config r.action) Quiet (delete_model name caller e w)
      (go.at w refl) h
  where
    go :
        Hoare e
          (Holds w.config)
          (delete_model name caller)
          (λ r. IsAfter name w.config r.action)
          Quiet
    go =
        Hoare-bind _ _ (Keeps-gives (Keeps-get_model (s w.config) name))
          (found-After name caller s w.config)
