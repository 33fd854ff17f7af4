-- ===== src/Core/Config/Load.antt =====
-- llauncher/core/config.py, `ConfigStore.load_with_errors` past the parse of the file: which entries
-- load, which are quarantined, and when the file is rewritten. An entry is `none` if it is no JSON
-- object. pydantic's `model_validate` is given, as `validate`.
use llauncher.Base.{
  any, Option-cases, Bool, true, false, ◌&&◌, ◌||◌, Option, none, some, [], ◌∷◌, String, string_eq,
  ◌==◌, ◌≡◌, refl, ap, ◌∙◌, sym, arith, inl, inr,
}
use mathlib.Core.Option.{some-injective}
use llauncher.Base.Dict.{Dict, lookup, put, remove, has_key, lookup-put}
use llauncher.Core.Config.Migration.{
  Fields, Migration, migrated, rejected, crashed, migrate_config_dict,
}

pub record Loaded (M : Type 0) : Type 0 where
  pub models : Dict String M
  pub errors : Dict String (Unit {0})
  pub any_dirty : Bool

module _ {M : Type 0} (validate : Fields → Option M) where
  -- An entry that has migrated has no list in `extra_args`.
  unfoldable pub from_dict_unvalidated : Fields → Option M
  from_dict_unvalidated fields =
      validate (remove "np" (remove "host" (remove "port" (remove "default_port" fields))))

  abbrev quarantine : String → Loaded M → Loaded M
  quarantine name l = record l { errors = put name tt l.errors }

  validated : String → Bool → Loaded M → Option M → Loaded M
  validated name dirty l none = quarantine name l
  validated name dirty l (some model) = record l {
    models = put name model l.models;
    any_dirty = l.any_dirty || dirty;
  }

  load_migrated : String → Loaded M → Migration → Option (Loaded M)
  unfolding from_dict_unvalidated validated
  load_migrated name l (migrated fields dirty) =
      some (validated name dirty l (from_dict_unvalidated fields))
  load_migrated name l rejected = some (quarantine name l)
  load_migrated name l crashed = none

  load_entry : String → Option Fields → Loaded M → Option (Loaded M)
  unfolding load_migrated
  load_entry name none l = some (quarantine name l)
  load_entry name (some fields) l = load_migrated name l (migrate_config_dict fields)

  load_rest : (Loaded M → Option (Loaded M)) → Option (Loaded M) → Option (Loaded M)
  load_rest rest none = none
  load_rest rest (some l) = rest l

  -- The loop over the entries, `none` where an exception leaves it.
  unfoldable pub load_entries : Dict String (Option Fields) → Loaded M → Option (Loaded M)
  unfolding load_entry load_rest
  load_entries [] l = some l
  load_entries ((name, cfg) ∷ entries) l = load_rest (load_entries entries) (load_entry name cfg l)

  abbrev no_entries : Loaded M
  no_entries = record { models = []; errors = []; any_dirty = false }

  unfoldable pub load_with_errors : Dict String (Option Fields) → Option (Loaded M)
  unfolding load_entries
  load_with_errors entries = load_entries entries no_entries

  abbrev no_errors : Dict String (Unit {0}) → Bool
  no_errors [] = true
  no_errors (_ ∷ errors) = false

  -- `if any_dirty and not errors`: whether config.json is written again, with the models alone.
  unfoldable pub rewrites : Loaded M → Bool
  rewrites l = l.any_dirty && no_errors l.errors

  -- An entry that has been read is a model or an error.
  abbrev accounted : String → Loaded M → Bool
  accounted name l = has_key name l.models || has_key name l.errors

  accounted-quarantine :
      (name k : String) (l : Loaded M)
      → ((name == k) || accounted k l) ≡ true
      → accounted k (quarantine name l) ≡ true
  accounted-quarantine name k l h = ground (arith, h, lookup-put name k tt l.errors)

  accounted-validated :
      (name k : String) (dirty : Bool) (l : Loaded M) (o : Option M)
      → ((name == k) || accounted k l) ≡ true
      → accounted k (validated name dirty l o) ≡ true
  unfolding validated
  accounted-validated name k dirty l none h = accounted-quarantine name k l h
  accounted-validated name k dirty l (some model) h =
      ground (arith, h, lookup-put name k model l.models)

  accounted-load_migrated :
      (name k : String) (l l' : Loaded M) (m : Migration)
      → ((name == k) || accounted k l) ≡ true
      → load_migrated name l m ≡ some l'
      → accounted k l' ≡ true
  unfolding load_migrated
  accounted-load_migrated name k l l' (migrated fields dirty) h e =
      ap (accounted k)
        (some-injective l' (validated name dirty l (from_dict_unvalidated fields)) (sym e))
      ∙ accounted-validated name k dirty l (from_dict_unvalidated fields) h
  accounted-load_migrated name k l l' rejected h e =
      ap (accounted k) (some-injective l' (quarantine name l) (sym e))
      ∙ accounted-quarantine name k l h
  accounted-load_migrated name k l l' crashed h e = ground (arith, e)

  accounted-load_entry :
      (name k : String) (cfg : Option Fields) (l l' : Loaded M)
      → ((name == k) || accounted k l) ≡ true
      → load_entry name cfg l ≡ some l'
      → accounted k l' ≡ true
  unfolding load_entry
  accounted-load_entry name k none l l' h e =
      ap (accounted k) (some-injective l' (quarantine name l) (sym e))
      ∙ accounted-quarantine name k l h
  accounted-load_entry name k (some fields) l l' h e =
      accounted-load_migrated name k l l' (migrate_config_dict fields) h e

  -- The key stands in the file.
  abbrev pub is_entry : String → Dict String (Option Fields) → Bool
  is_entry k = any (λ entry. entry.0 == k)

  entry-or :
      (a b c d : Bool) → ((a || b) || c) ≡ true → ((a || c) ≡ true → d ≡ true) → (b || d) ≡ true
  entry-or a true c d h k = refl
  entry-or true false c d h k = k refl
  entry-or false false c d h k = k h

  accounted-load_entries :
      (k : String) (entries : Dict String (Option Fields)) (l l' : Loaded M)
      → (is_entry k entries || accounted k l) ≡ true
      → load_entries entries l ≡ some l'
      → accounted k l' ≡ true
  unfolding load_entries load_rest
  accounted-load_entries k [] l l' h e = ap (accounted k) (some-injective l' l (sym e)) ∙ h
  accounted-load_entries k ((name, cfg) ∷ entries) l l' h e =
      elim (Option-cases (load_entry name cfg l)) [
        | inl stopped ↦
            let absurd : none ≡ some l' = ap (load_rest (load_entries entries)) (sym stopped) ∙ e in
            ground (arith, absurd)
        | inr (next, went) ↦
            accounted-load_entries k entries next l'
              (entry-or (name == k) (is_entry k entries) (accounted k l) (accounted k next) h
                (λ x. accounted-load_entry name k cfg l next x went))
              (ap (load_rest (load_entries entries)) (sym went) ∙ e)
      ]

  has_key-no_errors :
      (k : String) (errors : Dict String (Unit {0}))
      → no_errors errors ≡ true
      → has_key k errors ≡ false
  unfolding lookup
  has_key-no_errors k [] h = refl
  has_key-no_errors k (x ∷ errors) h = ground (arith, h)

  -- A load that writes config.json again with the models it has loaded drops no entry: every name in
  -- the file is the name of one of those models.
  pub load_with_errors-rewrites :
      (entries : Dict String (Option Fields)) (l : Loaded M)
      → load_with_errors entries ≡ some l
      → rewrites l ≡ true
      → (k : String) → is_entry k entries ≡ true
      → has_key k l.models ≡ true
  unfolding load_with_errors rewrites
  load_with_errors-rewrites entries l e h k there =
      let seen = accounted-load_entries k entries no_entries l (ground (arith, there)) e in
      ground (arith, seen, h, has_key-no_errors k l.errors)
