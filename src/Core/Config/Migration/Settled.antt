-- ===== src/Core/Config/Migration/Settled.antt =====
-- A migrated entry has nothing left to migrate.
use llauncher.Base.{
  Bool, Bool-cases, true, false, not, Option, none, some, List, [], ◌∷◌, ◌++◌, String, string_eq,
  ◌==◌, ◌≡◌, refl, ap, ◌∙◌, inl, inr, arith, all,
}
use llauncher.Base.Text.{Text}
use llauncher.Base.Lines.{strip}
use llauncher.Base.Dict.{lookup, put, remove, has_key, lookup-put, lookup-remove, lookup-put_self}
use llauncher.Core.Config.Migration.{
  spaced, Raw, Fields, Row, Heads, heads, bad_quoting, not_text, dropped_fields, without_dropped,
  has_dropped, has_unknown, Migration, migrated, checked, placed, place, with_appended, appended,
  heads_present, migrate_normalized, migrate_extra, migrate_config_dict,
}

abbrev is_array : Option Raw → Bool
is_array (some (Raw.array ts)) = true
is_array _ = false

has_key-remove : (j k : String) (d : Fields) → has_key k d ≡ false → has_key k (remove j d) ≡ false
has_key-remove j k d h = ground (arith, h, lookup-remove j k d)

has_key-remove_self : (k : String) (d : Fields) → has_key k (remove k d) ≡ false
has_key-remove_self k d = ground (arith, lookup-remove k k d, string_eq.same_iff k k)

has_key-without_dropped :
    (rows : List Row) (k : String) (d : Fields)
    → has_key k d ≡ false
    → has_key k (without_dropped rows d) ≡ false
unfolding without_dropped
has_key-without_dropped [] k d h = h
has_key-without_dropped (r ∷ rows) k d h =
    has_key-without_dropped rows k (remove r.field d) (has_key-remove r.field k d h)

has_dropped-without_dropped :
    (rows : List Row) (d : Fields) → has_dropped rows (without_dropped rows d) ≡ false
unfolding without_dropped
has_dropped-without_dropped [] d = refl
has_dropped-without_dropped (r ∷ rows) d =
    rw (has_key-without_dropped rows r.field (remove r.field d) (has_key-remove_self r.field d))
      (has_dropped-without_dropped rows (remove r.field d))

-- No row is for this key.
abbrev apart : String → List Row → Bool
apart k rows = all (λ r. not (r.field == k)) rows

has_dropped-put :
    (rows : List Row) (k : String) (v : Raw) (d : Fields)
    → apart k rows ≡ true
    → has_dropped rows (put k v d) ≡ has_dropped rows d
has_dropped-put [] k v d h = refl
has_dropped-put (r ∷ rows) k v d h = ground (
  arith,
  h,
  has_dropped-put rows k v d,
  lookup-put k r.field v d,
  string_eq.same_iff k r.field,
  string_eq.same_iff r.field k,
)

lookup-without_dropped :
    (rows : List Row) (k : String) (d : Fields)
    → apart k rows ≡ true
    → lookup k (without_dropped rows d) ≡ lookup k d
unfolding without_dropped
lookup-without_dropped [] k d h = refl
lookup-without_dropped (r ∷ rows) k d h =
    lookup-without_dropped rows k (remove r.field d) (ground (arith, h))
    ∙ ground (arith, h, lookup-remove r.field k d)

record Clean (d : Fields) : Type 0 where
  dropped : has_dropped dropped_fields d ≡ false
  listed : is_array (lookup "extra_args" d) ≡ false

-- What a migration returns is clean, and has no key that is unknown.
abbrev Settled : Migration → Type 0
Settled (migrated d dirty) = Clean d × (has_unknown d ≡ false)
Settled _ = Unit

checked-Settled : (d : Fields) (dirty : Bool) → Clean d → Settled (checked d dirty)
unfolding checked
checked-Settled d dirty c = elim (Bool-cases (has_unknown d)) [
  | inl b ↦ rw b tt
  | inr b ↦ rw b (c, b)
]

put-Clean :
    (s : Text) (d : Fields)
    → has_dropped dropped_fields d ≡ false
    → Clean (put "extra_args" (Raw.text s) d)
put-Clean s d h = record {
  dropped = has_dropped-put dropped_fields "extra_args" (Raw.text s) d refl ∙ h;
  listed = ap is_array (lookup-put_self "extra_args" (Raw.text s) d);
}

with_appended-Clean :
    (ts : List Text) (extra : Option Raw) (d : Fields) → Clean d → Clean (with_appended ts extra d)
unfolding with_appended
with_appended-Clean [] extra d c = c
with_appended-Clean (t ∷ ts) (some (Raw.text (x ∷ s))) d c =
    put-Clean (strip ((x ∷ s) ++ b' ' ∷ spaced (t ∷ ts))) d c.dropped
with_appended-Clean (t ∷ ts) none d c = put-Clean (spaced (t ∷ ts)) d c.dropped
with_appended-Clean (t ∷ ts) (some Raw.null) d c = put-Clean (spaced (t ∷ ts)) d c.dropped
with_appended-Clean (t ∷ ts) (some (Raw.boolean b)) d c = put-Clean (spaced (t ∷ ts)) d c.dropped
with_appended-Clean (t ∷ ts) (some (Raw.number zero n)) d c =
    put-Clean (spaced (t ∷ ts)) d c.dropped
with_appended-Clean (t ∷ ts) (some (Raw.text [])) d c = put-Clean (spaced (t ∷ ts)) d c.dropped
with_appended-Clean (t ∷ ts) (some (Raw.array us)) d c = put-Clean (spaced (t ∷ ts)) d c.dropped
with_appended-Clean (t ∷ ts) (some (Raw.object empty)) d c = put-Clean (spaced (t ∷ ts)) d c.dropped

without_dropped-Clean :
    (d : Fields)
    → is_array (lookup "extra_args" d) ≡ false
    → Clean (without_dropped dropped_fields d)
without_dropped-Clean d h = record {
  dropped = has_dropped-without_dropped dropped_fields d;
  listed = ap is_array (lookup-without_dropped dropped_fields "extra_args" d refl) ∙ h;
}

placed-Settled :
    (d : Fields) (ts : Option (List Text))
    → is_array (lookup "extra_args" d) ≡ false
    → Settled (placed d ts)
unfolding placed
placed-Settled d none h = tt
placed-Settled d (some ts) h =
    checked-Settled (with_appended ts (lookup "extra_args" d) (without_dropped dropped_fields d))
      true
      (with_appended-Clean ts (lookup "extra_args" d) (without_dropped dropped_fields d)
        (without_dropped-Clean d h))

place-Settled :
    (d : Fields) (h : Heads) → is_array (lookup "extra_args" d) ≡ false → Settled (place d h)
unfolding place
place-Settled d bad_quoting h = tt
place-Settled d not_text h = tt
place-Settled d (heads present) h = placed-Settled d (appended dropped_fields present d) h

migrate_normalized-Settled :
    (d : Fields) (dirty : Bool)
    → is_array (lookup "extra_args" d) ≡ false
    → Settled (migrate_normalized d dirty)
unfolding migrate_normalized
migrate_normalized-Settled d dirty h = elim (Bool-cases (has_dropped dropped_fields d)) [
  | inl b ↦ rw b (place-Settled d (heads_present (lookup "extra_args" d)) h)
  | inr b ↦ rw b (checked-Settled d dirty (record { dropped = b; listed = h }))
]

migrate_extra-Settled :
    (d : Fields) (extra : Option Raw)
    → lookup "extra_args" d ≡ extra
    → Settled (migrate_extra d extra)
unfolding migrate_extra
migrate_extra-Settled d (some (Raw.array ts)) h =
    migrate_normalized-Settled (put "extra_args" (Raw.text (spaced ts)) d) true
      (ap is_array (lookup-put_self "extra_args" (Raw.text (spaced ts)) d))
migrate_extra-Settled d none h = migrate_normalized-Settled d false (ap is_array h)
migrate_extra-Settled d (some Raw.null) h = migrate_normalized-Settled d false (ap is_array h)
migrate_extra-Settled d (some (Raw.boolean b)) h =
    migrate_normalized-Settled d false (ap is_array h)
migrate_extra-Settled d (some (Raw.number zero n)) h =
    migrate_normalized-Settled d false (ap is_array h)
migrate_extra-Settled d (some (Raw.text s)) h = migrate_normalized-Settled d false (ap is_array h)
migrate_extra-Settled d (some (Raw.object empty)) h =
    migrate_normalized-Settled d false (ap is_array h)

migrate_config_dict-Settled : (d : Fields) → Settled (migrate_config_dict d)
unfolding migrate_config_dict
migrate_config_dict-Settled d = migrate_extra-Settled d (lookup "extra_args" d) refl

migrate_normalized-again :
    (d : Fields) → Clean d → has_unknown d ≡ false → migrate_normalized d false ≡ migrated d false
unfolding migrate_normalized checked
migrate_normalized-again d c h = rw (c.dropped, h)

migrate_extra-again :
    (d : Fields) (extra : Option Raw)
    → is_array extra ≡ false
    → Clean d
    → has_unknown d ≡ false
    → migrate_extra d extra ≡ migrated d false
unfolding migrate_extra
migrate_extra-again d (some (Raw.array ts)) h c known = ground (arith, h)
migrate_extra-again d none h c known = migrate_normalized-again d c known
migrate_extra-again d (some Raw.null) h c known = migrate_normalized-again d c known
migrate_extra-again d (some (Raw.boolean b)) h c known = migrate_normalized-again d c known
migrate_extra-again d (some (Raw.number zero n)) h c known = migrate_normalized-again d c known
migrate_extra-again d (some (Raw.text s)) h c known = migrate_normalized-again d c known
migrate_extra-again d (some (Raw.object empty)) h c known = migrate_normalized-again d c known

-- The migration of an entry is idempotent: the fields that it gives migrate to themselves, and are
-- not dirty.
pub migrate_config_dict-again :
    (d d' : Fields) (dirty : Bool)
    → migrate_config_dict d ≡ migrated d' dirty
    → migrate_config_dict d' ≡ migrated d' false
unfolding migrate_config_dict
migrate_config_dict-again d d' dirty h =
    let settled : Settled (migrated d' dirty) = rw h at (migrate_config_dict-Settled d) in
    migrate_extra-again d' (lookup "extra_args" d') settled.0.listed settled.0 settled.1
