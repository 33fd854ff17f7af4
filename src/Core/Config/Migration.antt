-- ===== src/Core/Config/Migration.antt =====
-- llauncher/core/config.py: the migration of an entry of config.json as it is read, and the load of
-- a whole registry. A JSON number is its text with whether it is zero, and a list has the texts of
-- its elements. pydantic's check of an entry is given.
pub mod Settled
use llauncher.Base.{
  Bool, true, false, not, ◌&&◌, ◌||◌, Option, none, some, List, [], ◌∷◌, ◌++◌, String, map, any,
  all, contains, leb, ◌==◌, nat_eq, string_eq, if◌then◌else◌, ℕ,
}
use llauncher.Base.Dict.{Dict, lookup, put, remove, has_key}
use llauncher.Base.Text.{Text, codes, before, text_eq}
use llauncher.Base.Lines.{strip}
use llauncher.Core.Process.Command.{split}

pub data Raw : Type 0 where
  null : Raw
  boolean : Bool → Raw
  number : Bool → Text → Raw
  text : Text → Raw
  array : List Text → Raw
  object : Bool → Raw

abbrev pub Fields : Type 0
Fields = Dict String Raw

-- How `_field_should_emit` tests a field.
pub data Test : Type 0 where
  bare truthy always not_none : Test

pub record Row : Type 0 where
  pub field : String
  pub test : Test
  pub flag : Text
  pub aliases : List Text

abbrev row : String → Test → String → List String → Row
row field test flag aliases = record {
  field = field;
  test = test;
  flag = codes flag;
  aliases = map codes aliases;
}

-- `_DROPPED_FIELD_FLAGS`, with the sets that `_field_should_emit` reads.
abbrev pub dropped_fields : List Row
dropped_fields =
    row "threads" Test.truthy "--threads" ("-t" ∷ [])
    ∷ row "threads_batch" Test.always "--threads-batch" ("-tb" ∷ [])
    ∷ row "ubatch_size" Test.always "--ubatch-size" ("-ub" ∷ [])
    ∷ row "batch_size" Test.not_none "--batch-size" ("-b" ∷ [])
    ∷ row "flash_attn" Test.always "--flash-attn" ("-fa" ∷ [])
    ∷ row "no_mmap" Test.bare "--no-mmap" []
    ∷ row "cache_type_k" Test.truthy "--cache-type-k" ("-ctk" ∷ [])
    ∷ row "cache_type_v" Test.truthy "--cache-type-v" ("-ctv" ∷ [])
    ∷ row "n_cpu_moe" Test.truthy "--n-cpu-moe" ("-ncmoe" ∷ [])
    ∷ row "temperature" Test.not_none "--temp" []
    ∷ row "top_k" Test.not_none "--top-k" []
    ∷ row "top_p" Test.not_none "--top-p" []
    ∷ row "min_p" Test.not_none "--min-p" []
    ∷ row "repeat_penalty" Test.not_none "--repeat-penalty" []
    ∷ row "reverse_prompt" Test.truthy "--reverse-prompt" []
    ∷ row "mlock" Test.bare "--mlock" []
    ∷ []

abbrev pub known_fields : List String
known_fields =
    "name" ∷ "model_path" ∷ "kind" ∷ "mmproj_path" ∷ "n_gpu_layers" ∷ "ctx_size" ∷ "parallel"
    ∷ "metrics" ∷ "slots" ∷ "extra_args" ∷ []

-- `_LEGACY_SILENT_DROP_FIELDS`
abbrev pub legacy_fields : List String
legacy_fields = "default_port" ∷ "port" ∷ "host" ∷ "np" ∷ []

-- `bool(value)`
abbrev is_true : Raw → Bool
is_true Raw.null = false
is_true (Raw.boolean b) = b
is_true (Raw.number zero s) = not zero
is_true (Raw.text []) = false
is_true (Raw.text (c ∷ s)) = true
is_true (Raw.array []) = false
is_true (Raw.array (t ∷ ts)) = true
is_true (Raw.object empty) = not empty

-- `_field_should_emit`, `none` where it raises.
unfoldable pub should_emit : Test → Raw → Option Bool
should_emit Test.always Raw.null = none
should_emit Test.always _ = some true
should_emit Test.bare value = some (is_true value)
should_emit Test.truthy value = some (is_true value)
should_emit Test.not_none Raw.null = some false
should_emit Test.not_none _ = some true

-- `\w@%+=:,./-`, in ASCII
abbrev is_shell_safe : ℕ → Bool
is_shell_safe c =
    (leb b'a' c && leb c b'z')
    || (leb b'A' c && leb c b'Z')
    || (leb b'0' c && leb c b'9')
    || contains c (codes "_@%+=:,./-")

abbrev quoted_from : Text → Text
quoted_from [] = 39 ∷ []
quoted_from (c ∷ s) =
    let rest = quoted_from s in if c == 39 then 39 ∷ 34 ∷ 39 ∷ 34 ∷ 39 ∷ rest else c ∷ rest

-- `shlex.quote(s)`
unfoldable pub quote : Text → Text
quote [] = 39 ∷ 39 ∷ []
quote (c ∷ s) = if all is_shell_safe (c ∷ s) then c ∷ s else 39 ∷ quoted_from (c ∷ s)

abbrev argument : Text → Text → Option Text
argument flag s = some (flag ++ b' ' ∷ quote s)

-- `_format_flag_token`, `none` where it raises.
unfoldable pub format_flag_token : Test → Text → Raw → Option Text
unfolding quote
format_flag_token Test.bare flag value = some flag
format_flag_token _ flag (Raw.array ts) = none
format_flag_token _ flag (Raw.object empty) = none
format_flag_token _ flag Raw.null = argument flag (codes "None")
format_flag_token _ flag (Raw.boolean true) = argument flag (codes "True")
format_flag_token _ flag (Raw.boolean false) = argument flag (codes "False")
format_flag_token _ flag (Raw.number zero s) = argument flag s
format_flag_token _ flag (Raw.text s) = argument flag s

-- `" ".join(ts)`
abbrev spaced : List Text → Text
spaced [] = []
spaced (t ∷ []) = t
spaced (t ∷ u ∷ ts) = t ++ b' ' ∷ spaced (u ∷ ts)

-- The flags that `extra_args` has, or how reading them fails: a quoting error is a `ValueError`, and
-- a value that `shlex.split` cannot read raises what no caller catches.
pub data Heads : Type 0 where
  heads : List Text → Heads
  bad_quoting not_text : Heads

heads_of_split : Option (List Text) → Heads
heads_of_split none = bad_quoting
heads_of_split (some tokens) = heads (map (before b'=') tokens)

unfoldable pub heads_present : Option Raw → Heads
unfolding heads_of_split
heads_present none = heads []
heads_present (some (Raw.text s)) = heads_of_split (split s)
heads_present (some value) = if is_true value then not_text else heads []

one_token : Option Text → Option (List Text)
one_token none = none
one_token (some t) = some (t ∷ [])

emitted : Row → Raw → Option Bool → Option (List Text)
unfolding one_token format_flag_token
emitted r value none = none
emitted r value (some false) = some []
emitted r value (some true) = one_token (format_flag_token r.test r.flag value)

-- The tokens that a field adds, `none` where it cannot be rendered.
unfoldable pub tokens_of : Row → List Text → Raw → Option (List Text)
unfolding should_emit emitted
tokens_of r present value =
    if contains r.flag present || any (λ alias. contains alias present) r.aliases
    then some []
    else emitted r value (should_emit r.test value)

appended_to : Option (List Text) → Option (List Text) → Option (List Text)
appended_to none rest = none
appended_to (some ts) none = none
appended_to (some ts) (some rest) = some (ts ++ rest)

field_tokens : Row → List Text → Option Raw → Option (List Text)
unfolding tokens_of
field_tokens r present none = some []
field_tokens r present (some value) = tokens_of r present value

-- The loop over the dropped fields that are there: what it appends.
unfoldable pub appended : List Row → List Text → Fields → Option (List Text)
unfolding appended_to field_tokens
appended [] present fields = some []
appended (r ∷ rows) present fields =
    appended_to (field_tokens r present (lookup r.field fields)) (appended rows present fields)

-- And what it leaves.
unfoldable pub without_dropped : List Row → Fields → Fields
without_dropped [] fields = fields
without_dropped (r ∷ rows) fields = without_dropped rows (remove r.field fields)

abbrev pub has_dropped : List Row → Fields → Bool
has_dropped [] fields = false
has_dropped (r ∷ rows) fields = has_key r.field fields || has_dropped rows fields

with_appended : List Text → Option Raw → Fields → Fields
with_appended [] extra fields = fields
with_appended (t ∷ ts) (some (Raw.text (c ∷ s))) fields =
    put "extra_args" (Raw.text (strip ((c ∷ s) ++ b' ' ∷ spaced (t ∷ ts)))) fields
with_appended (t ∷ ts) _ fields = put "extra_args" (Raw.text (spaced (t ∷ ts))) fields

abbrev pub is_unknown : String → Bool
is_unknown key = not (contains key known_fields) && not (contains key legacy_fields)

abbrev pub has_unknown : Fields → Bool
has_unknown = any (λ entry. is_unknown entry.0)

-- `rejected` is a `ModelConfigLoadError`, `crashed` an exception that is no `ValueError`.
pub data Migration : Type 0 where
  migrated : Fields → Bool → Migration
  rejected crashed : Migration

checked : Fields → Bool → Migration
checked fields dirty = if has_unknown fields then rejected else migrated fields dirty

placed : Fields → Option (List Text) → Migration
unfolding without_dropped with_appended checked
placed fields none = rejected
placed fields (some ts) =
    checked (with_appended ts (lookup "extra_args" fields) (without_dropped dropped_fields fields))
      true

place : Fields → Heads → Migration
unfolding appended placed
place fields bad_quoting = rejected
place fields not_text = crashed
place fields (heads present) = placed fields (appended dropped_fields present fields)

migrate_normalized : Fields → Bool → Migration
unfolding place heads_present checked
migrate_normalized fields dirty =
    if has_dropped dropped_fields fields
    then place fields (heads_present (lookup "extra_args" fields))
    else checked fields dirty

migrate_extra : Fields → Option Raw → Migration
unfolding migrate_normalized
migrate_extra fields (some (Raw.array ts)) =
    migrate_normalized (put "extra_args" (Raw.text (spaced ts)) fields) true
migrate_extra fields _ = migrate_normalized fields false

-- `_migrate_config_dict`
unfoldable pub migrate_config_dict : Fields → Migration
unfolding migrate_extra
migrate_config_dict fields = migrate_extra fields (lookup "extra_args" fields)
