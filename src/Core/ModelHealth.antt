-- ===== src/Core/ModelHealth.antt =====
-- llauncher/core/model_health.py, and `resolve_shard_path` of models/config.py: whether the file of a
-- model is there, can be read, and is not too small. Paths are texts without "//" and "/./". The disk
-- does not change during a call. Modification times are left out.
pub mod Examined
use llauncher.Base.{
  ◌*◌, ℕ, Bool, true, false, Option, none, some, [], ◌∷◌, ◌++◌, ltb, nat_eq, ◌==◌, not,
  if◌then◌else◌,
}
use llauncher.Base.Text.{Text, codes, text_eq, starts_with, has_infix, after_last}
use llauncher.Util.Cache.{TtlCache, get, set, invalidate, invalidate_all}

-- What the operating system says of a path. `none` is OSError, or FileNotFoundError.
pub record Disk : Type 0 where
  pub exists : Text → Option Bool
  pub resolve : Text → Option Text
  pub is_file : Text → Option Bool
  pub size : Text → Option ℕ
  pub head : Text → Option Text

-- Why a file is refused. `raised` is the text of an exception, which nothing compares.
pub data Reason : Type 0 where
  not_found unreadable too_small raised bad_magic stale_lock no_headroom : Reason

pub record ModelHealthResult : Type 0 where
  pub valid : Bool
  pub reason : Option Reason
  pub size_bytes : Option ℕ
  pub exists : Bool
  pub readable : Bool

abbrev or_false : Option Bool → Bool
or_false none = false
or_false (some b) = b

-- `s.rsplit(t, 1)[0]`
unfoldable pub before_last : Text → Text → Text
unfolding starts_with has_infix
before_last t [] = []
before_last t (c ∷ s) =
    let rest = before_last t s in
    if has_infix t s then c ∷ rest else if starts_with (c ∷ s) t then [] else c ∷ s

-- A path is a directory, which is empty or ends with a slash, and a name.
abbrev pub name_of : Text → Text
name_of path = after_last b'/' [] path

unfoldable pub directory_of : Text → Text
directory_of [] = []
directory_of (c ∷ s) =
    let rest = directory_of s in if has_infix (codes "/") (c ∷ s) then c ∷ rest else []

ends_with_dot : Text → Bool
ends_with_dot [] = false
ends_with_dot (c ∷ []) = c == b'.'
ends_with_dot (c ∷ d ∷ s) = ends_with_dot (d ∷ s)

-- Whether a name has a suffix: a dot that is neither its first nor its last character.
has_suffix : Text → Bool
unfolding ends_with_dot
has_suffix [] = false
has_suffix (c ∷ s) = if has_infix (codes ".") s then not (ends_with_dot s) else false

-- `path.stem` and `path.suffix`
unfoldable pub stem : Text → Text
unfolding has_suffix before_last
stem path =
    let name = name_of path in if has_suffix name then before_last (codes ".") name else name

unfoldable pub suffix : Text → Text
unfolding has_suffix
suffix path =
    let name = name_of path in if has_suffix name then b'.' ∷ after_last b'.' [] name else []

abbrev pub base_path : Text → Text
base_path path = directory_of path ++ before_last (codes "-of-") (stem path) ++ codes ".gguf"

unfoldable pub resolve_shard_path : Disk → Text → Text
unfolding stem directory_of before_last
resolve_shard_path disk path =
    if or_false (disk.exists path)
    then path
    else if has_infix (codes "-of-") path
    then if or_false (disk.exists (base_path path)) then base_path path else path
    else path

abbrev pub min_size_bytes : ℕ
min_size_bytes = 1024 * 1024

abbrev or_zero : Option ℕ → ℕ
or_zero none = 0
or_zero (some n) = n

abbrev refused : Reason → Option ℕ → Bool → Bool → ModelHealthResult
refused reason size exists readable = record {
  valid = false;
  reason = some reason;
  size_bytes = size;
  exists = exists;
  readable = readable;
}

examine_size : Option ℕ → ModelHealthResult
examine_size size =
    if ltb (or_zero size) min_size_bytes
    then refused too_small size true true
    else record { valid = true; reason = none; size_bytes = size; exists = true; readable = true }

examine_head : Option ℕ → Option Text → ModelHealthResult
unfolding examine_size
examine_head size none = refused unreadable size true false
examine_head size (some head) = examine_size size

examine_file : Option Bool → Disk → Text → ModelHealthResult
unfolding examine_head
examine_file none disk path = refused raised none false false
examine_file (some false) disk path = refused not_found none false false
examine_file (some true) disk path = examine_head (disk.size path) (disk.head path)

examine_path : Option Text → Disk → ModelHealthResult
unfolding examine_file
examine_path none disk = refused raised none false false
examine_path (some path) disk = examine_file (disk.is_file path) disk path

-- What the disk says of a model, as it is now.
unfoldable pub examine : Disk → Text → ModelHealthResult
unfolding resolve_shard_path examine_path
examine disk model_path = examine_path (disk.resolve (resolve_shard_path disk model_path)) disk

abbrev pub HealthCache : Type 0
HealthCache = TtlCache Text ModelHealthResult

remember : ℕ → Text → ModelHealthResult → HealthCache → ModelHealthResult × HealthCache
unfolding set
remember now model_path result c = (result, set now model_path result none c)

or_cached :
    Disk → ℕ → Text → Option ModelHealthResult → HealthCache → ModelHealthResult × HealthCache
unfolding examine remember
or_cached disk now model_path none c = remember now model_path (examine disk model_path) c
or_cached disk now model_path (some cached) c = (cached, c)

-- The result, and the cache after.
unfoldable pub check_model_health :
    Disk → ℕ → Text → Bool → HealthCache → ModelHealthResult × HealthCache
unfolding examine remember get or_cached
check_model_health disk now model_path force_refresh c =
    if force_refresh
    then remember now model_path (examine disk model_path) c
    else let cached = get now model_path c in or_cached disk now model_path cached.0 cached.1

unfoldable pub invalidate_health_cache : Option Text → HealthCache → HealthCache
unfolding invalidate invalidate_all
invalidate_health_cache none c = invalidate_all c
invalidate_health_cache (some model_path) c = invalidate model_path c
