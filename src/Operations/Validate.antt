-- ===== src/Operations/Validate.antt =====
-- llauncher/operations/validate.py, with `default_model_health_check` of operations/preflight.py and
-- the records of models/validation.py: the verdicts on the configured models. What the collector gives
-- when a model is checked is an argument, `none` if it raises. The clock and the disk stand still
-- during a call. Reasons that only people read are left out.
pub mod Gated
use llauncher.Base.{
  ℕ, Bool, true, false, ◌&&◌, ◌||◌, Option, none, some, List, [], ◌∷◌, ◌++◌, String, all, not,
  nat_eq, ◌==◌, if◌then◌else◌,
}
use llauncher.Base.Text.{Text, codes, text_eq, lower}
use llauncher.Base.Dict.{Dict, lookup}
use llauncher.Records.{ModelConfig, Lockfile}
use llauncher.Host.{Sight}
use llauncher.Core.Lockfile.{alive}
use llauncher.Core.ModelHealth.{
  Disk, Reason, ModelHealthResult, HealthCache, check_model_health, resolve_shard_path, suffix,
}
use llauncher.Operations.Preflight.Vram.{Health, default_vram_check}

pub data Check : Type 0 where
  weights gguf_magic vram lockfile : Check

pub record ValidationVerdict : Type 0 where
  pub check : Check
  pub ok : Bool
  pub reason : Option Reason
  pub advisory : Bool

pub data Status : Type 0 where
  status_ok missing unreadable too_small bad_magic invalid stale_lock vram_unknown : Status

pub record ModelValidation : Type 0 where
  pub name : Text
  pub resolved_path : Text
  pub exists : Bool
  pub size_bytes : Option ℕ
  pub running_port : Option ℕ
  pub verdicts : List ValidationVerdict
  pub ok : Bool

-- What the verdicts read: the disk, the lockfiles in the order of `list_lockfiles`, the processes,
-- the time, and the collector.
pub record Scene : Type 0 where
  pub disk : Disk
  pub lockfiles : List Lockfile
  pub sight : ℕ → Sight
  pub now : ℕ
  pub collect : ModelConfig → Option Health

weights_of : ModelHealthResult × HealthCache → ValidationVerdict × HealthCache
weights_of (result, c) = (
  record {
    check = weights;
    ok = result.valid;
    reason = if result.valid then none else result.reason;
    advisory = false;
  },
  c,
)

-- `_weights_verdict` with `make_model_health_check(force_refresh=...)`
unfoldable pub weights_verdict :
    Scene → Bool → ModelConfig → HealthCache → ValidationVerdict × HealthCache
unfolding weights_of check_model_health
weights_verdict scene force_refresh config c =
    weights_of (check_model_health scene.disk scene.now (codes config.model_path) force_refresh c)

abbrev magic : Bool → ValidationVerdict
magic good = record {
  check = gguf_magic;
  ok = good;
  reason = if good then none else some Reason.bad_magic;
  advisory = false;
}

magic_of : Option Text → ValidationVerdict
magic_of none = magic false
magic_of (some head) = magic (head == codes "GGUF")

unfoldable pub gguf_magic_verdict : Disk → Text → Bool → Option ValidationVerdict
unfolding suffix lower magic_of
gguf_magic_verdict disk resolved exists =
    if lower (suffix resolved) == codes ".gguf"
    then if exists then some (magic_of (disk.head resolved)) else none
    else none

abbrev headroom : Option Health → ModelConfig → Bool
headroom none config = false
headroom (some health) config = default_vram_check health config

-- `_vram_verdict`: a check that raises has failed.
unfoldable pub vram_verdict : Scene → ModelConfig → ValidationVerdict
unfolding default_vram_check
vram_verdict scene config = record {
  check = vram;
  ok = headroom (scene.collect config) config;
  reason = if headroom (scene.collect config) config then none else some Reason.no_headroom;
  advisory = true;
}

abbrev stale : ValidationVerdict
stale = record { check = lockfile; ok = false; reason = some Reason.stale_lock; advisory = true }

-- The first lockfile of the model decides.
unfoldable pub running_port_and_lockfile_verdict :
    (ℕ → Sight) → Text → List Lockfile → Option ℕ × Option ValidationVerdict
running_port_and_lockfile_verdict sight name [] = (none, none)
running_port_and_lockfile_verdict sight name (lock ∷ locks) =
    let rest = running_port_and_lockfile_verdict sight name locks in
    if codes lock.model == name
    then if alive (sight lock.pid) then (some lock.port, none) else (none, some stale)
    else rest

abbrev listed : Option ValidationVerdict → List ValidationVerdict
listed none = []
listed (some verdict) = verdict ∷ []

abbrev or_same : Text → Option Text → Text
or_same path none = path
or_same path (some resolved) = resolved

-- `resolved`, after the shards and the symbolic links.
unfoldable pub resolved_path_of : Disk → ModelConfig → Text
unfolding resolve_shard_path
resolved_path_of disk config =
    or_same (resolve_shard_path disk (codes config.model_path))
      (disk.resolve (resolve_shard_path disk (codes config.model_path)))

vram_verdicts : Bool → Option ℕ → Scene → ModelConfig → List ValidationVerdict
unfolding vram_verdict
vram_verdicts false port scene config = []
vram_verdicts true (some port) scene config = []
vram_verdicts true none scene config = vram_verdict scene config ∷ []

-- `all(v.ok for v in verdicts if not v.advisory)`
abbrev pub gate : List ValidationVerdict → Bool
gate = all (λ v. v.advisory || v.ok)

validation : Scene → Bool → Text → ModelConfig → Bool → ValidationVerdict → ModelValidation
unfolding running_port_and_lockfile_verdict gguf_magic_verdict vram_verdicts resolved_path_of
validation scene with_vram name config exists first =
    let resolved = resolved_path_of scene.disk config in
    let running = running_port_and_lockfile_verdict scene.sight name scene.lockfiles in
    let verdicts =
      first
      ∷ (listed (gguf_magic_verdict scene.disk resolved exists)
          ++ (vram_verdicts with_vram running.0 scene config ++ listed running.1)) in
    record {
      name = name;
      resolved_path = resolved;
      exists = exists;
      size_bytes = if exists then scene.disk.size resolved else none;
      running_port = running.0;
      verdicts = verdicts;
      ok = gate verdicts;
    }

-- What `exists` says of the resolved path. It raises for `none`.
validate_found :
    Scene
    → Bool
    → Text
    → ModelConfig
    → HealthCache
    → Option Bool
    → Option ModelValidation × HealthCache
unfolding weights_verdict validation
validate_found scene with_vram name config c none = (none, c)
validate_found scene with_vram name config c (some exists) =
    let first = weights_verdict scene true config c in
    (some (validation scene with_vram name config exists first.0), first.1)

unfoldable pub validate_one :
    Scene → Bool → Text → ModelConfig → HealthCache → Option ModelValidation × HealthCache
unfolding resolved_path_of validate_found
validate_one scene with_vram name config c =
    validate_found scene with_vram name config c
      (scene.disk.exists (resolved_path_of scene.disk config))

onto_validations :
    Option ModelValidation × HealthCache
    → Option (List ModelValidation) × HealthCache
    → Option (List ModelValidation) × HealthCache
onto_validations (none, c) later = (none, c)
onto_validations (some v, c) (none, d) = (none, d)
onto_validations (some v, c) (some vs, d) = (some (v ∷ vs), d)

unfoldable pub validate_all :
    Scene → Bool → Dict Text ModelConfig → HealthCache → Option (List ModelValidation) × HealthCache
unfolding validate_one onto_validations
validate_all scene with_vram [] c = (some [], c)
validate_all scene with_vram ((name, config) ∷ selected) c =
    let one = validate_one scene with_vram name config c in
    onto_validations one (validate_all scene with_vram selected one.1)

-- `[(n, all_models[n]) for n in names if n in all_models]`
onto_selected : Text → Option ModelConfig → Dict Text ModelConfig → Dict Text ModelConfig
onto_selected name none rest = rest
onto_selected name (some config) rest = (name, config) ∷ rest

select_names : List Text → Dict Text ModelConfig → Dict Text ModelConfig
unfolding onto_selected
select_names [] models = []
select_names (name ∷ names) models =
    onto_selected name (lookup name models) (select_names names models)

unfoldable pub selected_of : Option (List Text) → Dict Text ModelConfig → Dict Text ModelConfig
unfolding select_names
selected_of none models = models
selected_of (some names) models = select_names names models

report :
    Option (List ModelValidation) × HealthCache → Option (Bool × List ModelValidation) × HealthCache
report (none, c) = (none, c)
report (some results, c) = (some (all (λ v. v.ok) results, results), c)

-- The report: whether every model is good, and the models. `none` is an exception.
unfoldable pub validate_models :
    Scene
    → Bool
    → Option (List Text)
    → Dict Text ModelConfig
    → HealthCache
    → Option (Bool × List ModelValidation) × HealthCache
unfolding validate_all selected_of report
validate_models scene with_vram names models c =
    report (validate_all scene with_vram (selected_of names models) c)

weights_status : Option Reason → Status
weights_status (some Reason.not_found) = missing
weights_status (some Reason.unreadable) = unreadable
weights_status (some Reason.too_small) = too_small
weights_status _ = invalid

failed_status : Check → Option Reason → Status
unfolding weights_status
failed_status weights reason = weights_status reason
failed_status gguf_magic reason = bad_magic
failed_status _ reason = invalid

advisory_status : List ValidationVerdict → Status
advisory_status [] = status_ok
advisory_status (v ∷ verdicts) =
    let rest = advisory_status verdicts in
    if v.ok || not v.advisory
    then rest
    else elim v.check [ lockfile ↦ stale_lock | vram ↦ vram_unknown | _ ↦ rest ]

gating_status : List ValidationVerdict → Status → Status
unfolding failed_status
gating_status [] later = later
gating_status (v ∷ verdicts) later =
    let rest = gating_status verdicts later in
    if v.ok || v.advisory then rest else failed_status v.check v.reason

-- `ModelValidation.status`
unfoldable pub status_of : ModelValidation → Status
unfolding gating_status advisory_status
status_of v = gating_status v.verdicts (advisory_status v.verdicts)
